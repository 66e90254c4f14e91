-- ===== src/Venues/Clmm/SqrtPriceMath/Input.antt =====
-- An amount paid in moves the price by no more than it pays for.
use native.Mathlib.Nat.{mul-le-mul_left, mul-le-mul_right, div-mul-le_self, lt-div-mul-add}
use memeval.Prelude.{
  ℕ, ◌+◌, ◌-◌, ◌*◌, ◌/◌, ◌≤◌, ◌<◌, ◌≡◌, ap, ◌⊎◌, true, ok, arith, Bool-cases, Result-cases, inl,
  inr, leb,
}
use memeval.Venues.Clmm.FullMath.{mul_div, mul_div_rounding_up, div_rounding_up, q96, max_uint160}
use memeval.Venues.Clmm.FullMath.Rounding.{
  ceil-le, mul_div-IsFloor, mul_div_rounding_up-IsCeil, div_rounding_up-IsCeil,
}
use memeval.Venues.Clmm.SqrtPriceMath.{
  get_next_sqrt_price_from_amount0_rounding_up, get_next_sqrt_price_from_amount1_rounding_down,
  get_amount0_delta, get_amount1_delta, delta0, delta1,
}

-- Where the new price `r` covers the curve, the input between `r` and `p` is at most the amount.
delta0-le :
    (r p l96 amount : ℕ) {q : ℕ}
    → 0 < p
    → r ≤ p
    → l96 * p ≤ r * l96 + r * (amount * p)
    → (mul_div_rounding_up l96 (p - r) p ≡ ok q)
    → {out : ℕ} → div_rounding_up q r ≡ ok out
    → out ≤ amount
delta0-le r p l96 amount {q} p_pos le covers e e' =
    let s : ℕ = p - r in
    let p_eq : r + s ≡ p = omega arith in
    let inner : l96 * s ≤ amount * r * p = omega (arith, ap (λ t. l96 * t) p_eq) in
    let q_le = ceil-le q (l96 * s) p (amount * r) (mul_div_rounding_up-IsCeil l96 s p e).1 inner in
    ceil-le _ q r amount (div_rounding_up-IsCeil q r e').1 q_le

-- How the next price of an input of token 0 was found.
next0-cases :
    (p l amount r : ℕ)
    → get_next_sqrt_price_from_amount0_rounding_up p l amount true ≡ ok r
    → (r ≡ p)
      ⊎ (mul_div_rounding_up (l * q96) p (l * q96 + amount * p) ≡ ok r)
      ⊎ (div_rounding_up (l * q96) (l * q96 / p + amount) ≡ ok r) × (0 < amount)
unfolding get_next_sqrt_price_from_amount0_rounding_up
next0-cases p l amount r h = ground arith

-- The price falls, and by no more than the input pays for.
next0_covers :
    (p l amount r : ℕ)
    → 0 < p
    → get_next_sqrt_price_from_amount0_rounding_up p l amount true ≡ ok r
    → (r ≤ p) × (l * q96 * p ≤ r * (l * q96) + r * (amount * p))
next0_covers p l amount r p_pos h = elim (next0-cases p l amount r h) [
  | inl same ↦ rw same (omega arith, omega arith)
  | inr (inl e) ↦
      let c = (mul_div_rounding_up-IsCeil (l * q96) p (l * q96 + amount * p) e).1 in
      (ceil-le r (l * q96 * p) (l * q96 + amount * p) p c (omega arith), omega (arith, c.covers))
  | inr (inr (e, a_pos)) ↦
      let n : ℕ = l * q96 in
      let k : ℕ = n / p in
      let c = (div_rounding_up-IsCeil n (k + amount) e).1 in
      let whole : k * p ≤ n = div-mul-le_self n p in
      let over : n < k * p + p = lt-div-mul-add {a = n} p_pos in
      let one : p * 1 ≤ p * amount = mul-le-mul_left p a_pos in
      let scaled = mul-le-mul_right p c.covers in
      let part = mul-le-mul_left r whole in
      (ceil-le r n (k + amount) p c (omega arith), omega arith)
]

next1-cases :
    (p l amount r : ℕ)
    → get_next_sqrt_price_from_amount1_rounding_down p l amount true ≡ ok r
    → (quotient : ℕ) × (r ≡ p + quotient) × (quotient * l ≤ amount * q96)
unfolding get_next_sqrt_price_from_amount1_rounding_down
next1-cases p l amount r h = elim (Bool-cases (leb amount max_uint160)) [
  | inl small ↦ (amount * q96 / l, ground arith, div-mul-le_self (amount * q96) l)
  | inr large ↦ elim (Result-cases (mul_div amount q96 l)) [
    | inl (q, e) ↦ (q, ground arith, (mul_div-IsFloor amount q96 l e).2.within)
    | inr (bad, e) ↦ absurd (ground arith)
  ]
]

-- The input between the old price and the one that an amount moves it to is at most the amount.
pub get_amount0_delta-le :
    (p l amount r out : ℕ)
    → 0 < p
    → get_next_sqrt_price_from_amount0_rounding_up p l amount true ≡ ok r
    → get_amount0_delta r p l true ≡ ok out
    → out ≤ amount
unfolding get_amount0_delta delta0
get_amount0_delta-le p l amount r out p_pos h e =
    let (le, covers) = next0_covers p l amount r p_pos h in
    elim (Result-cases (mul_div_rounding_up (l * q96) (p - r) p)) [
      | inl (q, inner) ↦ delta0-le r p (l * q96) amount p_pos le covers inner (ground arith)
      | inr (bad, inner) ↦ absurd (ground arith)
    ]

pub get_amount1_delta-le :
    (p l amount r out : ℕ)
    → get_next_sqrt_price_from_amount1_rounding_down p l amount true ≡ ok r
    → get_amount1_delta p r l true ≡ ok out
    → out ≤ amount
unfolding get_amount1_delta delta1
get_amount1_delta-le p l amount r out h e =
    let (k, r_eq, paid) = next1-cases p l amount r h in
    let k_eq : r - p ≡ k = omega arith in
    let whole : mul_div_rounding_up l (r - p) q96 ≡ ok out = ground arith in
    ceil-le out (l * (r - p)) q96 amount (mul_div_rounding_up-IsCeil l (r - p) q96 whole).1
      (rw k_eq (omega arith))
