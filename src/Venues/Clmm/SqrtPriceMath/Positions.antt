-- ===== src/Venues/Clmm/SqrtPriceMath/Positions.antt =====
-- The amounts of a position between two prices, rounded for the pool.
use native.Mathlib.Nat.{div-mul-le_self, le_of_mul-le-mul_right}
use memeval.Prelude.{
  ℕ, suc, ◌-◌, ◌*◌, ◌/◌, ◌≤◌, ◌≡◌, true, false, ok, arith, Bool-cases, Result-cases, inl, inr, ltb,
}
use memeval.Prelude.Int.{ℤ, pos, neg, ◌+ℤ◌, ◌≤ℤ◌, int_laws}
use memeval.Venues.Clmm.FullMath.{mul_div, mul_div_rounding_up, q96}
use memeval.Venues.Clmm.FullMath.Rounding.{
  floor-le-ceil, mul_div-IsFloor, mul_div_rounding_up-IsCeil, div_rounding_up-IsCeil,
}
use memeval.Venues.Clmm.SqrtPriceMath.{
  delta0, delta1, get_amount0_delta, get_amount1_delta, get_amount0_delta_signed,
  get_amount1_delta_signed,
}

delta1-le :
    (a b l down up : ℕ) → delta1 a b l false ≡ ok down → delta1 a b l true ≡ ok up → down ≤ up
unfolding delta1
delta1-le a b l down up d u =
    floor-le-ceil down up (l * (b - a)) q96 (mul_div-IsFloor l (b - a) q96 d).2
      (mul_div_rounding_up-IsCeil l (b - a) q96 u).1

delta0-le :
    (a b l down up : ℕ) → delta0 a b l false ≡ ok down → delta0 a b l true ≡ ok up → down ≤ up
unfolding delta0
delta0-le a b l down up d u = elim (Result-cases (mul_div (l * q96) (b - a) b)) [
  | inl (q, e) ↦ elim (Result-cases (mul_div_rounding_up (l * q96) (b - a) b)) [
    | inl (q', e') ↦
        let q_le =
          floor-le-ceil q q' (l * q96 * (b - a)) b (mul_div-IsFloor (l * q96) (b - a) b e).2
            (mul_div_rounding_up-IsCeil (l * q96) (b - a) b e').1 in
        let down_eq : q / a ≡ down = ground arith in
        let (a_pos, c) = div_rounding_up-IsCeil q' a {q = up} (ground arith) in
        let whole = div-mul-le_self q a in
        rw (← down_eq) (le_of_mul-le-mul_right {k = a} (omega (arith, whole, q_le, c.covers)) a_pos)
    | inr (bad, e') ↦ absurd (ground arith)
  ]
  | inr (bad, e) ↦ absurd (ground arith)
]

get_amount0_delta-le :
    (a b l down up : ℕ)
    → get_amount0_delta a b l false ≡ ok down
    → get_amount0_delta a b l true ≡ ok up
    → down ≤ up
unfolding get_amount0_delta
get_amount0_delta-le a b l down up d u = elim (Bool-cases (ltb b a)) [
  | inl swapped ↦ delta0-le b a l down up (ground arith) (ground arith)
  | inr ordered ↦ delta0-le a b l down up (ground arith) (ground arith)
]

amount0_back :
    (a b d : ℕ) {cost back : ℤ}
    → get_amount0_delta_signed a b (pos (suc d)) ≡ ok cost
    → get_amount0_delta_signed a b (neg (pos (suc d))) ≡ ok back
    → pos 0 ≤ℤ cost +ℤ back
unfolding get_amount0_delta_signed neg
amount0_back a b d h k = elim (Result-cases (get_amount0_delta a b (suc d) true)) [
  | inl (up, e) ↦ elim (Result-cases (get_amount0_delta a b (suc d) false)) [
    | inl (down, e') ↦ let le = get_amount0_delta-le a b (suc d) down up e' e in grind int_laws
    | inr (bad, e') ↦ absurd (ground arith)
  ]
  | inr (bad, e) ↦ absurd (ground arith)
]

get_amount1_delta-le :
    (a b l down up : ℕ)
    → get_amount1_delta a b l false ≡ ok down
    → get_amount1_delta a b l true ≡ ok up
    → down ≤ up
unfolding get_amount1_delta
get_amount1_delta-le a b l down up d u = elim (Bool-cases (ltb b a)) [
  | inl swapped ↦ delta1-le b a l down up (ground arith) (ground arith)
  | inr ordered ↦ delta1-le a b l down up (ground arith) (ground arith)
]

amount1_back :
    (a b d : ℕ) {cost back : ℤ}
    → get_amount1_delta_signed a b (pos (suc d)) ≡ ok cost
    → get_amount1_delta_signed a b (neg (pos (suc d))) ≡ ok back
    → pos 0 ≤ℤ cost +ℤ back
unfolding get_amount1_delta_signed neg
amount1_back a b d h k = elim (Result-cases (get_amount1_delta a b (suc d) true)) [
  | inl (up, e) ↦ elim (Result-cases (get_amount1_delta a b (suc d) false)) [
    | inl (down, e') ↦ let le = get_amount1_delta-le a b (suc d) down up e' e in grind int_laws
    | inr (bad, e') ↦ absurd (ground arith)
  ]
  | inr (bad, e) ↦ absurd (ground arith)
]

-- What a position gets back when it is removed is at most what adding it at the same prices costs, in
-- either token: the cost is rounded up and the return is rounded down.
pub position_no_profit :
    (a b d : ℕ) {cost0 back0 cost1 back1 : ℤ}
    → get_amount0_delta_signed a b (pos (suc d)) ≡ ok cost0
    → get_amount0_delta_signed a b (neg (pos (suc d))) ≡ ok back0
    → get_amount1_delta_signed a b (pos (suc d)) ≡ ok cost1
    → get_amount1_delta_signed a b (neg (pos (suc d))) ≡ ok back1
    → (pos 0 ≤ℤ cost0 +ℤ back0) × (pos 0 ≤ℤ cost1 +ℤ back1)
position_no_profit a b d h k h' k' = (amount0_back a b d h k, amount1_back a b d h' k')
