-- ===== src/Venues/Clmm/FullMath/Rounding.antt =====
-- What the divisions of venues/clmm/math.py return.
use native.Mathlib.Nat.{div-mul-le_self, lt-div-mul-add, div-add-mod, lt_of_mul-lt-mul_right}
use memeval.Prelude.{ℕ, ◌+◌, ◌*◌, ◌/◌, ◌%◌, ◌≤◌, ◌<◌, ◌≡◌, ok, arith, Bool-cases, inl, inr, ◌==◌}
use memeval.Venues.Clmm.FullMath.{mul_div, mul_div_rounding_up, div_rounding_up, max_uint256}

-- `q` is `n / d` rounded up, and rounded down.
pub record IsCeil (q n d : ℕ) : Type 0 where
  pub covers : n ≤ q * d
  pub least : q * d < n + d

pub record IsFloor (q n d : ℕ) : Type 0 where
  pub within : q * d ≤ n
  pub most : n < q * d + d

-- The least quotient that covers `n` is below every other that does.
pub ceil-le : (q n d m : ℕ) → IsCeil q n d → n ≤ m * d → q ≤ m
ceil-le q n d m c h =
    let below = lt_of_mul-lt-mul_right d {m = q} {n = m + 1} (omega (arith, c.least)) in omega arith

floor_lem : (n d : ℕ) → 0 < d → IsFloor (n / d) n d
floor_lem n d h = record { within = div-mul-le_self n d; most = lt-div-mul-add h }

exact-IsCeil : (n d : ℕ) → 0 < d → n % d ≡ 0 → IsCeil (n / d) n d
exact-IsCeil n d h e = record {
  covers = omega (arith, div-add-mod n d);
  least = omega (arith, div-mul-le_self n d);
}

above-IsCeil : (n d : ℕ) → 0 < d → 0 < n % d → IsCeil (n / d + 1) n d
above-IsCeil n d h e = record {
  covers = omega (arith, lt-div-mul-add {a = n} h);
  least = omega (arith, div-add-mod n d);
}

-- A successful `mul_div` had a positive divisor, and its result fits a word and is the product
-- divided and rounded down.
pub mul_div-IsFloor :
    (a b d : ℕ) {q : ℕ} → mul_div a b d ≡ ok q → (0 < d) × (q ≤ max_uint256) × IsFloor q (a * b) d
unfolding mul_div
mul_div-IsFloor a b d {q} h =
    let d_pos : 0 < d = ground arith in
    let q_eq : a * b / d ≡ q = ground arith in
    (d_pos, ground arith, rw (← q_eq) (floor_lem (a * b) d d_pos))

pub mul_div_total :
    (a b d : ℕ)
    → a ≤ max_uint256
    → b ≤ max_uint256
    → d ≤ max_uint256
    → 0 < d
    → a * b / d ≤ max_uint256
    → mul_div a b d ≡ ok (a * b / d)
unfolding mul_div
mul_div_total a b d ha hb hd p h = ground arith

-- A successful `mul_div_rounding_up` had a positive divisor and is the product divided and rounded up.
pub mul_div_rounding_up-IsCeil :
    (a b d : ℕ) {q : ℕ} → mul_div_rounding_up a b d ≡ ok q → (0 < d) × IsCeil q (a * b) d
unfolding mul_div_rounding_up
mul_div_rounding_up-IsCeil a b d {q} h =
    let d_pos : 0 < d = ground arith in
    elim (Bool-cases (a * b % d == 0)) [
      | inl exact ↦
          let q_eq : a * b / d ≡ q = ground arith in
          (d_pos, rw (← q_eq) (exact-IsCeil (a * b) d d_pos (ground arith)))
      | inr rest ↦
          let q_eq : a * b / d + 1 ≡ q = ground arith in
          (d_pos, rw (← q_eq) (above-IsCeil (a * b) d d_pos (ground arith)))
    ]

-- A successful `div_rounding_up` had a positive divisor and is the quotient rounded up.
pub div_rounding_up-IsCeil : (x y : ℕ) {q : ℕ} → div_rounding_up x y ≡ ok q → (0 < y) × IsCeil q x y
unfolding div_rounding_up
div_rounding_up-IsCeil x y {q} h =
    let y_pos : 0 < y = ground arith in
    elim (Bool-cases (x % y == 0)) [
      | inl exact ↦
          let q_eq : x / y ≡ q = ground arith in
          (y_pos, rw (← q_eq) (exact-IsCeil x y y_pos (ground arith)))
      | inr rest ↦
          let q_eq : x / y + 1 ≡ q = ground arith in
          (y_pos, rw (← q_eq) (above-IsCeil x y y_pos (ground arith)))
    ]

pub floor-le-ceil : (p q n d : ℕ) → IsFloor p n d → IsCeil q n d → p ≤ q
floor-le-ceil p q n d f c =
    let below =
      lt_of_mul-lt-mul_right d {m = p} {n = q + 1} (omega (arith, f.within, f.most, c.covers)) in
    omega arith
