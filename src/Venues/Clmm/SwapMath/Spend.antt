-- ===== src/Venues/Clmm/SwapMath/Spend.antt =====
-- An exact-input step spends no more than what remains.
use native.Mathlib.Nat.{mul-le-mul_left}
use memeval.Prelude.{
  ℕ, ◌+◌, ◌-◌, ◌*◌, ◌≤◌, ◌<◌, ◌≡◌, ◌≢◌, sym, ap, ◌⊎◌, Bool, true, false, ok, ok, arith,
  Result-cases, >>=-eq-ok, inl, inr, leb,
}
use memeval.Prelude.Int.{pos, ◌+ℤ◌, ◌-ℤ◌, ◌≤ℤ◌, int_laws}
use memeval.Venues.Clmm.FullMath.{mul_div, mul_div_rounding_up}
use memeval.Venues.Clmm.FullMath.Rounding.{
  IsCeil, IsFloor, ceil-le, mul_div-IsFloor, mul_div_rounding_up-IsCeil,
}
use memeval.Venues.Clmm.SqrtPriceMath.{get_next_sqrt_price_from_input}
use memeval.Venues.Clmm.SqrtPriceMath.Input.{get_amount0_delta-le, get_amount1_delta-le}
use memeval.Venues.Clmm.SwapMath.{
  Step, fee_denominator, in_between, next_exact_in, finish_exact_in, step_exact_in,
  compute_swap_step,
}

-- The input that a partial step uses is at most the amount after the fee.
in_between-le :
    (z : Bool) (current next l amount used : ℕ)
    → get_next_sqrt_price_from_input current l amount z ≡ ok next
    → in_between z current next l ≡ ok used
    → used ≤ amount
unfolding get_next_sqrt_price_from_input in_between
in_between-le true current next l amount used h e =
    get_amount0_delta-le current l amount next used (ground arith) (ground arith) e
in_between-le false current next l amount used h e =
    get_amount1_delta-le current l amount next used (ground arith) e

-- Where the target is reached, the input and its fee together fit what remains.
fee-le :
    (remaining used fee pips less : ℕ)
    → pips < fee_denominator
    → IsFloor less (remaining * (fee_denominator - pips)) fee_denominator
    → used ≤ less
    → IsCeil fee (used * pips) (fee_denominator - pips)
    → used + fee ≤ remaining
fee-le remaining used fee pips less hp fl le c =
    let g : ℕ = fee_denominator - pips in
    let s : ℕ = remaining - used in
    let g_pos : 0 < g = omega arith in
    let cap : remaining * g ≤ remaining * fee_denominator =
      mul-le-mul_left remaining (omega arith) in
    let used_le : used ≤ remaining = omega (arith, fl.within) in
    let sum_eq : used + s ≡ remaining = omega arith in
    let split_eq : g + pips ≡ fee_denominator = omega arith in
    let parts : used * g + used * pips ≤ used * g + s * g =
      omega (arith, ap (λ t. t * g) sum_eq, ap (λ t. used * t) split_eq, fl.within) in
    let fee_le = ceil-le fee (used * pips) g s c (omega arith) in omega arith

-- How the price of a step was found, and that the input it uses fits the amount after the fee.
next_exact_in-cases :
    (z : Bool) (current target l remaining pips next up : ℕ)
    → next_exact_in z current target l remaining pips ≡ ok (next, up)
    → (less : ℕ) × (mul_div remaining (fee_denominator - pips) fee_denominator ≡ ok less)
      × ((next ≡ target) × (up ≤ less)
          ⊎ (get_next_sqrt_price_from_input current l less z ≡ ok next)
            × (in_between z current target l ≡ ok up))
unfolding next_exact_in
next_exact_in-cases z current target l remaining pips next up h =
    elim (Result-cases (mul_div remaining (fee_denominator - pips) fee_denominator)) [
      | inl (less, e) ↦ (less, e, ground arith)
      | inr (bad, e) ↦ absurd (ground arith)
    ]

-- The input and the fee of a finished step, in both outcomes.
finish_exact_in-cases :
    (z : Bool) (current target l remaining pips next up : ℕ) {s : Step}
    → finish_exact_in z current target l remaining pips next up ≡ ok s
    → (target ≡ s.sqrt_ratio_next_x96)
        × (target ≡ next)
        × (s.amount_in ≡ up)
        × ((fee : ℕ) × (mul_div_rounding_up up pips (fee_denominator - pips) ≡ ok fee)
            × (s.fee_amount ≡ pos fee))
      ⊎ (target ≢ next)
        × (in_between z current next l ≡ ok s.amount_in)
        × (s.fee_amount ≡ pos remaining -ℤ pos s.amount_in)
unfolding finish_exact_in
finish_exact_in-cases z current target l remaining pips next up h = ground arith

up-le :
    (z : Bool) (current target l next up less : ℕ)
    → target ≡ next
    → (next ≡ target) × (up ≤ less)
      ⊎ (get_next_sqrt_price_from_input current l less z ≡ ok next)
        × (in_between z current target l ≡ ok up)
    → up ≤ less
up-le z current target l next up less same (inl (_, le)) = le
up-le z current target l next up less same (inr (moved, used)) =
    in_between-le z current next l less up moved (rw same at used)

used-le :
    (z : Bool) (current target l next up less used : ℕ)
    → target ≢ next
    → (next ≡ target) × (up ≤ less)
      ⊎ (get_next_sqrt_price_from_input current l less z ≡ ok next)
        × (in_between z current target l ≡ ok up)
    → in_between z current next l ≡ ok used
    → used ≤ less
used-le z current target l next up less used short (inl (same, _)) part = absurd (short (sym same))
used-le z current target l next up less used short (inr (moved, _)) part =
    in_between-le z current next l less used moved part

floor-le :
    (remaining pips less used : ℕ)
    → IsFloor less (remaining * (fee_denominator - pips)) fee_denominator
    → used ≤ less
    → used ≤ remaining
floor-le remaining pips less used fl le =
    let cap : remaining * (fee_denominator - pips) ≤ remaining * fee_denominator =
      mul-le-mul_left remaining (omega arith) in
    omega (arith, fl.within)

step_exact_in_spend :
    (z : Bool) (current target l remaining pips : ℕ) {s : Step}
    → pips < fee_denominator
    → step_exact_in z current target l remaining pips ≡ ok s
    → (pos 0 ≤ℤ s.fee_amount)
      × (pos s.amount_in +ℤ s.fee_amount ≤ℤ pos remaining)
      × ((target ≡ s.sqrt_ratio_next_x96) ⊎ (pos s.amount_in +ℤ s.fee_amount ≡ pos remaining))
unfolding step_exact_in
step_exact_in_spend z current target l remaining pips {s} hp h =
    let ((next, up), e, e') = >>=-eq-ok (next_exact_in z current target l remaining pips) _ h in
    let (less, floor, found) = next_exact_in-cases z current target l remaining pips next up e in
    let (_, _, fl) = mul_div-IsFloor remaining (fee_denominator - pips) fee_denominator floor in
    elim (finish_exact_in-cases z current target l remaining pips next up e') [
      | inl (reached, same, used, (fee, charged, fee_eq)) ↦
          let le = up-le z current target l next up less same found in
          let c = (mul_div_rounding_up-IsCeil up pips (fee_denominator - pips) charged).1 in
          let total = fee-le remaining up fee pips less hp fl le c in
          (rw fee_eq (omega arith), rw (fee_eq, used) (omega (int_laws, total)), inl reached)
      | inr (short, part, fee_eq) ↦
          let le = used-le z current target l next up less s.amount_in short found part in
          let fits : s.amount_in ≤ remaining = floor-le remaining pips less s.amount_in fl le in
          (
            rw fee_eq (omega (int_laws, fits)),
            rw fee_eq (omega int_laws),
            inr (rw fee_eq (omega int_laws)),
          )
    ]

exact_in_ran :
    (current target l r pips : ℕ) {s : Step}
    → compute_swap_step current target l (pos r) pips ≡ ok s
    → (pips < fee_denominator) × (step_exact_in (leb target current) current target l r pips ≡ ok s)
unfolding compute_swap_step
exact_in_ran current target l r pips h = ground arith

-- Every step of an exact input that succeeds takes an input and a non-negative fee that together are
-- at most what remains; where it stops short of the target, they are all of it.
pub compute_swap_step_spend :
    (current target l r pips : ℕ) {s : Step}
    → compute_swap_step current target l (pos r) pips ≡ ok s
    → (pos 0 ≤ℤ s.fee_amount)
      × (pos s.amount_in +ℤ s.fee_amount ≤ℤ pos r)
      × ((target ≡ s.sqrt_ratio_next_x96) ⊎ (pos s.amount_in +ℤ s.fee_amount ≡ pos r))
compute_swap_step_spend current target l r pips h =
    let (hp, ran) = exact_in_ran current target l r pips h in
    step_exact_in_spend (leb target current) current target l r pips hp ran
