-- ===== src/Venues/Cpmm/Pool/Reserves.antt =====
-- venues/cpmm/pool.py: what the operations do to the reserves.
use mathlib.Core.Path.{ap₂}
use native.Mathlib.Nat.{div-le_of_le-mul, le_trans, le_of_eq, mul-le-mul_left, mul_comm}
use memeval.Prelude.{
  ◌≡◌, ◌↔◌, String, ◌⊎◌, inl, inr, Option, none, some, ok, err, arith, Bool-cases, Result-cases,
  if◌then◌else◌, str_eq, ℕ, ◌*◌, ◌/◌, ◌≤◌,
}
use memeval.Prelude.Int.{
  ℤ, pos, negsuc, pos_part, neg_part, sub_ℕ, ◌+ℤ◌, ◌-ℤ◌, ◌*ℤ◌, ◌≤ℤ◌, ◌<ℤ◌, neg, floor_div, int_laws,
}
use memeval.Venues.Cpmm.Math.{get_amount_out}
use memeval.Venues.Cpmm.Math.Exact.{pos-mul}
use memeval.Venues.Cpmm.Math.Bounds.{sides_product, get_amount_out-lt-reserve}
use memeval.Venues.Cpmm.Pool.{
  CpmmPoolState, Ratio, max_out, scaled, apply_swap, apply_mint, apply_burn, apply_adjust,
  anchor_to_sync, fidelity_limit,
}

-- Both reserves hold something.
pub record IsLive (p : CpmmPoolState) : Type 0 where
  pub live0 : pos 0 <ℤ p.reserve0
  pub live1 : pos 0 <ℤ p.reserve1

abbrev pub product : CpmmPoolState → ℤ
product p = p.reserve0 *ℤ p.reserve1

-- A ratio of at most one; no ratio stands for one.
abbrev pub IsShare : Option Ratio → Type 0
IsShare none = Unit
IsShare (some r) = (pos 0 ≤ℤ r.numerator) × (r.numerator ≤ℤ pos r.denominator)

*ℤ_comm : (a b : ℤ) → a *ℤ b ≡ b *ℤ a
unfolding ◌*ℤ◌
*ℤ_comm a b =
    ap₂ sub_ℕ
      (omega (arith, mul_comm (pos_part a) (pos_part b), mul_comm (neg_part a) (neg_part b)))
      (omega (arith, mul_comm (pos_part a) (neg_part b), mul_comm (neg_part a) (pos_part b)))

share-le : (b n d : ℕ) → n ≤ d → b * n / d ≤ b
share-le b n d h = div-le_of_le-mul d (le_trans (mul-le-mul_left b h) (le_of_eq (mul_comm b d)))

floor-le : (b : ℕ) (n : ℤ) (d : ℕ) → pos 0 ≤ℤ n → n ≤ℤ pos d → floor_div (pos b *ℤ n) d ≤ℤ pos b
unfolding floor_div
floor-le b (pos n) d h le = rw (pos-mul b n) (omega (arith, share-le b n d (omega arith)))
floor-le b (negsuc n) d h le = absurd (omega arith)

pub scaled-le : (best : ℤ) (r : Option Ratio) → pos 0 ≤ℤ best → IsShare r → scaled best r ≤ℤ best
unfolding scaled
scaled-le best none h s = omega arith
scaled-le (negsuc b) (some r) h s = absurd (omega arith)
scaled-le (pos b) (some r) h s = ground (arith, floor-le b r.numerator r.denominator s.0 s.1)

-- How a successful swap ran: which side the input is on, the model's output, and the writes.
abbrev Ran : CpmmPoolState → CpmmPoolState → ℤ → ℤ → ℤ → Option Ratio → Type 0
Ran p q amount out best ratio =
    (out ≡ scaled best ratio)
    × (pos 0 <ℤ out)
    × ((get_amount_out amount p.reserve0 p.reserve1 p.fee_num p.fee_den ≡ ok best)
          × (q.reserve0 ≡ p.reserve0 +ℤ amount)
          × (q.reserve1 ≡ p.reserve1 -ℤ out)
        ⊎ (get_amount_out amount p.reserve1 p.reserve0 p.fee_num p.fee_den ≡ ok best)
          × (q.reserve1 ≡ p.reserve1 +ℤ amount)
          × (q.reserve0 ≡ p.reserve0 -ℤ out))

-- The formula that `max_out` evaluates, by the side of the input.
pub max_out-side :
    (p : CpmmPoolState) (asset : String) (amount best : ℤ)
    → max_out p asset amount ≡ ok best
    → (if str_eq asset p.asset0
        then get_amount_out amount p.reserve0 p.reserve1 p.fee_num p.fee_den
        else get_amount_out amount p.reserve1 p.reserve0 p.fee_num p.fee_den)
      ≡ ok best
unfolding max_out
max_out-side p asset amount best h = elim (Bool-cases (str_eq asset p.asset0)) [
  | inl same ↦ let h' = rw (same, max_out) at h in rw same h'
  | inr other ↦ ground arith
]

apply_swap-Ran :
    (p : CpmmPoolState) (asset : String) (amount : ℤ) (r : Option Ratio) {q : CpmmPoolState}
    {out : ℤ}
    → apply_swap p asset amount r ≡ ok (q, out)
    → (best : ℤ) × Ran p q amount out best r
unfolding apply_swap
apply_swap-Ran p asset amount r h = elim (Result-cases (max_out p asset amount)) [
  | inl (best, e) ↦
      let side = max_out-side p asset amount best e in
      elim (Bool-cases (str_eq asset p.asset0)) [
        | inl same ↦
            let side' = rw same at side in
            (best, (ground arith, ground arith, inl (side', ground arith, ground arith)))
        | inr other ↦
            let side' = rw other at side in
            (best, (ground arith, ground arith, inr (side', ground arith, ground arith)))
      ]
  | inr (bad, e) ↦ absurd (ground arith)
]

-- A swap that succeeds, at the model's price or at a recorded share of it, pays out a positive
-- amount, leaves both reserves positive, and never lowers the product of the reserves.
pub apply_swap-product :
    (p : CpmmPoolState) (asset : String) (amount : ℤ) (r : Option Ratio) {q : CpmmPoolState}
    {out : ℤ}
    → IsShare r
    → apply_swap p asset amount r ≡ ok (q, out)
    → IsLive q × (pos 0 <ℤ out) × (product p ≤ℤ product q)
apply_swap-product p asset amount r {out} s h =
    let (best, (out_eq, out_pos, ran)) = apply_swap-Ran p asset amount r h in
    elim ran [
      | inl (formula, e0, e1) ↦
          let le = scaled-le best r (get_amount_out-lt-reserve _ _ _ _ _ formula).0 s in
          let sides =
            sides_product amount p.reserve0 p.reserve1 p.fee_num p.fee_den best out formula out_pos
              (rw out_eq le) in
          (record { live0 = rw e0 sides.0; live1 = rw e1 sides.1 }, out_pos, rw (e0, e1) sides.2)
      | inr (formula, e1, e0) ↦
          let le = scaled-le best r (get_amount_out-lt-reserve _ _ _ _ _ formula).0 s in
          let sides =
            sides_product amount p.reserve1 p.reserve0 p.fee_num p.fee_den best out formula out_pos
              (rw out_eq le) in
          (
            record { live0 = rw e0 sides.1; live1 = rw e1 sides.0 },
            out_pos,
            rw (e0, e1, *ℤ_comm p.reserve0 p.reserve1, *ℤ_comm (p.reserve0 -ℤ out)) sides.2,
          )
    ]

-- Neither reserve is negative, which `create` checks.
pub record IsFunded (p : CpmmPoolState) : Type 0 where
  pub funded0 : pos 0 ≤ℤ p.reserve0
  pub funded1 : pos 0 ≤ℤ p.reserve1

-- Every change of liquidity that succeeds leaves the reserves of a funded pool non-negative: a mint,
-- a burn and a signed adjustment.
pub liquidity-IsFunded :
    (p : CpmmPoolState) (a b : ℤ) {q : CpmmPoolState}
    → IsFunded p
    → (apply_mint p a b ≡ ok q) ⊎ (apply_burn p a b ≡ ok q) ⊎ (apply_adjust p a b ≡ ok q)
    → IsFunded q
unfolding apply_mint apply_burn apply_adjust
liquidity-IsFunded p a b f (inl h) = grind int_laws
liquidity-IsFunded p a b f (inr (inl h)) = grind int_laws
liquidity-IsFunded p a b f (inr (inr h)) = grind int_laws

-- A burn of non-negative amounts fails with the fidelity limit exactly when it would take a reserve
-- below zero.
pub apply_burn_limit :
    (p : CpmmPoolState) (a b : ℕ)
    → (apply_burn p (pos a) (pos b) ≡ err fidelity_limit)
      ↔ ((p.reserve0 <ℤ pos a) ⊎ (p.reserve1 <ℤ pos b))
unfolding apply_burn
apply_burn_limit p a b = ground arith

-- Burning what was just minted gives the pool back.
pub apply_burn-apply_mint :
    (p : CpmmPoolState) (a b : ℤ) {q : CpmmPoolState}
    → IsFunded p
    → apply_mint p a b ≡ ok q
    → apply_burn q a b ≡ ok p
unfolding apply_mint apply_burn
apply_burn-apply_mint p a b f h = grind int_laws

-- A reference pool that is anchored to a recorded checkpoint holds that checkpoint, and a private
-- copy that takes the opposite of the reported difference keeps its distance from the reference.
pub apply_adjust-anchor_to_sync :
    (ref private : CpmmPoolState) (r0 r1 : ℤ) {q : CpmmPoolState}
    → let (anchored, (d0, d1)) = anchor_to_sync ref r0 r1 in
      apply_adjust private (neg d0) (neg d1) ≡ ok q
      → (anchored.reserve0 ≡ r0)
        × (anchored.reserve1 ≡ r1)
        × (q.reserve0 -ℤ anchored.reserve0 ≡ private.reserve0 -ℤ ref.reserve0)
        × (q.reserve1 -ℤ anchored.reserve1 ≡ private.reserve1 -ℤ ref.reserve1)
unfolding anchor_to_sync apply_adjust
apply_adjust-anchor_to_sync ref private r0 r1 h = grind int_laws
