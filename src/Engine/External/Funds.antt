-- ===== src/Engine/External/Funds.antt =====
-- engine/simulation.py, _apply_external: what mints, burns, adjustments and checkpoints do to the reserves.
use memeval.Prelude.{
  ◌≡◌, ◌+◌, String, Option, none, some, ok, arith, Bool-cases, Result-cases, inl, inr, str_eq,
}
use memeval.Prelude.Int.{ℤ, pos, neg, ◌≤ℤ◌, int_laws}
use memeval.Venues.Cpmm.Math.Exact.{get_amount_out-OutOf}
use memeval.Venues.Cpmm.Math.Bounds.{get_amount_out-lt-reserve}
use memeval.Venues.Cpmm.Math.{get_amount_out}
use memeval.Venues.Cpmm.Pool.{
  CpmmPoolState, max_out, apply_mint, apply_burn, apply_adjust, anchor_to_sync, fidelity_limit,
  DeltaClass, match, explained, material,
}
use memeval.Venues.Cpmm.Pool.Reserves.{IsFunded, IsLive, liquidity-IsFunded, max_out-side}
use memeval.Engine.Tape.{RelEvent}
use memeval.Engine.External.{
  Market, external_mint, external_burn, external_adjust, external_sync, apply_recorded_to_ref,
  follow_sync, reference_burn_overdraw, reference_adjust_overdraw, burn_private, adjust_private,
  sync_to, or_zero, flag,
}

-- Neither state of the market holds a negative reserve.
pub record IsSound (m : Market) : Type 0 where
  pub private_funded : IsFunded m.pool
  pub reference_funded : IsFunded m.ref

abbrev pub NonNegative : Option ℤ → Type 0
NonNegative none = Unit
NonNegative (some x) = pos 0 ≤ℤ x

-- What a pack records: a swap's output and a checkpoint's reserves are not negative.
pub record IsRecorded (ev : RelEvent) : Type 0 where
  pub recorded_out : NonNegative ev.amount_out_recorded
  pub recorded0 : NonNegative ev.reserve0
  pub recorded1 : NonNegative ev.reserve1

pub IsLive-IsFunded : (p : CpmmPoolState) → IsLive p → IsFunded p
IsLive-IsFunded p l = record { funded0 = omega (arith, l.live0); funded1 = omega (arith, l.live1) }

spent : (i x y f d : ℤ) {out : ℤ} → get_amount_out i x y f d ≡ ok out → pos 0 ≤ℤ i
spent i x y f d h = let o = get_amount_out-OutOf i x y f d h in rw o.amount_in_eq (omega arith)

pub max_out-covers :
    (p : CpmmPoolState) (asset : String) (amount best out : ℤ)
    → max_out p asset amount ≡ ok best
    → out ≤ℤ best
    → IsFunded p
    → IsFunded (apply_recorded_to_ref p asset amount out)
unfolding apply_recorded_to_ref
max_out-covers p asset amount best out h le f = elim (Bool-cases (str_eq asset p.asset0)) [
  | inl same ↦
      let which = max_out-side p asset amount best h in
      let side = rw same at which in
      let paid = spent _ _ _ _ _ side in
      let below = get_amount_out-lt-reserve _ _ _ _ _ side in
      rw same (record {
        funded0 = omega (int_laws, paid, f.funded0);
        funded1 = omega (int_laws, below.1);
      })
  | inr other ↦
      let which = max_out-side p asset amount best h in
      let side = rw other at which in
      let paid = spent _ _ _ _ _ side in
      let below = get_amount_out-lt-reserve _ _ _ _ _ side in
      rw other (record {
        funded0 = omega (int_laws, below.1);
        funded1 = omega (int_laws, paid, f.funded1);
      })
]

burn_private-IsSound :
    (ev : RelEvent) (m : Market) (a b : ℤ) {n : Market}
    → IsSound m
    → burn_private ev m a b ≡ ok n
    → IsSound n
unfolding burn_private apply_burn
burn_private-IsSound ev m a b s h = grind int_laws

adjust_private-IsSound :
    (ev : RelEvent) (m : Market) (a b : ℤ) → IsSound m → IsSound (adjust_private ev m a b)
unfolding adjust_private apply_adjust
adjust_private-IsSound ev m a b s = grind int_laws

pub external_mint-IsSound :
    (ev : RelEvent) (m : Market) {n : Market} → IsSound m → external_mint ev m ≡ ok n → IsSound n
unfolding external_mint apply_mint
external_mint-IsSound ev m s h = grind int_laws

pub external_burn-IsSound :
    (ev : RelEvent) (m : Market) {n : Market} → IsSound m → external_burn ev m ≡ ok n → IsSound n
unfolding external_burn
external_burn-IsSound ev m s h =
    let a = or_zero ev.amount0 in
    let b = or_zero ev.amount1 in
    elim (Result-cases (apply_burn m.ref a b)) [
      | inl (r, e) ↦
          let ref_funded = liquidity-IsFunded m.ref a b s.reference_funded (inr (inl e)) in
          burn_private-IsSound ev (record m { ref = r }) a b
            (record { private_funded = s.private_funded; reference_funded = ref_funded })
            (rw (e, external_burn) at h)
      | inr (fidelity_limit, e) ↦
          burn_private-IsSound ev (flag m ev reference_burn_overdraw) a b
            (record { private_funded = s.private_funded; reference_funded = s.reference_funded })
            (rw (e, external_burn) at h)
      | inr (_, e) ↦ absurd (ground arith)
    ]

pub external_adjust-IsSound :
    (ev : RelEvent) (m : Market) → IsSound m → IsSound (external_adjust ev m)
unfolding external_adjust
external_adjust-IsSound ev m s =
    let a = or_zero ev.amount0 in
    let b = or_zero ev.amount1 in
    elim (Result-cases (apply_adjust m.ref a b)) [
      | inl (r, e) ↦
          let ref_funded = liquidity-IsFunded m.ref a b s.reference_funded (inr (inr e)) in
          rw (e, external_adjust)
            (adjust_private-IsSound ev (record m { ref = r }) a b
              (record { private_funded = s.private_funded; reference_funded = ref_funded }))
      | inr (_, e) ↦
          rw (e, external_adjust)
            (adjust_private-IsSound ev (flag m ev reference_adjust_overdraw) a b
              (record { private_funded = s.private_funded; reference_funded = s.reference_funded }))
    ]

follow_sync-IsSound :
    (c : DeltaClass) (ev : RelEvent) (d0 d1 : ℤ) (m : Market)
    → IsSound m
    → IsSound (follow_sync c ev d0 d1 m)
unfolding follow_sync
follow_sync-IsSound match ev d0 d1 m s = s
follow_sync-IsSound explained ev d0 d1 m s =
    adjust_private-IsSound ev (record m { explained_count = m.explained_count + 1 }) (neg d0)
      (neg d1) (record { private_funded = s.private_funded; reference_funded = s.reference_funded })
follow_sync-IsSound material ev d0 d1 m s =
    adjust_private-IsSound ev _ (neg d0) (neg d1)
      (record { private_funded = s.private_funded; reference_funded = s.reference_funded })

sync_to-IsSound :
    (ev : RelEvent) (m : Market) (r0 r1 : ℤ)
    → pos 0 ≤ℤ r0
    → pos 0 ≤ℤ r1
    → IsSound m
    → IsSound (sync_to ev m r0 r1)
unfolding sync_to anchor_to_sync
sync_to-IsSound ev m r0 r1 h0 h1 s =
    follow_sync-IsSound _ ev _ _ (record m { ref = record m.ref { reserve0 = r0; reserve1 = r1 } })
      (record {
        private_funded = s.private_funded;
        reference_funded = record { funded0 = h0; funded1 = h1 };
      })

pub external_sync-IsSound :
    (ev : RelEvent) (m : Market) → IsRecorded ev → IsSound m → IsSound (external_sync ev m)
unfolding external_sync
external_sync-IsSound ev m r s = grind (arith, sync_to-IsSound)
