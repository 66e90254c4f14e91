-- ===== src/Engine/External/Reserves.antt =====
-- engine/simulation.py, `_apply_external`: what the reserves of the two states keep.
use memeval.Prelude.{
  ◌≡◌, String, Bool, true, false, Option, none, some, Result, ok, arith, Bool-cases, Option-cases,
  Result-cases, inl, inr, str_eq,
}
use memeval.Prelude.Int.{ℤ, pos, ◌≤ℤ◌}
use memeval.Venues.Cpmm.Math.Bounds.{get_amount_out-lt-reserve}
use memeval.Venues.Cpmm.Pool.{CpmmPoolState, Ratio, max_out, apply_swap}
use memeval.Venues.Cpmm.Pool.Reserves.{IsShare, apply_swap-product, max_out-side}
use memeval.Engine.Tape.{
  Kind, RelEvent, swap, mint, burn, adjust, sync, cl_init, cl_modify, cl_swap, halt, unhalt,
  restriction, discovery,
}
use memeval.Engine.External.{
  Market, SimError, external_swap, apply_external, record_trade, swap_private, bump, clamped,
  ratio_of, swap_reference, apply_kind, set_halted, exceeds, external_restriction,
}
use memeval.Engine.External.Funds.{
  IsSound, NonNegative, IsRecorded, IsLive-IsFunded, max_out-covers, external_mint-IsSound,
  external_burn-IsSound, external_adjust-IsSound, external_sync-IsSound,
}

record_trade-IsSound :
    (delay : ℤ) (ev : RelEvent) (m : Market) (asset : String) (amount out : ℤ) {n : Market}
    → IsSound m
    → record_trade delay ev m asset amount out ≡ ok n
    → IsSound n
unfolding record_trade
record_trade-IsSound delay ev m asset amount out s h = grind arith

swap_private-IsSound :
    (delay : ℤ) (ev : RelEvent) (m : Market) (asset : String) (amount : ℤ) (r : Option Ratio)
    {n : Market}
    → IsShare r
    → IsSound m
    → swap_private delay ev m asset amount r ≡ ok n
    → IsSound n
unfolding swap_private
swap_private-IsSound delay ev m asset amount r share s h = elim (Bool-cases m.failed) [
  | inl failed ↦ ground arith
  | inr fine ↦ elim (Result-cases (apply_swap m.pool asset amount r)) [
    | inr (e, bad) ↦ let done = rw (fine, bad) at h in ground arith
    | inl ((q, out), e) ↦
        let live = IsLive-IsFunded q (apply_swap-product m.pool asset amount r share e).0 in
        let next : Market = bump (record m { pool = q }) in
        let sound : IsSound next = record {
          private_funded = live;
          reference_funded = s.reference_funded;
        } in
        elim (Option-cases ev.available_ms) [
          | inl hidden ↦ let done = rw (fine, e, hidden) at h in ground arith
          | inr (t, shown) ↦
              record_trade-IsSound delay ev next asset amount out sound (rw (fine, e, shown) at h)
        ]
  ]
]

ratio_of-IsShare :
    (recorded : Option ℤ) (ref_max : ℤ)
    → NonNegative recorded
    → pos 0 ≤ℤ ref_max
    → IsShare (ratio_of (clamped recorded ref_max) ref_max)
ratio_of-IsShare none best h p = ground arith
ratio_of-IsShare (some r) best h p = ground arith

clamped-le : (recorded : Option ℤ) (best : ℤ) → clamped recorded best ≤ℤ best
clamped-le none best = omega arith
clamped-le (some r) best = ground arith

swap_reference-IsSound :
    (ev : RelEvent) (m : Market) (asset : String) (amount best : ℤ)
    → max_out m.ref asset amount ≡ ok best
    → IsSound m
    → IsSound (swap_reference ev m asset amount best)
swap_reference-IsSound ev m asset amount best h s =
    let covers =
      max_out-covers m.ref asset amount best (clamped ev.amount_out_recorded best) h
        (clamped-le ev.amount_out_recorded best) s.reference_funded in
    elim (Bool-cases (exceeds ev.amount_out_recorded best)) [
      | inl over ↦ record { private_funded = rw over s.private_funded; reference_funded = covers }
      | inr within ↦ record {
        private_funded = rw within s.private_funded;
        reference_funded = covers;
      }
    ]

max_out-nonneg :
    (p : CpmmPoolState) (asset : String) (amount best : ℤ)
    → max_out p asset amount ≡ ok best
    → pos 0 ≤ℤ best
max_out-nonneg p asset amount best h =
    let which = max_out-side p asset amount best h in
    elim (Bool-cases (str_eq asset p.asset0)) [
      | inl same ↦ let side = rw same at which in (get_amount_out-lt-reserve _ _ _ _ _ side).0
      | inr other ↦ let side = rw other at which in (get_amount_out-lt-reserve _ _ _ _ _ side).0
    ]

external_swap-IsSound :
    (delay : ℤ) (ev : RelEvent) (m : Market) {n : Market}
    → NonNegative ev.amount_out_recorded
    → IsSound m
    → external_swap delay ev m ≡ ok n
    → IsSound n
unfolding external_swap
external_swap-IsSound delay ev m r s h = elim (Option-cases ev.asset_in) [
  | inl a ↦ let done = rw (a, external_swap) at h in ground arith
  | inr (asset, a) ↦ elim (Option-cases ev.amount_in) [
    | inl x ↦ let done = rw (a, x, external_swap) at h in ground arith
    | inr (amount, x) ↦ elim (Result-cases (max_out m.ref asset amount)) [
      | inr (e, bad) ↦ let done = rw (a, x, bad, external_swap) at h in ground arith
      | inl (best, e) ↦
          swap_private-IsSound delay ev (swap_reference ev m asset amount best) asset amount
            (ratio_of (clamped ev.amount_out_recorded best) best)
            (ratio_of-IsShare ev.amount_out_recorded best r
              (max_out-nonneg m.ref asset amount best e))
            (swap_reference-IsSound ev m asset amount best e s) (rw (a, x, e, external_swap) at h)
    ]
  ]
]

external_restriction-IsSound :
    (ev : RelEvent) (m : Market) → IsSound m → IsSound (external_restriction ev m)
unfolding external_restriction
external_restriction-IsSound ev m s = elim (Option-cases ev.payload_asset) [
  | inl e ↦ rw e s
  | inr (asset, e) ↦ elim (Bool-cases (str_eq asset "")) [
    | inl empty ↦ rw (e, empty) s
    | inr full ↦
        rw (e, full)
          (record {
            private_funded = record {
              funded0 = s.private_funded.funded0;
              funded1 = s.private_funded.funded1;
            };
            reference_funded = record {
              funded0 = s.reference_funded.funded0;
              funded1 = s.reference_funded.funded1;
            };
          })
  ]
]

set_halted-IsSound : (h : Bool) (m : Market) → IsSound m → IsSound (set_halted h m)
set_halted-IsSound h m s = record {
  private_funded = record {
    funded0 = s.private_funded.funded0;
    funded1 = s.private_funded.funded1;
  };
  reference_funded = record {
    funded0 = s.reference_funded.funded0;
    funded1 = s.reference_funded.funded1;
  };
}

returned :
    {m n : Market} → IsSound m → let r : Result SimError Market = ok m in r ≡ ok n → IsSound n
returned {m} {n} s h = let same : m ≡ n = ground arith in rw (← same) s

apply_kind-IsSound :
    (k : Kind) (delay : ℤ) (ev : RelEvent) (m : Market) {n : Market}
    → IsRecorded ev
    → IsSound m
    → apply_kind k delay ev m ≡ ok n
    → IsSound n
unfolding apply_kind
apply_kind-IsSound swap delay ev m r s h = external_swap-IsSound delay ev m r.recorded_out s h
apply_kind-IsSound mint delay ev m r s h = external_mint-IsSound ev m s h
apply_kind-IsSound burn delay ev m r s h = external_burn-IsSound ev m s h
apply_kind-IsSound adjust delay ev m r s h = returned (external_adjust-IsSound ev m s) h
apply_kind-IsSound sync delay ev m r s h = returned (external_sync-IsSound ev m r s) h
apply_kind-IsSound halt delay ev m r s h = returned (set_halted-IsSound true m s) h
apply_kind-IsSound unhalt delay ev m r s h = returned (set_halted-IsSound false m s) h
apply_kind-IsSound restriction delay ev m r s h = returned (external_restriction-IsSound ev m s) h
apply_kind-IsSound cl_init delay ev m r s h = returned s h
apply_kind-IsSound cl_modify delay ev m r s h = returned s h
apply_kind-IsSound cl_swap delay ev m r s h = returned s h
apply_kind-IsSound discovery delay ev m r s h = returned s h

-- Every recorded event that is applied keeps the reserves of the market's two states non-negative,
-- where the recorded output and reserves are.
pub apply_external-IsSound :
    (delay : ℤ) (ev : RelEvent) (m : Market) {n : Market}
    → IsRecorded ev
    → IsSound m
    → apply_external delay ev m ≡ ok n
    → IsSound n
unfolding apply_external
apply_external-IsSound delay ev m r s h = apply_kind-IsSound ev.kind delay ev m r s h
