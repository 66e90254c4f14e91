-- ===== src/Engine/Markets/Anchored.antt =====
-- engine/simulation.py, _apply_cl_swap: where a recorded swap leaves the reference.
use mathlib.Core.Path.{subst}
use memeval.Prelude.{
  ◌+◌, ◌≡◌, refl, sym, ◌∙◌, ◌⊎◌, inl, inr, String, Bool-cases, Option-cases, Result-cases, true,
  none, some, Option, Result, ok, err, map_err, map_err-ok, >>=-eq-ok, ok-injective, arith,
  string_eq, ◌||◌, ◌&&◌, if◌then◌else◌,
}
use memeval.Prelude.Int.{ℤ, pos, neg, ltb_ℤ, eqb_ℤ, eqb_ℤ_iff, ◌-ℤ◌, int_laws, parts_eq}
use memeval.Prelude.Dict.{get, get-put_self}
use memeval.Engine.Tape.{RelEvent}
use memeval.Engine.External.{reference_swap_invalid}
use memeval.Venues.Clmm.FullMath.{Checked}
use memeval.Venues.Clmm.Pool.{ClPoolState}
use memeval.Venues.Clmm.Pool.Recorded.{
  Mode, exact_in, exact_out, anchored_degenerate, RecordedSwap, Replay, apply_recorded_swap,
}
use memeval.Venues.Clmm.Pool.Reports.{IsOff, Reports, apply_recorded_swap-Reports, anchor-Anchors}
use memeval.Venues.Clmm.Pool.Trade.{anchor_to_recorded, apply_state_delta, apply_intent}
use memeval.Engine.Venue.Clmm.{all_rounds}
use memeval.Engine.Venue.Mixed.{PoolState, cl, other_of}
use memeval.Engine.Simulation.Routes.{has_failed}
use memeval.Engine.Markets.{
  Markets, EventError, of_cl, of_venue, add_flag, set_ref, set_pool, cl_of,
}
use memeval.Engine.Markets.Liquidity.{record_pool_trade}
use memeval.Engine.Markets.Swaps.{
  observe_swap, specified_of, after_intent, swap_private_cl, correct_private, reconcile, differs,
  follow_replay, recorded_of, after_replay, replay_swap, apply_cl_swap,
}

-- The pool that is found is at the recorded price, liquidity and tick.
pub record AtRecord (e : RecordedSwap) (found : Option PoolState) : Type 0 where
  pub state : ClPoolState
  pub stored : found ≡ some (cl state)
  pub price : pos state.sqrt_price_x96 ≡ e.sqrt_after
  pub liquidity : pos state.liquidity ≡ e.liquidity_after
  pub tick : state.tick ≡ e.tick_after

record_pool_trade-ref_pools :
    (m : Markets) (ev : RelEvent) (p : PoolState) (asset_in : String) (amount_in out : ℤ)
    {m' : Markets}
    → record_pool_trade m ev p asset_in amount_in out ≡ ok m'
    → m'.ref_pools ≡ m.ref_pools
unfolding record_pool_trade
record_pool_trade-ref_pools m ev p asset_in amount_in out h =
    let named : Result EventError String = map_err of_venue (other_of p asset_in) in
    let (asset_out, _, same) = >>=-eq-ok named _ h in
    subst (λ (x : Markets). x.ref_pools ≡ m.ref_pools) (ok-injective same) refl

observe_swap-ref_pools :
    (m : Markets) (ev : RelEvent) (p : ClPoolState) (asset_in : String) (amount_in out : ℤ)
    {m' : Markets}
    → observe_swap m ev p asset_in amount_in out ≡ ok m'
    → m'.ref_pools ≡ m.ref_pools
unfolding observe_swap
observe_swap-ref_pools m ev p asset_in amount_in out h = elim (Bool-cases (eqb_ℤ out (pos 0))) [
  | inl nothing ↦
      subst (λ (x : Markets). x.ref_pools ≡ m.ref_pools) (ok-injective (rw nothing at h)) refl
  | inr paid ↦ elim (Option-cases ev.available_ms) [
    | inl hidden ↦
        subst (λ (x : Markets). x.ref_pools ≡ m.ref_pools) (ok-injective (rw (paid, hidden) at h))
          refl
    | inr (t, published) ↦
        record_pool_trade-ref_pools m ev (cl p) asset_in amount_in out (rw (paid, published) at h)
  ]
]

after_intent-ref_pools :
    (m : Markets) (ev : RelEvent) (asset_in : String) (r : Checked (Option (ClPoolState × (ℤ × ℤ))))
    {m' : Markets}
    → after_intent m ev asset_in r ≡ ok m'
    → m'.ref_pools ≡ m.ref_pools
unfolding after_intent
after_intent-ref_pools m ev asset_in (err _) h =
    subst (λ (x : Markets). x.ref_pools ≡ m.ref_pools) (ok-injective h) refl
after_intent-ref_pools m ev asset_in (ok none) h = ground arith
after_intent-ref_pools m ev asset_in (ok (some (q, (i, o)))) h =
    observe_swap-ref_pools (set_pool m ev.pool (cl q)) ev q asset_in i o h

swap_private_cl-ref_pools :
    (m : Markets) (ev : RelEvent) (p : ClPoolState) (e : RecordedSwap) (mode : Mode) {m' : Markets}
    → swap_private_cl m ev p e mode ≡ ok m'
    → m'.ref_pools ≡ m.ref_pools
unfolding swap_private_cl
swap_private_cl-ref_pools m ev p e mode h =
    let zero_for_one = ltb_ℤ (pos 0) e.amount0 in
    let amount_in = if zero_for_one then e.amount0 else e.amount1 in
    let amount_out = neg (if zero_for_one then e.amount1 else e.amount0) in
    let asset_in = if zero_for_one then p.asset0 else p.asset1 in
    let result =
      apply_intent all_rounds p zero_for_one (specified_of mode amount_in amount_out) ev.fee_pips
        (eqb_ℤ amount_out (pos 0)) in
    elim (Bool-cases (has_failed m.fidelity_failed ev.pool)) [
      | inl failed ↦
          subst (λ (x : Markets). x.ref_pools ≡ m.ref_pools) (ok-injective (rw failed at h)) refl
      | inr running ↦ after_intent-ref_pools m ev asset_in result (rw running at h)
    ]

correct_private-ref_pools :
    (m : Markets) (ev : RelEvent) (p : ClPoolState) (d : Replay)
    → (correct_private m ev p d).ref_pools ≡ m.ref_pools
unfolding correct_private
correct_private-ref_pools m ev p d =
    elim (Bool-cases (
      has_failed m.fidelity_failed ev.pool
      || eqb_ℤ d.sqrt_price_x96 (pos 0) && eqb_ℤ d.liquidity (pos 0))) [
        | inl kept ↦ rw kept refl
        | inr moved ↦
            elim (Result-cases (apply_state_delta p (neg d.sqrt_price_x96) (neg d.liquidity))) [
              | inl (q, e) ↦ rw (moved, e) refl
              | inr (bad, e) ↦ rw (moved, e) refl
            ]
      ]

at_ref :
    (m : Markets) (key : String) (e : RecordedSwap) (q : ClPoolState)
    → pos q.sqrt_price_x96 ≡ e.sqrt_after
    → pos q.liquidity ≡ e.liquidity_after
    → q.tick ≡ e.tick_after
    → AtRecord e (get (set_ref m key (cl q)).ref_pools key)
at_ref m key e q price liquidity tick = record {
  state = q;
  stored = get-put_self m.ref_pools key (cl q);
  price = price;
  liquidity = liquidity;
  tick = tick;
}

no_difference : (d x y : ℤ) → d ≡ x -ℤ y → eqb_ℤ d (pos 0) ≡ true → x ≡ y
no_difference d x y h zero =
    let none_left : d ≡ pos 0 = (eqb_ℤ_iff d (pos 0)).0 zero in
    omega (int_laws, parts_eq (sym h ∙ none_left))

reconcile-AtRecord :
    (m : Markets) (ev : RelEvent) (e : RecordedSwap) (q : ClPoolState) (d : Replay) {m' : Markets}
    → IsOff q e d
    → reconcile m ev e q d ≡ ok m'
    → AtRecord e (get m'.ref_pools ev.pool)
unfolding reconcile
reconcile-AtRecord m ev e q d {m'} (price, liquidity, tick) h = elim (Bool-cases (differs d)) [
  | inr same ↦
      subst (λ (x : Markets). AtRecord e (get x.ref_pools ev.pool)) (ok-injective (rw same at h))
        (at_ref m ev.pool e q (no_difference d.sqrt_price_x96 _ _ price (ground arith))
          (no_difference d.liquidity _ _ liquidity (ground arith))
          (no_difference d.tick _ _ tick (ground arith)))
  | inl off ↦
      let anchor : Result EventError (ClPoolState × (ℤ × (ℤ × ℤ))) =
        map_err of_cl (anchor_to_recorded q e.sqrt_after e.liquidity_after e.tick_after) in
      let ((r, ds), ran, same) = >>=-eq-ok anchor _ (rw off at h) in
      let at = anchor-Anchors q e (
        map_err-ok {F = EventError} of_cl
          (anchor_to_recorded q e.sqrt_after e.liquidity_after e.tick_after) ran) in
      subst (λ (x : Markets). AtRecord e (get x.ref_pools ev.pool)) (ok-injective same)
        (at_ref m ev.pool e r at.price at.liquidity at.tick)
]

follow_replay-AtRecord :
    (mode : Mode) (m : Markets) (ev : RelEvent) (p ref : ClPoolState) (e : RecordedSwap)
    (q : ClPoolState) (d : Replay) {m' : Markets}
    → Reports all_rounds ev.fee_pips mode ref q e d
    → follow_replay mode m ev p e q d ≡ ok m'
    → AtRecord e (get m'.ref_pools ev.pool)
unfolding follow_replay
follow_replay-AtRecord anchored_degenerate m ev p ref e q d at h =
    let m1 = record (set_ref m ev.pool (cl q)) { explained_count = m.explained_count + 1 } in
    subst (λ (x : Markets). AtRecord e (get x.ref_pools ev.pool)) (ok-injective h)
      (rw (correct_private-ref_pools m1 ev p d)
        (at_ref m ev.pool e q at.1.price at.1.liquidity at.1.tick))
follow_replay-AtRecord exact_in m ev p ref e q d at h =
    let (m1, done, private) = >>=-eq-ok (reconcile m ev e q d) _ h in
    rw (swap_private_cl-ref_pools m1 ev p e exact_in private)
      (reconcile-AtRecord m ev e q d at.1.off done)
follow_replay-AtRecord exact_out m ev p ref e q d at h =
    let (m1, done, private) = >>=-eq-ok (reconcile m ev e q d) _ h in
    rw (swap_private_cl-ref_pools m1 ev p e exact_out private)
      (reconcile-AtRecord m ev e q d at.1.off done)

replay_swap-congr :
    (m : Markets) (ev : RelEvent) {a b : Option ClPoolState} {c : Option RecordedSwap}
    {a' b' : Option ClPoolState} {c' : Option RecordedSwap}
    → a ≡ a'
    → b ≡ b'
    → c ≡ c'
    → replay_swap m ev a b c ≡ replay_swap m ev a' b' c'
replay_swap-congr m ev ea eb ec = λ i. replay_swap m ev (ea i) (eb i) (ec i)

after_replay-AtRecord :
    (m : Markets) (ev : RelEvent) (ref p : ClPoolState) (e : RecordedSwap)
    (r : Checked (Option (ClPoolState × Replay))) {m' : Markets}
    → apply_recorded_swap all_rounds ref e ev.fee_pips ≡ r
    → after_replay m ev p e r ≡ ok m'
    → AtRecord e (get m'.ref_pools ev.pool) ⊎ (m' ≡ add_flag m ev reference_swap_invalid)
unfolding after_replay
after_replay-AtRecord m ev ref p e (err bad) ran h = inr (sym (ok-injective h))
after_replay-AtRecord m ev ref p e (ok none) ran h = ground arith
after_replay-AtRecord m ev ref p e (ok (some (q, d))) ran h = inl (
    follow_replay-AtRecord d.mode m ev p ref e q d
      (apply_recorded_swap-Reports all_rounds ref e ev.fee_pips ran) h)

-- A recorded swap of a concentrated-liquidity pool that has both states and is handled leaves the
-- reference at the recorded price, liquidity and tick, whatever its replay came to and whatever became of
-- the private state, or it is flagged as invalid, and nothing else is changed.
pub apply_cl_swap-AtRecord :
    (m : Markets) (ev : RelEvent) (ref p : ClPoolState) (e : RecordedSwap) {m' : Markets}
    → cl_of (get m.ref_pools ev.pool) ≡ some ref
    → cl_of (get m.pools ev.pool) ≡ some p
    → recorded_of ev ≡ some e
    → apply_cl_swap m ev ≡ ok m'
    → AtRecord e (get m'.ref_pools ev.pool) ⊎ (m' ≡ add_flag m ev reference_swap_invalid)
unfolding apply_cl_swap replay_swap
apply_cl_swap-AtRecord m ev ref p e {m'} here private recorded h =
    let ran : replay_swap m ev (some ref) (some p) (some e) ≡ ok m' =
      sym (replay_swap-congr m ev here private recorded) ∙ h in
    after_replay-AtRecord m ev ref p e (apply_recorded_swap all_rounds ref e ev.fee_pips) refl ran
