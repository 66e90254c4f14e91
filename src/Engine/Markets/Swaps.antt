-- ===== src/Engine/Markets/Swaps.antt =====
-- engine/simulation.py: _apply_cl_swap, the recorded swaps of a concentrated-liquidity pool.
use memeval.Prelude.{
  ◌+◌, String, Bool, not, ◌&&◌, ◌||◌, Option, none, some, [], ◌∷◌, ◌++◌, Result, ok, err, map_err,
  ◌>>=◌, if◌then◌else◌, string_eq,
}
use memeval.Prelude.Int.{ℤ, pos, neg, ltb_ℤ, eqb_ℤ}
use memeval.Prelude.Dict.{get}
use memeval.Venues.Clmm.FullMath.{Checked}
use memeval.Venues.Clmm.Pool.{ClPoolState}
use memeval.Venues.Clmm.Pool.Recorded.{
  Mode, exact_out, anchored_degenerate, RecordedSwap, Replay, apply_recorded_swap,
}
use memeval.Venues.Clmm.Pool.Trade.{anchor_to_recorded, apply_state_delta, apply_intent}
use memeval.Engine.Tape.{RelEvent}
use memeval.Engine.External.{reference_swap_invalid, external_swap_failed}
use memeval.Engine.Venue.Clmm.{all_rounds}
use memeval.Engine.Venue.Mixed.{cl}
use memeval.Engine.Simulation.Routes.{has_failed}
use memeval.Engine.Scheduler.{ClMismatch, of_swap}
use memeval.Engine.Markets.{
  Markets, EventError, of_cl, swap_unfinished, add_flag, set_pool, set_ref, fail_pool, cl_of,
}
use memeval.Engine.Markets.Liquidity.{record_pool_trade, all_three}

-- the recorded swap of the event, if it has all its fields
abbrev pub recorded_of : RelEvent → Option RecordedSwap
recorded_of ev = elim (all_three ev.amount0 ev.amount1 ev.sqrt_price_x96_after) [
  | none ↦ none
  | some (a0, (a1, sqrt)) ↦ elim ev.liquidity_after [
    | none ↦ none
    | some liquidity ↦ elim ev.tick_after [
      | none ↦ none
      | some tick ↦ some (record {
        amount0 = a0;
        amount1 = a1;
        sqrt_after = sqrt;
        liquidity_after = liquidity;
        tick_after = tick;
      })
    ]
  ]
]

-- the private state takes the correction of a swap that could not be replayed
unfoldable pub correct_private : Markets → RelEvent → ClPoolState → Replay → Markets
correct_private m ev p d =
    if has_failed m.fidelity_failed ev.pool
      || eqb_ℤ d.sqrt_price_x96 (pos 0) && eqb_ℤ d.liquidity (pos 0)
    then m
    else elim (apply_state_delta p (neg d.sqrt_price_x96) (neg d.liquidity)) [
      | ok q ↦ set_pool m ev.pool (cl q)
      | err _ ↦ fail_pool m ev
    ]

abbrev pub differs : Replay → Bool
differs d =
    not (eqb_ℤ d.sqrt_price_x96 (pos 0))
    || not (eqb_ℤ d.liquidity (pos 0))
    || not (eqb_ℤ d.tick (pos 0))

abbrev mismatch_of : RelEvent → Replay → ClMismatch
mismatch_of ev d = record {
  seq = ev.seq;
  pool = ev.pool;
  block = ev.block;
  delta_sqrt_price_x96 = d.sqrt_price_x96;
  delta_liquidity = d.liquidity;
  delta_tick = d.tick;
  delta_amount0 = d.amount0;
  delta_amount1 = d.amount1;
  mode = d.mode;
}

-- the reference after its replay: the chain is the truth
unfoldable pub reconcile :
    Markets → RelEvent → RecordedSwap → ClPoolState → Replay → Result EventError Markets
reconcile m ev e q d =
    if differs d
    then (map_err of_cl (anchor_to_recorded q e.sqrt_after e.liquidity_after e.tick_after)
        >>= λ (r, _). ok (record (set_ref m ev.pool (cl r)) {
          reconciliation_mismatches =
              m.reconciliation_mismatches ++ of_swap (mismatch_of ev d) ∷ [];
          material_count = m.material_count + 1;
        }))
    else ok (set_ref m ev.pool (cl q))

-- what follows the private swap: its trade, if it paid out and is published
unfoldable pub observe_swap :
    Markets → RelEvent → ClPoolState → String → ℤ → ℤ → Result EventError Markets
unfolding record_pool_trade
observe_swap m ev p asset_in amount_in out =
    if eqb_ℤ out (pos 0)
    then ok (record m { external_zero_output_swaps = m.external_zero_output_swaps + 1 })
    else elim ev.available_ms [
      | none ↦ ok m
      | some _ ↦ record_pool_trade m ev (cl p) asset_in amount_in out
    ]

abbrev pub specified_of : Mode → ℤ → ℤ → ℤ
specified_of exact_out amount_in amount_out = neg amount_out
specified_of _ amount_in amount_out = amount_in

-- what the private swap came to
unfoldable pub after_intent :
    Markets
    → RelEvent
    → String
    → Checked (Option (ClPoolState × (ℤ × ℤ)))
    → Result EventError Markets
unfolding observe_swap
after_intent m ev asset_in (err _) = ok (add_flag m ev external_swap_failed)
after_intent m ev asset_in (ok none) = err swap_unfinished
after_intent m ev asset_in (ok (some (q, (actual_in, actual_out)))) =
    observe_swap (set_pool m ev.pool (cl q)) ev q asset_in actual_in actual_out

-- the private half of a swap: the recorded intent on the private state
unfoldable pub swap_private_cl :
    Markets → RelEvent → ClPoolState → RecordedSwap → Mode → Result EventError Markets
unfolding after_intent
swap_private_cl m ev p e mode =
    let zero_for_one = ltb_ℤ (pos 0) e.amount0 in
    let amount_in = if zero_for_one then e.amount0 else e.amount1 in
    let amount_out = neg (if zero_for_one then e.amount1 else e.amount0) in
    let asset_in = if zero_for_one then p.asset0 else p.asset1 in
    if has_failed m.fidelity_failed ev.pool
    then ok m
    else after_intent m ev asset_in (
        apply_intent all_rounds p zero_for_one (specified_of mode amount_in amount_out) ev.fee_pips
          (eqb_ℤ amount_out (pos 0)))

unfoldable pub follow_replay :
    Mode
    → Markets
    → RelEvent
    → ClPoolState
    → RecordedSwap
    → ClPoolState
    → Replay
    → Result EventError Markets
unfolding correct_private reconcile swap_private_cl
follow_replay anchored_degenerate m ev p e q d = ok (
    correct_private (record (set_ref m ev.pool (cl q)) { explained_count = m.explained_count + 1 })
      ev p d)
follow_replay mode m ev p e q d = reconcile m ev e q d >>= λ m'. swap_private_cl m' ev p e mode

-- what the replay on the reference came to
unfoldable pub after_replay :
    Markets
    → RelEvent
    → ClPoolState
    → RecordedSwap
    → Checked (Option (ClPoolState × Replay))
    → Result EventError Markets
unfolding follow_replay
after_replay m ev p e (err _) = ok (add_flag m ev reference_swap_invalid)
after_replay m ev p e (ok none) = err swap_unfinished
after_replay m ev p e (ok (some (q, d))) = follow_replay d.mode m ev p e q d

-- the swap on the reference and the private state, if both are of this kind and the event is complete
unfoldable pub replay_swap :
    Markets
    → RelEvent
    → Option ClPoolState
    → Option ClPoolState
    → Option RecordedSwap
    → Result EventError Markets
unfolding after_replay
replay_swap m ev (some ref) (some p) (some e) =
    after_replay m ev p e (apply_recorded_swap all_rounds ref e ev.fee_pips)
replay_swap m ev _ _ _ = ok m

unfoldable pub apply_cl_swap : Markets → RelEvent → Result EventError Markets
unfolding replay_swap
apply_cl_swap m ev =
    replay_swap m ev (cl_of (get m.ref_pools ev.pool)) (cl_of (get m.pools ev.pool))
      (recorded_of ev)
