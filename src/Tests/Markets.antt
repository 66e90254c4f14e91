-- ===== src/Tests/Markets.antt =====
-- The events of engine/simulation.py on concrete markets.
use memeval.Prelude.{ℕ, ◌≡◌, ◌⊎◌, refl, String, some, none, [], ◌∷◌, ok, err, Result, string_eq}
use memeval.Prelude.Int.{ℤ, pos, neg}
use memeval.Prelude.Dict.{get}
use memeval.Engine.Tape.{RelEvent, cl_swap}
use memeval.Engine.External.{reference_swap_invalid}
use memeval.Venues.Clmm.Pool.Recorded.{RecordedSwap}
use memeval.Engine.Venue.Mixed.{cl}
use memeval.Engine.Markets.{Markets, add_flag}
use memeval.Engine.Markets.Swaps.{apply_cl_swap}
use memeval.Engine.Markets.Anchored.{AtRecord, apply_cl_swap-AtRecord}
use memeval.Tests.Clmm.{minted}
use memeval.Tests.Scheduler.{sale}

abbrev opened : Markets
opened = record {
  pools = ("p", cl minted) ∷ [];
  ref_pools = ("p", cl minted) ∷ [];
  pool_meta = [];
  availability_delay_ms = pos 50;
  fidelity_failed = [];
  state_version = 0;
  trade_seq = 0;
  obs = [];
  fidelity_flags = [];
  explained_count = 0;
  material_count = 0;
  reconciliation_mismatches = [];
  external_zero_output_swaps = 0;
  restriction_events = [];
}

abbrev recorded : RecordedSwap
recorded = record {
  amount0 = pos 2;
  amount1 = neg (pos 1);
  sqrt_after = pos 78443648539502968004850200744;
  liquidity_after = pos 999;
  tick_after = neg (pos 199);
}

abbrev row : RelEvent
row = record sale {
  kind = cl_swap;
  amount0 = some recorded.amount0;
  amount1 = some recorded.amount1;
  sqrt_price_x96_after = some recorded.sqrt_after;
  liquidity_after = some recorded.liquidity_after;
  tick_after = some recorded.tick_after;
}

abbrev swapped : Markets
swapped = elim (apply_cl_swap opened row) [ ok m ↦ m | err _ ↦ opened ]

swap_ran : apply_cl_swap opened row ≡ ok swapped
unfolding apply_cl_swap neg memeval.Venues.Clmm.Pool.Recorded.apply_recorded_swap
    memeval.Venues.Clmm.Pool.Swap.swap memeval.Venues.Clmm.TickMath.get_sqrt_ratio_at_tick
    memeval.Prelude.Int.◌*ℤ◌ memeval.Prelude.Int.floor_div memeval.Prelude.Int.◌-ℤ◌
    memeval.Venues.Clmm.SwapMath.compute_swap_step memeval.Venues.Clmm.SwapMath.step_exact_in
    memeval.Venues.Clmm.FullMath.mul_div memeval.Venues.Clmm.SqrtPriceMath.get_amount0_delta
    memeval.Venues.Clmm.SqrtPriceMath.delta0 memeval.Venues.Clmm.FullMath.mul_div_rounding_up
    memeval.Venues.Clmm.FullMath.div_rounding_up memeval.Venues.Clmm.SqrtPriceMath.get_amount1_delta
    memeval.Venues.Clmm.SqrtPriceMath.delta1 memeval.Prelude.Int.◌+ℤ◌ get
    memeval.Venues.Clmm.TickMath.get_tick_at_sqrt_ratio memeval.Venues.Clmm.LiquidityMath.add_delta
    memeval.Venues.Clmm.TickMath.tick_candidates
    memeval.Venues.Clmm.SqrtPriceMath.get_next_sqrt_price_from_input
    memeval.Venues.Clmm.SqrtPriceMath.get_next_sqrt_price_from_amount0_rounding_up
    memeval.Venues.Clmm.SwapMath.step_exact_out
    memeval.Venues.Clmm.SqrtPriceMath.get_next_sqrt_price_from_output
    memeval.Venues.Clmm.SqrtPriceMath.get_next_sqrt_price_from_amount1_rounding_down
    memeval.Venues.Clmm.Pool.Trade.anchor_to_recorded memeval.Venues.Clmm.Pool.Trade.apply_intent
    memeval.Engine.Simulation.Routes.has_failed memeval.Engine.Venue.Mixed.other_of
    memeval.Engine.Venue.Mixed.pool_state_after memeval.Venues.Clmm.Pool.virtual_reserves
    memeval.Venues.Clmm.Pool.other memeval.Observations.Store.append memeval.Prelude.Dict.put
    memeval.Venues.Clmm.Pool.Trade.trial_swap memeval.Venues.Clmm.Pool.copy
swap_ran = refl

apply_cl_swap-AtRecord_example :
    AtRecord recorded (get swapped.ref_pools "p")
    ⊎ (swapped ≡ add_flag opened row reference_swap_invalid)
unfolding get
apply_cl_swap-AtRecord_example =
    apply_cl_swap-AtRecord opened row minted minted recorded refl refl refl swap_ran
