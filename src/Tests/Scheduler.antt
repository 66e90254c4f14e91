-- ===== src/Tests/Scheduler.antt =====
-- The time loop of engine/simulation.py on a concrete episode, with a swap on its tape.
use memeval.Prelude.{
  ℕ, suc, ◌≡◌, ◌≢◌, ◌⊎◌, refl, String, true, false, none, some, [], ◌∷◌, ok, err, Result, arith,
  nat_eq, string_eq,
}
use memeval.Prelude.Int.{ℤ, pos, ◌<ℤ◌, ◌≤ℤ◌, int_eq}
use memeval.Domain.Status.{fixture_cpmm}
use memeval.Engine.Blocks.{fixed}
use memeval.Engine.Tape.{RelEvent, swap}
use memeval.Venues.Cpmm.Pool.{CpmmPoolState}
use memeval.Engine.Venue.Mixed.{PoolState, VenueError, cpmm, pool_venue}
use memeval.Engine.Simulation.{Simulation, Params, PoolMeta}
use memeval.Engine.Simulation.Routes.{inf}
use memeval.Engine.Markets.{EventError}
use memeval.Engine.Markets.Events.{external_flow}
use memeval.Engine.Scheduler.{Episode, RunError, unfinished, next_event_time, min_ℤ, work_left}
use memeval.Engine.Scheduler.Loop.{process_until, finish, tail_end_ms, advance}
use memeval.Engine.Scheduler.Ends.{process_until_ends, process_until_done}
use memeval.Engine.Scheduler.Returns.{limit_of}
use memeval.Engine.Scheduler.Finish.{finish_ends, finish_done}
use memeval.Engine.Scheduler.Splits.{advance-advance}
use memeval.Engine.Scheduler.Follows.{Follows}
use memeval.Engine.Scheduler.Sound.{process_until-Follows, finish-Follows}
use memeval.Engine.Simulation.Lifecycle.{IsSound}
use memeval.Prelude.Dict.{get}
use memeval.Prelude.Dict.Sum.{sum_by}
use memeval.Broker.Ledger.{empty, balance}

abbrev pool : CpmmPoolState
pool = record {
  key = "p";
  asset0 = "weth";
  asset1 = "meme";
  reserve0 = pos 1000;
  reserve1 = pos 1000;
  fee_num = pos 997;
  fee_den = pos 1000;
  model = fixture_cpmm;
  halted = false;
  restrictions = [];
}

abbrev params : Params
params = record {
  quote_ttl_ms = pos 60;
  submit_latency_ms = pos 100;
  availability_delay_ms = pos 50;
  confirm_blocks = pos 1;
  max_input_bps_of_reserve = pos 2000;
  max_cumulative_displacement_bps = pos 5000;
}

abbrev meta : PoolMeta
meta = record {
  key = "p";
  asset0 = "weth";
  asset1 = "meme";
  supported_by_cpmm = true;
  supported_by_clmm = false;
  model = fixture_cpmm;
  fee_pips = none;
  tick_spacing = none;
  hooks = false;
}

abbrev started : Simulation PoolState
started = record {
  params = params;
  schedule =
      fixed (record { first = pos 1; origin_ms = pos 0; interval_ms = 1000; last = pos 100 });
  numeraire = "weth";
  gas_cost = 3;
  now_ms = pos 0;
  end_ms = pos 10000;
  finished = false;
  pools = ("p", cpmm pool) ∷ [];
  ref_pools = ("p", cpmm pool) ∷ [];
  pool_meta = ("p", meta) ∷ [];
  pool_discovery_ms = ("p", pos 0) ∷ [];
  cl_init_ms = [];
  fidelity_failed = [];
  state_version = 0;
  ledger = empty;
  orders = [];
  orders_by_key = [];
  order_seq = 0;
  quotes = [];
  quote_seq = 0;
  inclusions = [];
  confirmations = [];
  trade_seq = 0;
  obs = [];
  equity_points = [];
}

abbrev pub sale : RelEvent
sale = record {
  seq = pos 1;
  block = pos 3;
  log_index = pos 0;
  time_ms = pos 2000;
  kind = swap;
  pool = "p";
  tx = none;
  wallet = none;
  asset_in = some "weth";
  amount_in = some (pos 100);
  amount_out_recorded = none;
  amount0 = none;
  amount1 = none;
  reserve0 = none;
  reserve1 = none;
  payload = [];
  payload_asset = none;
  available_ms = some (pos 2100);
  availability_basis = "";
  sqrt_price_x96 = none;
  tick = none;
  tick_lower = none;
  tick_upper = none;
  liquidity_delta = none;
  sqrt_price_x96_after = none;
  liquidity_after = none;
  tick_after = none;
  fee_pips = none;
}

abbrev pub episode : Episode PoolState
episode = record {
  sim = started;
  tape = sale ∷ [];
  events_processed = 0;
  next_grid_ms = pos 4000;
  reporting_grid_ms = 4000;
  settlement_tail_blocks = pos 2;
  tail_processed = false;
  fidelity_flags = [];
  explained_count = 0;
  material_count = 0;
  reconciliation_mismatches = [];
  external_zero_output_swaps = 0;
  restriction_events = [];
}

abbrev returned : Result (RunError VenueError EventError) (Episode PoolState) → Episode PoolState
returned (ok w) = w
returned (err e) = episode

abbrev at_5000 : Episode PoolState
at_5000 = returned (process_until pool_venue external_flow episode (pos 5000))

process_until_ends_example :
    process_until pool_venue external_flow episode (pos 5000) ≢ err unfinished
process_until_ends_example =
    process_until_ends pool_venue external_flow episode (pos 5000) (omega arith) (omega arith)

ran_5000 : process_until pool_venue external_flow episode (pos 5000) ≡ ok at_5000
unfolding process_until memeval.Engine.Markets.Events.apply_recorded_event memeval.Prelude.Dict.get
    memeval.Engine.External.apply_external memeval.Venues.Cpmm.Pool.max_out
    memeval.Venues.Cpmm.Math.get_amount_out memeval.Engine.Simulation.Routes.has_failed
    memeval.Venues.Cpmm.Pool.apply_swap memeval.Venues.Cpmm.Pool.scaled
    memeval.Prelude.Int.floor_div memeval.Prelude.Int.◌*ℤ◌ memeval.Prelude.Int.◌+ℤ◌
    memeval.Venues.Cpmm.Pool.other memeval.Prelude.Dict.Sum.sum_by memeval.Prelude.Int.◌-ℤ◌
    memeval.Engine.Simulation.Valuation.equity_point
ran_5000 = refl

process_until_done_example :
    (nxt : ℤ) × (next_event_time at_5000 ≡ ok nxt)
    × (min_ℤ (pos 5000) (limit_of episode) <ℤ nxt)
    × (min_ℤ (pos 5000) (limit_of episode) ≤ℤ at_5000.sim.now_ms)
process_until_done_example =
    process_until_done pool_venue external_flow episode (pos 5000) (omega arith) (omega arith)
      ran_5000

started-IsSound : IsSound started
unfolding balance sum_by get
started-IsSound = record {
  backed = record {
    reserved = λ asset. refl;
    owed = λ asset. refl;
    available = λ asset. omega arith;
  };
  numbered = λ m below. refl;
}

process_until-Follows_example : Follows started at_5000.sim
process_until-Follows_example =
    process_until-Follows pool_venue external_flow episode (pos 5000) started-IsSound ran_5000

abbrev at_3000 : Episode PoolState
at_3000 = returned (advance pool_venue external_flow (suc (work_left episode)) episode (pos 3000))

ran_3000 :
    advance pool_venue external_flow (suc (work_left episode)) episode (pos 3000) ≡ ok at_3000
unfolding advance work_left memeval.Engine.Markets.Events.apply_recorded_event
    memeval.Prelude.Dict.get memeval.Engine.External.apply_external memeval.Venues.Cpmm.Pool.max_out
    memeval.Venues.Cpmm.Math.get_amount_out memeval.Engine.Simulation.Routes.has_failed
    memeval.Venues.Cpmm.Pool.apply_swap memeval.Venues.Cpmm.Pool.scaled
    memeval.Prelude.Int.floor_div memeval.Prelude.Int.◌*ℤ◌ memeval.Prelude.Int.◌+ℤ◌
    memeval.Venues.Cpmm.Pool.other memeval.Prelude.Dict.Sum.sum_by memeval.Prelude.Int.◌-ℤ◌
    memeval.Engine.Simulation.Valuation.equity_point
ran_3000 = refl

advance-advance_example :
    advance pool_venue external_flow (suc (work_left episode)) episode (pos 5000)
    ≡ advance pool_venue external_flow (suc (work_left at_3000)) at_3000 (pos 5000)
advance-advance_example =
    advance-advance pool_venue external_flow episode (pos 3000) (pos 5000) (omega arith)
      (omega arith) (omega arith) ran_3000

tail_at : tail_end_ms episode ≡ pos 12000
unfolding tail_end_ms memeval.Engine.Blocks.time_of memeval.Engine.Blocks.last_block
    memeval.Prelude.Int.◌+ℤ◌ memeval.Engine.Blocks.block_containing memeval.Prelude.Int.floor_div
    memeval.Prelude.Int.◌-ℤ◌ memeval.Prelude.Int.◌*ℤ◌
tail_at = refl

tail_in_time : tail_end_ms episode <ℤ inf
tail_in_time = rw tail_at (omega arith)

finish_ends_example : finish pool_venue external_flow episode ≢ err unfinished
finish_ends_example =
    finish_ends pool_venue external_flow episode (omega arith) (omega arith) tail_in_time

abbrev at_end : Episode PoolState
at_end = returned (finish pool_venue external_flow episode)

ran_to_end : finish pool_venue external_flow episode ≡ ok at_end
unfolding finish tail_end_ms memeval.Engine.Markets.Events.apply_recorded_event
    memeval.Prelude.Dict.get memeval.Engine.External.apply_external memeval.Venues.Cpmm.Pool.max_out
    memeval.Venues.Cpmm.Math.get_amount_out memeval.Engine.Simulation.Routes.has_failed
    memeval.Venues.Cpmm.Pool.apply_swap memeval.Venues.Cpmm.Pool.scaled
    memeval.Prelude.Int.floor_div memeval.Prelude.Int.◌*ℤ◌ memeval.Prelude.Int.◌+ℤ◌
    memeval.Venues.Cpmm.Pool.other memeval.Prelude.Dict.Sum.sum_by memeval.Prelude.Int.◌-ℤ◌
    memeval.Engine.Simulation.Valuation.equity_point memeval.Engine.Blocks.time_of
    memeval.Engine.Blocks.last_block memeval.Engine.Blocks.block_containing
ran_to_end = refl

finish_done_example :
    (at_end.sim.finished ≡ true)
    × (at_end.tail_processed ≡ true)
    × (nxt : ℤ) × (next_event_time at_end ≡ ok nxt)
    × ((tail_end_ms episode <ℤ nxt)
        ⊎ (at_end.sim.inclusions ≡ []) × (at_end.sim.confirmations ≡ []))
finish_done_example =
    finish_done pool_venue external_flow episode (omega arith) (omega arith) tail_in_time refl
      ran_to_end

finish-Follows_example : Follows started at_end.sim
finish-Follows_example = finish-Follows pool_venue external_flow episode started-IsSound ran_to_end
