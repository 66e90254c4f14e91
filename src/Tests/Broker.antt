-- ===== src/Tests/Broker.antt =====
-- The broker of engine/simulation.py on a concrete market.
use Prim.Native.String.{◌++◌ as text_append}
use memeval.Prelude.{
  ◌↔◌, true, false, ℕ, ◌≡◌, refl, String, true, false, none, some, [], ◌∷◌, ok, err, Result, arith,
  if◌then◌else◌, str_eq, Bool-cases, inl, inr, nat_eq, string_eq,
}
use memeval.Prelude.Int.{ℤ, pos, ◌+ℤ◌, int_laws, ◌≤ℤ◌, ◌<ℤ◌}
use memeval.Prelude.Dict.{get}
use memeval.Domain.Status.{OrderState, ErrorCode, fixture_cpmm}
use memeval.Broker.Ledger.{Ledger, empty, posted, bankroll, balance}
use memeval.Broker.Ledger.Accounts.{agent_available, source_bankroll}
use memeval.Broker.Orders.{Order}
use memeval.Broker.Orders.Settlement.{move}
use memeval.Engine.Blocks.{BlockSchedule, FixedIntervalSchedule, fixed}
use memeval.Engine.Venue.Cpmm.{cpmm_venue}
use memeval.Venues.Cpmm.Pool.{CpmmPoolState}
use memeval.Venues.Cpmm.Math.{CpmmMathError}
use memeval.Engine.Simulation.{Simulation, Params, PoolMeta, BrokerError, rejected}
use memeval.Engine.Simulation.Submission.{Payload, Request, payload_of, new_order, submit}
use memeval.Engine.Simulation.Inclusion.{
  filled_order, include, confirm_at, verdict, skip, expired, is_pending,
}
use memeval.Engine.Simulation.Lifecycle.{IsSound, Yields}
use memeval.Engine.Simulation.Lifecycle.Accepting.{submit-submit, submit-IsSound, submit_refused}
use memeval.Engine.Simulation.Lifecycle.Settling.{IsIncluded, include-Yields}
use memeval.Engine.Simulation.Lifecycle.Deciding.{IsFair, verdict-IsFair}
use memeval.Engine.Simulation.Lifecycle.Confirming.{Confirms, confirm_at-Confirms}
use memeval.Engine.Simulation.Lifecycle.Runs.{
  Steps, Run, start, next, submits, includes, run-IsSound, run-Steps,
}

abbrev pool : CpmmPoolState
pool = record {
  key = "p";
  asset0 = "weth";
  asset1 = "meme";
  reserve0 = pos 1000;
  reserve1 = pos 1000;
  fee_num = pos 997;
  fee_den = pos 1000;
  model = fixture_cpmm;
  halted = false;
  restrictions = [];
}

abbrev params : Params
params = record {
  quote_ttl_ms = pos 60;
  submit_latency_ms = pos 100;
  availability_delay_ms = pos 50;
  confirm_blocks = pos 1;
  max_input_bps_of_reserve = pos 2000;
  max_cumulative_displacement_bps = pos 5000;
}

abbrev meta : PoolMeta
meta = record {
  key = "p";
  asset0 = "weth";
  asset1 = "meme";
  supported_by_cpmm = true;
  supported_by_clmm = false;
  model = fixture_cpmm;
  fee_pips = none;
  tick_spacing = none;
  hooks = false;
}

abbrev opening : Ledger
opening = posted empty (pos 0) bankroll "init" (move source_bankroll agent_available "weth" 500) ""

abbrev opened : Simulation CpmmPoolState
opened = record {
  params = params;
  schedule =
      fixed (record { first = pos 1; origin_ms = pos 0; interval_ms = 1000; last = pos 100 });
  numeraire = "weth";
  gas_cost = 3;
  now_ms = pos 500;
  end_ms = pos 100000;
  finished = false;
  pools = ("p", pool) ∷ [];
  ref_pools = ("p", pool) ∷ [];
  pool_meta = ("p", meta) ∷ [];
  pool_discovery_ms = ("p", pos 0) ∷ [];
  cl_init_ms = [];
  fidelity_failed = [];
  state_version = 0;
  ledger = opening;
  orders = [];
  orders_by_key = [];
  order_seq = 0;
  quotes = [];
  quote_seq = 0;
  inclusions = [];
  confirmations = [];
  trade_seq = 0;
  obs = [];
  equity_points = [];
}

abbrev request : Request
request = record {
  pool_key = "p";
  asset_in = "weth";
  asset_out = "meme";
  amount_in = pos 100;
  min_amount_out = pos 80;
  deadline_ms = pos 5000;
  idempotency_key = "k";
  quote_id = none;
  intent = [];
}

abbrev hash : Payload → String
hash p = text_append p.pool (text_append p.asset_in p.asset_out)

abbrev submitted : Simulation CpmmPoolState
submitted = (submit cpmm_venue hash opened request).0

opened-IsSound : IsSound opened
unfolding memeval.Broker.Ledger.apply_legs balance memeval.Prelude.Dict.Sum.sum_by get
    memeval.Prelude.Dict.put ◌+ℤ◌
opened-IsSound = record {
  backed = record {
    reserved = λ asset. refl;
    owed = λ asset. refl;
    available = λ asset. ground arith;
  };
  numbered = λ m below. refl;
}

accepted : submit cpmm_venue hash opened request ≡ (submitted, ok (1, true))
unfolding submit get memeval.Venues.Cpmm.Pool.other memeval.Venues.Cpmm.Pool.transfer_blocked
    memeval.Venues.Cpmm.Pool.max_out memeval.Venues.Cpmm.Math.get_amount_out
    memeval.Venues.Cpmm.Pool.depth_for memeval.Prelude.Int.◌*ℤ◌
    memeval.Engine.Venue.Cpmm.depth_after memeval.Prelude.Int.◌-ℤ◌ memeval.Prelude.Int.◌+ℤ◌
    memeval.Prelude.Int.floor_div balance memeval.Broker.Ledger.apply_legs memeval.Prelude.Dict.put
    memeval.Engine.Blocks.block_at_or_after memeval.Engine.Blocks.time_of
    memeval.Broker.Ledger.Accounts.is_agent memeval.Broker.Ledger.first_short
    memeval.Broker.Ledger.first_unbalanced memeval.Broker.Ledger.post memeval.Prelude.Int.neg
accepted = refl

abbrev order : Order
order = new_order opened request (hash (payload_of request)) 1 (pos 2) (pos 1000)

stored : get submitted.orders 1 ≡ some order
unfolding submit get memeval.Venues.Cpmm.Pool.other memeval.Venues.Cpmm.Pool.transfer_blocked
    memeval.Venues.Cpmm.Pool.max_out memeval.Venues.Cpmm.Math.get_amount_out
    memeval.Venues.Cpmm.Pool.depth_for memeval.Prelude.Int.◌*ℤ◌
    memeval.Engine.Venue.Cpmm.depth_after memeval.Prelude.Int.◌-ℤ◌ memeval.Prelude.Int.◌+ℤ◌
    memeval.Prelude.Int.floor_div balance memeval.Broker.Ledger.apply_legs memeval.Prelude.Dict.put
    memeval.Engine.Blocks.block_at_or_after memeval.Engine.Blocks.time_of
    memeval.Broker.Ledger.Accounts.is_agent memeval.Broker.Ledger.first_short
    memeval.Broker.Ledger.first_unbalanced memeval.Broker.Ledger.post memeval.Prelude.Int.neg
stored = refl

abbrev included : Simulation CpmmPoolState
included = elim (include cpmm_venue submitted 1 order (pos 2) (pos 1000)) [
  | ok s ↦ s
  | err _ ↦ opened
]

ran : include cpmm_venue submitted 1 order (pos 2) (pos 1000) ≡ ok included
unfolding submit memeval.Engine.Simulation.Inclusion.include
    memeval.Engine.Simulation.Valuation.equity_point memeval.Venues.Cpmm.Pool.apply_swap
    memeval.Venues.Cpmm.Pool.scaled get memeval.Venues.Cpmm.Pool.other
    memeval.Venues.Cpmm.Pool.transfer_blocked memeval.Venues.Cpmm.Pool.max_out
    memeval.Venues.Cpmm.Math.get_amount_out memeval.Venues.Cpmm.Pool.depth_for
    memeval.Prelude.Int.◌*ℤ◌ memeval.Engine.Venue.Cpmm.depth_after memeval.Prelude.Int.◌-ℤ◌
    memeval.Prelude.Int.◌+ℤ◌ memeval.Prelude.Int.floor_div balance memeval.Broker.Ledger.apply_legs
    memeval.Prelude.Dict.put memeval.Engine.Blocks.block_at_or_after memeval.Engine.Blocks.time_of
    memeval.Broker.Ledger.Accounts.is_agent memeval.Broker.Ledger.first_short
    memeval.Broker.Ledger.first_unbalanced memeval.Broker.Ledger.post memeval.Prelude.Int.neg
ran = refl

-- The order is filled with 90 of the asset, and holds the rest of the state's promises.
filled : get included.orders 1 ≡ some (filled_order order 90 (pos 2) (pos 1000) (pos 3))
unfolding submit memeval.Engine.Simulation.Inclusion.include
    memeval.Engine.Simulation.Valuation.equity_point memeval.Venues.Cpmm.Pool.apply_swap
    memeval.Venues.Cpmm.Pool.scaled get memeval.Venues.Cpmm.Pool.other
    memeval.Venues.Cpmm.Pool.transfer_blocked memeval.Venues.Cpmm.Pool.max_out
    memeval.Venues.Cpmm.Math.get_amount_out memeval.Venues.Cpmm.Pool.depth_for
    memeval.Prelude.Int.◌*ℤ◌ memeval.Engine.Venue.Cpmm.depth_after memeval.Prelude.Int.◌-ℤ◌
    memeval.Prelude.Int.◌+ℤ◌ memeval.Prelude.Int.floor_div balance memeval.Broker.Ledger.apply_legs
    memeval.Prelude.Dict.put memeval.Engine.Blocks.block_at_or_after memeval.Engine.Blocks.time_of
    memeval.Broker.Ledger.Accounts.is_agent memeval.Broker.Ledger.first_short
    memeval.Broker.Ledger.first_unbalanced memeval.Broker.Ledger.post memeval.Prelude.Int.neg
filled = refl

submit-submit_example : submit cpmm_venue hash submitted request ≡ (submitted, ok (1, false))
submit-submit_example = submit-submit cpmm_venue hash opened request accepted

submitted-IsSound : IsSound submitted
submitted-IsSound = submit-IsSound cpmm_venue hash opened request opened-IsSound

include-Yields_example :
    Yields
      (IsIncluded cpmm_venue submitted order (pos 1000))
      submitted
      1
      order
      (include cpmm_venue submitted 1 order (pos 2) (pos 1000))
include-Yields_example =
    include-Yields cpmm_venue submitted 1 order (pos 2) (pos 1000) submitted-IsSound.backed stored

verdict-IsFair_example :
    let v = verdict cpmm_venue submitted order (pos 1000) in
    ((v ≡ ok skip) ↔ (is_pending order.state ≡ false))
    × ((v ≡ ok expired) ↔ ((is_pending order.state ≡ true) × (order.deadline_ms <ℤ pos 1000)))
    × IsFair cpmm_venue submitted order (pos 1000) v
verdict-IsFair_example = verdict-IsFair cpmm_venue submitted order (pos 1000)

traded : Run cpmm_venue hash opened included
traded =
    next (next start (submits request))
      (includes 1 order (pos 2) (pos 1000) {s' = included} stored ran)

run-IsSound_example : IsSound included
run-IsSound_example = run-IsSound cpmm_venue hash opened-IsSound traded

run-Steps_example :
    (o' : Order) × (get included.orders 1 ≡ some o') × Steps OrderState.pending_inclusion o'.state
unfolding memeval.Broker.Orders.transition new_order
run-Steps_example =
    run-Steps cpmm_venue hash submitted-IsSound
      (next start (includes 1 order (pos 2) (pos 1000) {s' = included} stored ran)) 1 order stored

abbrev bought : Order
bought = filled_order order 90 (pos 2) (pos 1000) (pos 3)

confirm_at-Confirms_example : Confirms CpmmMathError included 1 bought (pos 2000)
confirm_at-Confirms_example =
    confirm_at-Confirms CpmmMathError included 1 bought (pos 2000)
      (run-IsSound cpmm_venue hash opened-IsSound traded).backed filled

-- a schedule without a block for the order
abbrev late : Simulation CpmmPoolState
late = record opened {
  schedule = fixed (record { first = pos 1; origin_ms = pos 0; interval_ms = 1000; last = pos 1 });
}

submit_refused_example : (submit cpmm_venue hash late request).0 ≡ record late { order_seq = 1 }
unfolding submit get memeval.Venues.Cpmm.Pool.other memeval.Venues.Cpmm.Pool.transfer_blocked
    memeval.Venues.Cpmm.Pool.max_out memeval.Venues.Cpmm.Math.get_amount_out
    memeval.Venues.Cpmm.Pool.depth_for memeval.Prelude.Int.◌*ℤ◌
    memeval.Engine.Venue.Cpmm.depth_after memeval.Prelude.Int.◌-ℤ◌ memeval.Prelude.Int.◌+ℤ◌
    memeval.Prelude.Int.floor_div balance memeval.Broker.Ledger.apply_legs memeval.Prelude.Dict.put
    memeval.Engine.Blocks.block_at_or_after memeval.Engine.Blocks.time_of
    memeval.Broker.Ledger.Accounts.is_agent memeval.Broker.Ledger.first_short
    memeval.Broker.Ledger.first_unbalanced memeval.Broker.Ledger.post memeval.Prelude.Int.neg
submit_refused_example =
    submit_refused cpmm_venue hash late request {s' = record late { order_seq = 1 }}
      {e = rejected ErrorCode.episode_ended} refl
