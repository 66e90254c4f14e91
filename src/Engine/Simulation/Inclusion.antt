-- ===== src/Engine/Simulation/Inclusion.antt =====
-- engine/simulation.py: `_include` and `_confirm`, on the order of a given number. `verdict` reads the
-- state as `_include` does before its first write, with the swap on a copy, and `carry_out` writes.
-- An exception leaves the handler, and the run with it. A reason that the
-- source builds from numbers or from another text is cut to its code.
use Prim.Native.String.{◌++◌ as text_append}
use memeval.Prelude.{
  ℕ, ◌+◌, String, Bool, true, false, not, none, some, List, [], ◌∷◌, ◌++◌, Result, ok, err,
  raise_if, map_err, ◌>>=◌, ◌>>◌, if◌then◌else◌, ◌==◌, nat_eq, string_eq,
}
use memeval.Prelude.Int.{ℤ, pos, pos_part, ◌+ℤ◌, ltb_ℤ, eqb_ℤ, int_eq}
use memeval.Prelude.Dict.{get, get_or, put}
use memeval.Domain.Status.{OrderState}
use memeval.Broker.Ledger.{Leg, Cause, Ledger, release, expire, fill, post}
use memeval.Broker.Ledger.Accounts.{agent_reserved, agent_pending, sink_gas, pool}
use memeval.Broker.Orders.{Order, transition}
use memeval.Broker.Orders.Settlement.{move, release_order, revert_order, confirm_order}
use memeval.Engine.Blocks.{BlockSchedule, time_of, last_block}
use memeval.Observations.Store.{TradeObs, own, append, no_observations}
use memeval.Engine.Venue.{Venue}
use memeval.Engine.Simulation.{
  Simulation, BrokerError, venue_error, ledger_error, assertion_error, ledger_event,
}
use memeval.Engine.Simulation.Routes.{has_failed, in_launch_window, trade_blocked, capacity_check}
use memeval.Engine.Simulation.Valuation.{equity_point}

-- What `_include` decides: to do nothing, to let the order expire, to release it as rejected, to
-- revert it, or to fill it, with the pool after the swap and the output.
pub data Verdict (Pool : Type 0) : Type 0 where
  skip : Verdict Pool
  expired : Verdict Pool
  unfit : String → String → Verdict Pool
  revert : String → Verdict Pool
  filled : Pool → ℤ → Verdict Pool

abbrev pub is_pending : OrderState → Bool
is_pending OrderState.pending_inclusion = true
is_pending _ = false

abbrev pub fill_legs : String → Order → ℕ → List Leg
fill_legs numeraire o out =
    move agent_reserved (pool o.pool) o.asset_in o.amount_in
    ++ (move (pool o.pool) agent_pending o.asset_out out
        ++ (if o.reserved_gas == 0
            then []
            else move agent_reserved sink_gas numeraire o.reserved_gas))

-- the order after its fill
unfoldable pub filled_order : Order → ℕ → ℤ → ℤ → ℤ → Order
unfolding transition
filled_order o out block t confirm_block =
    let charged : Order =
      (if o.reserved_gas == 0 then o else record o { gas_charged = o.reserved_gas }) in
    record (transition
      (record charged { amount_out = some out; fill_block = some block; fill_time_ms = some t }) t
      OrderState.filled_pending_confirmation none) { confirm_block = some confirm_block }

-- the block of the confirmation, or the last block of the schedule
unfoldable pub confirmation_block : BlockSchedule → ℤ → ℤ
confirmation_block schedule cb = elim (time_of schedule cb) [
  | ok _ ↦ cb
  | err _ ↦ last_block schedule
]

module _ {Pool E : Type 0} (v : Venue Pool E) where
  -- the fill, where the model gives the quoted output and it meets the order's limit
  unfoldable pub fill_verdict : Order → Pool → ℤ → Result (BrokerError E) (Verdict Pool)
  fill_verdict o p out =
      if ltb_ℤ out (pos o.min_amount_out)
      then ok (revert "SLIPPAGE_LIMIT")
      else elim (v.apply_swap p o.asset_in (pos o.amount_in)) [
        | err e ↦ ok (revert "NO_ROUTE")
        | ok (q, actual) ↦ raise_if (not (eqb_ℤ actual out)) assertion_error >> ok (filled q out)
      ]

  unfoldable pub pool_verdict :
      Simulation Pool → Order → ℤ → Pool → Result (BrokerError E) (Verdict Pool)
  unfolding in_launch_window trade_blocked fill_verdict
  pool_verdict s o t p =
      if v.halted p
      then ok (revert "NO_ROUTE: pool halted at inclusion")
      else if in_launch_window s o.pool t
      then ok (revert "NO_ROUTE")
      else elim (trade_blocked v p o.asset_in o.asset_out) [
        | some _ ↦ ok (revert "NO_ROUTE")
        | none ↦ elim (v.max_out p o.asset_in (pos o.amount_in)) [
          | err e ↦ ok (revert "NO_ROUTE")
          | ok out ↦ do
            reason ← map_err venue_error (capacity_check v s p o.asset_in (pos o.amount_in) out)
            elim reason [
              | some _ ↦ ok (unfit "model capacity limit at inclusion" "MODEL_CAPACITY_LIMIT")
              | none ↦ fill_verdict o p out
            ]
        ]
      ]

  unfoldable pub verdict : Simulation Pool → Order → ℤ → Result (BrokerError E) (Verdict Pool)
  unfolding has_failed pool_verdict
  verdict s o t =
      if not (is_pending o.state)
      then ok skip
      else if ltb_ℤ o.deadline_ms t
      then ok expired
      else elim (get s.pools o.pool) [
        | none ↦ ok (unfit "environment fidelity limit at inclusion" "ENVIRONMENT_FIDELITY_LIMIT")
        | some p ↦
            if has_failed s.fidelity_failed o.pool
            then ok (unfit "environment fidelity limit at inclusion" "ENVIRONMENT_FIDELITY_LIMIT")
            else pool_verdict s o t p
      ]

  -- the trade as an observation
  abbrev own_trade : Simulation Pool → Order → ℕ → ℤ → ℤ → Pool → TradeObs
  own_trade s o out block t p =
      let after = v.state_after p in
      record {
        seq = s.trade_seq + 1;
        pool = o.pool;
        event_ms = t;
        available_ms = t +ℤ s.params.availability_delay_ms;
        block = block;
        log_index = pos (1000000 + s.order_seq);
        tx = some (text_append "own:" o.order_id);
        wallet = some "own";
        asset_in = o.asset_in;
        asset_out = o.asset_out;
        amount_in = pos o.amount_in;
        amount_out = pos out;
        origin = own;
        order_id = some o.order_id;
        reserve0_after = after.reserve0;
        reserve1_after = after.reserve1;
        sqrt_price_x96_after = after.sqrt_price_x96;
        tick_after = after.tick;
        liquidity_after = after.liquidity;
      }

  -- every write of a fill but the equity point
  unfoldable pub record_fill :
      Simulation Pool → ℕ → Order → ℤ → ℤ → Pool → ℕ → Ledger → Simulation Pool
  unfolding confirmation_block filled_order
  record_fill s n o block t p out after =
      let cb = confirmation_block s.schedule (block +ℤ s.params.confirm_blocks) in
      record s {
        ledger = after;
        state_version = s.state_version + 1;
        pools = put s.pools o.pool p;
        orders = put s.orders n (filled_order o out block t cb);
        confirmations = put s.confirmations cb (get_or s.confirmations cb [] ++ n ∷ []);
        trade_seq = s.trade_seq + 1;
        obs =
            put s.obs o.pool
              (append (get_or s.obs o.pool (no_observations o.pool)) (own_trade s o out block t p));
      }

  -- The output of a swap is positive.
  unfoldable pub fill_order :
      Simulation Pool → ℕ → Order → ℤ → ℤ → Pool → ℤ → Result (BrokerError E) (Simulation Pool)
  unfolding record_fill
  fill_order s n o block t p out = do
    (after, _) ← map_err ledger_error (
        post s.ledger t fill o.order_id (fill_legs s.numeraire o (pos_part out))
          "included and filled; awaiting confirmation")
    map_err venue_error
        (equity_point v (record_fill s n o block t p (pos_part out) after) t ledger_event)

  -- a release with its cause and its note, and the state and reason of the order after it
  unfoldable pub release_as :
      Simulation Pool
      → ℕ
      → Order
      → ℤ
      → Cause
      → String
      → OrderState
      → String
      → Result (BrokerError E) (Simulation Pool)
  unfolding transition
  release_as s n o t cause note state reason = do
    after ← map_err ledger_error (release_order s.numeraire s.ledger o t cause note)
    ok (record s { ledger = after; orders = put s.orders n (transition o t state (some reason)) })

  unfoldable pub revert_as :
      Simulation Pool → ℕ → Order → ℤ → ℤ → String → Result (BrokerError E) (Simulation Pool)
  revert_as s n o block t reason = do
    (after, o') ← map_err ledger_error (revert_order s.numeraire s.ledger o t block reason)
    ok (record s { ledger = after; orders = put s.orders n o' })

  unfoldable pub carry_out :
      Verdict Pool → Simulation Pool → ℕ → Order → ℤ → ℤ → Result (BrokerError E) (Simulation Pool)
  unfolding fill_order release_as revert_as
  carry_out skip s n o block t = ok s
  carry_out expired s n o block t =
      release_as s n o t expire "deadline passed before inclusion" OrderState.expired
        "deadline passed before inclusion"
  carry_out (unfit note reason) s n o block t =
      release_as s n o t release note OrderState.model_capacity_rejected reason
  carry_out (revert reason) s n o block t = revert_as s n o block t reason
  carry_out (filled p out) s n o block t = fill_order s n o block t p out

  unfoldable pub include :
      Simulation Pool → ℕ → Order → ℤ → ℤ → Result (BrokerError E) (Simulation Pool)
  unfolding verdict carry_out
  include s n o block t = verdict s o t >>= λ w. carry_out w s n o block t

unfoldable pub confirm_at :
    {Pool E : Type 0} → Simulation Pool → ℕ → Order → ℤ → Result (BrokerError E) (Simulation Pool)
unfolding confirm_order
confirm_at s n o t = do
  (after, o') ← map_err ledger_error (confirm_order s.ledger o t)
  ok (record s { ledger = after; orders = put s.orders n o' })
