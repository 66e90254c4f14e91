-- ===== src/Engine/Simulation/Submission.antt =====
-- engine/simulation.py, `submit`.
use Prim.Native.String.{◌++◌ as text_append}
use memeval.Prelude.{
  ℕ, ◌+◌, String, Bool, true, false, not, ◌||◌, Option, none, some, List, [], ◌∷◌, ◌++◌, Result, ok,
  err, raise_if, map_err, ◌>>=◌, ◌>>◌, if◌then◌else◌, str_eq, ◌==◌, nat_eq, string_eq,
}
use memeval.Prelude.Int.{ℤ, pos, pos_part, ◌+ℤ◌, ltb_ℤ, leb_ℤ, int_eq}
use memeval.Prelude.Dict.{Dict, get, get_or, put}
use memeval.Domain.Status.{
  OrderState, ErrorCode, idempotency_conflict, episode_ended, invalid_order, no_route,
  quote_expired, model_capacity_limit, insufficient_funds,
}
use memeval.Broker.Ledger.{Leg, Ledger, reserve, balance, post}
use memeval.Broker.Ledger.Accounts.{agent_available, agent_reserved}
use memeval.Broker.Orders.{Order, transition}
use memeval.Broker.Orders.Settlement.{move}
use memeval.Engine.Blocks.{BlockScheduleError, block_at_or_after, time_of}
use memeval.Engine.Venue.{Venue}
use memeval.Engine.Simulation.Numbering.{digits, padding, order_id_of}
use memeval.Engine.Simulation.{Simulation, BrokerError, rejected, venue_error, assertion_error}
use memeval.Engine.Simulation.Routes.{tradable_pool, has_asset, trade_blocked, capacity_check}

pub record Request : Type 0 where
  pub pool_key : String
  pub asset_in : String
  pub asset_out : String
  pub amount_in : ℤ
  pub min_amount_out : ℤ
  pub deadline_ms : ℤ
  pub idempotency_key : String
  pub quote_id : Option ℕ
  pub intent : Dict String String

-- The payload that is hashed.
pub record Payload : Type 0 where
  pub pool : String
  pub asset_in : String
  pub asset_out : String
  pub amount_in : ℤ
  pub min_amount_out : ℤ
  pub deadline_ms : ℤ
  pub quote_id : Option ℕ
  pub intent : Dict String String

abbrev pub payload_of : Request → Payload
payload_of r = record {
  pool = r.pool_key;
  asset_in = r.asset_in;
  asset_out = r.asset_out;
  amount_in = r.amount_in;
  min_amount_out = r.min_amount_out;
  deadline_ms = r.deadline_ms;
  quote_id = r.quote_id;
  intent = r.intent;
}

-- What to reserve of which asset: `need`.
abbrev pub needs : String → ℕ → String → ℕ → List (String × ℕ)
needs asset_in amount numeraire gas =
    if str_eq asset_in numeraire
    then (asset_in, amount + gas) ∷ []
    else (asset_in, amount) ∷ (numeraire, gas) ∷ []

-- the legs that reserve, or none where the available balance does not cover one
unfoldable pub reserve_legs : Ledger → List (String × ℕ) → Option (List Leg)
reserve_legs l [] = some []
reserve_legs l ((asset, amount) ∷ rest) =
    let legs = reserve_legs l rest in
    if amount == 0
    then legs
    else if ltb_ℤ (balance l agent_available asset) (pos amount)
    then none
    else elim legs [
      | none ↦ none
      | some ls ↦ some (move agent_available agent_reserved asset amount ++ ls)
    ]

-- the order that `submit` creates, in the state that it leaves it in
unfoldable pub new_order : {Pool : Type 0} → Simulation Pool → Request → String → ℕ → ℤ → ℤ → Order
unfolding transition order_id_of
new_order s r hash n block time =
    let o : Order = record {
      order_id = order_id_of n;
      idempotency_key = r.idempotency_key;
      payload_hash = hash;
      pool = r.pool_key;
      asset_in = r.asset_in;
      asset_out = r.asset_out;
      amount_in = pos_part r.amount_in;
      min_amount_out = pos_part r.min_amount_out;
      deadline_ms = r.deadline_ms;
      submitted_ms = s.now_ms;
      ready_ms = s.now_ms +ℤ s.params.submit_latency_ms;
      inclusion_block = some block;
      inclusion_time_ms = some time;
      reserved_gas = s.gas_cost;
      state = OrderState.received;
      quote_id = elim r.quote_id [
        | none ↦ none
        | some q ↦ some (text_append "q_" (text_append (padding q) (digits q q "")))
      ];
      amount_out = none;
      fill_block = none;
      fill_time_ms = none;
      confirm_block = none;
      confirm_time_ms = none;
      gas_charged = 0;
      reason = none;
      history = [];
      intent = r.intent;
    } in
    transition
      (transition (transition o s.now_ms OrderState.received none) s.now_ms
        OrderState.accepted_and_reserved none)
      s.now_ms OrderState.pending_inclusion none

abbrev quote_fits : {Pool : Type 0} → Simulation Pool → Option ℕ → Option ErrorCode
quote_fits s none = none
quote_fits s (some n) = elim (get s.quotes n) [
  | none ↦ some invalid_order
  | some q ↦ if ltb_ℤ q.expires_ms s.now_ms then some quote_expired else none
]

module _ {Pool E : Type 0} (v : Venue Pool E) (payload_hash : Payload → String) where
  -- the checks of a new order, up to its capacity
  unfoldable pub check_order : Simulation Pool → Request → Result (BrokerError E) (Unit {0})
  unfolding tradable_pool trade_blocked capacity_check
  check_order s r = do
    raise_if (s.finished || leb_ℤ s.end_ms s.now_ms) (rejected episode_ended)
    raise_if (leb_ℤ r.amount_in (pos 0) || ltb_ℤ r.min_amount_out (pos 0)) (rejected invalid_order)
    raise_if (leb_ℤ r.deadline_ms s.now_ms) (rejected invalid_order)
    p ← tradable_pool v s r.pool_key
    raise_if (not (has_asset v p r.asset_in)) (rejected invalid_order)
    asset_out ← map_err venue_error (v.other p r.asset_in)
    raise_if (not (str_eq asset_out r.asset_out)) (rejected invalid_order)
    elim (quote_fits s r.quote_id) [ none ↦ ok tt | some e ↦ err (rejected e) ]
    elim (trade_blocked v p r.asset_in r.asset_out) [
      | none ↦ ok tt
      | some _ ↦ err (rejected no_route)
    ]
    out ← map_err (λ e. rejected no_route) (v.max_out p r.asset_in r.amount_in)
    reason ← map_err venue_error (capacity_check v s p r.asset_in r.amount_in out)
    elim reason [ none ↦ ok tt | some _ ↦ err (rejected model_capacity_limit) ]

  -- the block for the ready time, and its time
  abbrev pub slot : Simulation Pool → Result BlockScheduleError (ℤ × ℤ)
  slot s = do
    block ← block_at_or_after s.schedule (s.now_ms +ℤ s.params.submit_latency_ms)
    time ← time_of s.schedule block
    ok (block, time)

  -- the state after an accepted order
  unfoldable pub enqueue : Simulation Pool → Request → Ledger → ℕ → ℤ → ℤ → Simulation Pool
  unfolding new_order
  enqueue s r after n block time =
      let o = new_order s r (payload_hash (payload_of r)) n block time in
      record s {
        ledger = after;
        order_seq = n;
        orders = put s.orders n o;
        orders_by_key = put s.orders_by_key r.idempotency_key n;
        inclusions = put s.inclusions block (get_or s.inclusions block [] ++ n ∷ []);
      }

  -- from `order_seq += 1` on: a rejection leaves the sequence number used
  unfoldable pub place_order :
      Simulation Pool → Request → List Leg → Simulation Pool × Result (BrokerError E) (ℕ × Bool)
  unfolding enqueue
  place_order s r legs =
      let n = s.order_seq + 1 in
      let numbered = record s { order_seq = n } in
      elim (slot s) [
        | err e ↦ (numbered, err (rejected episode_ended))
        | ok (block, time) ↦
            elim (post s.ledger s.now_ms reserve (order_id_of n) legs
              "principal + gas allowance reserved") [
                | err e ↦ (numbered, err (rejected insufficient_funds))
                | ok (after, _) ↦ (enqueue s r after n block time, ok (n, true))
              ]
      ]

  unfoldable pub submit_new :
      Simulation Pool → Request → Simulation Pool × Result (BrokerError E) (ℕ × Bool)
  unfolding check_order place_order reserve_legs
  submit_new s r = elim (check_order s r) [
    | err e ↦ (s, err e)
    | ok _ ↦
        elim (reserve_legs s.ledger
          (needs r.asset_in (pos_part r.amount_in) s.numeraire s.gas_cost)) [
            | none ↦ (s, err (rejected insufficient_funds))
            | some legs ↦ place_order s r legs
          ]
  ]

  -- A repeated key returns the original order. The store has every order that a key stands for.
  unfoldable pub submit :
      Simulation Pool → Request → Simulation Pool × Result (BrokerError E) (ℕ × Bool)
  unfolding submit_new
  submit s r = elim (get s.orders_by_key r.idempotency_key) [
    | none ↦ submit_new s r
    | some n ↦ elim (get s.orders n) [
      | none ↦ (s, err assertion_error)
      | some o ↦ (
        s,
        if str_eq o.payload_hash (payload_hash (payload_of r))
            then ok (n, false)
            else err (rejected idempotency_conflict),
      )
    ]
  ]
