-- ===== src/Tests/Orders.antt =====
-- The settlement of a concrete order.
use memeval.Prelude.{
  ℕ, ◌≡◌, refl, String, true, false, none, some, List, [], ◌∷◌, ok, ◌+◌, Result, arith,
}
use memeval.Prelude.Int.{pos, neg, ◌+ℤ◌, ◌-ℤ◌, int_laws}
use memeval.Domain.Status.{OrderState}
use memeval.Broker.Ledger.{
  Leg, Ledger, LedgerError, bankroll, empty, posted, release, revert_gas, confirm, balance,
}
use memeval.Broker.Ledger.Accounts.{
  agent_available, agent_reserved, agent_pending, source_bankroll, sink_gas,
}
use memeval.Broker.Orders.{Order}
use memeval.Broker.Orders.Settlement.{move, return_legs, revert_order}
use memeval.Broker.Orders.Settlement.Funds.{
  holdings, gas_in, revert_order-holdings, revert_order_total,
}

abbrev order : OrderState → Order
order state = record {
  order_id = "ord_000001";
  idempotency_key = "k";
  payload_hash = "h";
  pool = "p";
  asset_in = "eth";
  asset_out = "meme";
  amount_in = 20;
  min_amount_out = 0;
  deadline_ms = pos 100;
  submitted_ms = pos 0;
  ready_ms = pos 1;
  inclusion_block = some (pos 1);
  inclusion_time_ms = some (pos 2);
  reserved_gas = 3;
  state = state;
  quote_id = none;
  amount_out = some 5;
  fill_block = none;
  fill_time_ms = none;
  confirm_block = none;
  confirm_time_ms = none;
  gas_charged = 0;
  reason = none;
  history = [];
  intent = [];
}

abbrev pending : Order
pending = order OrderState.pending_inclusion

abbrev funded : Ledger
funded = posted empty (pos 0) bankroll "init" (move source_bankroll agent_reserved "eth" 30) ""

abbrev reverted : Ledger
reverted =
    posted funded (pos 9) revert_gas "ord_000001" (return_legs "eth" pending sink_gas)
      "reverted: NO_ROUTE"

abbrev reverted_order : Order
reverted_order = record pending {
  gas_charged = 3;
  fill_block = some (pos 1);
  fill_time_ms = some (pos 9);
  state = OrderState.reverted;
  reason = some "NO_ROUTE";
  history = (pos 9, OrderState.reverted) ∷ [];
}

revert_order-holdings_example :
    (OrderState.reverted ≡ OrderState.reverted)
    × ((asset : String) → holdings reverted asset ≡ holdings funded asset -ℤ gas_in "eth" asset 3)
unfolding revert_order memeval.Broker.Ledger.post memeval.Broker.Ledger.first_unbalanced
    memeval.Prelude.Dict.put ◌+ℤ◌ memeval.Prelude.Dict.get neg memeval.Broker.Ledger.first_short
    memeval.Broker.Ledger.Accounts.is_agent memeval.Broker.Ledger.apply_legs
revert_order-holdings_example =
    revert_order-holdings "eth" funded pending (pos 9) (pos 1) "NO_ROUTE" {l' = reverted}
      {o' = reverted_order} refl

revert_order_total_example :
    (r : Ledger × Order) × (revert_order "eth" funded pending (pos 9) (pos 1) "NO_ROUTE" ≡ ok r)
unfolding balance memeval.Prelude.Dict.get memeval.Broker.Ledger.apply_legs memeval.Prelude.Dict.put
revert_order_total_example =
    revert_order_total "eth" funded pending (pos 9) (pos 1) "NO_ROUTE" (omega int_laws)
      (omega int_laws) (omega int_laws)
