-- ===== src/Broker/Orders.antt =====
-- broker/orders.py: an order and its history, and the settlement of one in engine/simulation.py.
pub mod Settlement
use memeval.Prelude.{ℕ, String, Option, none, some, List, [], ◌∷◌, ◌++◌}
use memeval.Prelude.Int.{ℤ}
use memeval.Prelude.Dict.{Dict}
use memeval.Domain.Status.{OrderState}

-- The reason that a capacity check gives.
pub data CapacityReason : Type 0 where
  no_liquidity input_limit displacement_limit : CapacityReason

-- `capacity_reason` is present where `capacity_ok` is false.
pub record Quote : Type 0 where
  pub quote_id : ℕ
  pub created_ms : ℤ
  pub expires_ms : ℤ
  pub pool : String
  pub asset_in : String
  pub asset_out : String
  pub amount_in : ℤ
  pub amount_out : ℤ
  pub reserve_in : ℤ
  pub reserve_out : ℤ
  pub fee_num : ℤ
  pub fee_den : ℤ
  pub gas_cost : ℤ
  pub state_version : ℕ
  pub capacity_reason : Option CapacityReason

-- `reserved_gas` and `gas_charged` are amounts.
pub record Order : Type 0 where
  pub order_id : String
  pub idempotency_key : String
  pub payload_hash : String
  pub pool : String
  pub asset_in : String
  pub asset_out : String
  pub amount_in : ℕ
  pub min_amount_out : ℕ
  pub deadline_ms : ℤ
  pub submitted_ms : ℤ
  pub ready_ms : ℤ
  pub inclusion_block : Option ℤ
  pub inclusion_time_ms : Option ℤ
  pub reserved_gas : ℕ
  pub state : OrderState
  pub quote_id : Option String
  pub amount_out : Option ℕ
  pub fill_block : Option ℤ
  pub fill_time_ms : Option ℤ
  pub confirm_block : Option ℤ
  pub confirm_time_ms : Option ℤ
  pub gas_charged : ℕ
  pub reason : Option String
  pub history : List (ℤ × OrderState)
  pub intent : Dict String String

-- An absent reason keeps the one before it.
unfoldable pub transition : Order → ℤ → OrderState → Option String → Order
transition o time_ms new_state reason = record o {
  state = new_state;
  reason = elim reason [ none ↦ o.reason | some r ↦ some r ];
  history = o.history ++ (time_ms, new_state) ∷ [];
}
