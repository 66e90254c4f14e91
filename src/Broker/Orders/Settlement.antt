-- ===== src/Broker/Orders/Settlement.antt =====
-- engine/simulation.py, `_release`, `_revert` and `_confirm`: the postings that settle an order.
pub mod Legs
pub mod Funds
use Prim.Native.String.{◌++◌ as text_append}
use memeval.Prelude.{
  ℕ, String, Bool, true, false, not, Option, none, some, List, [], ◌∷◌, ◌++◌, Result, ok, err,
  ◌>>=◌, ◌==◌, if◌then◌else◌,
}
use memeval.Prelude.Int.{ℤ, pos, neg}
use memeval.Domain.Status.{OrderState}
use memeval.Broker.Ledger.{
  Leg, Cause, Ledger, LedgerError, reserve, release, revert_gas, confirm, post,
}
use memeval.Broker.Ledger.Accounts.{
  Account, agent_available, agent_reserved, agent_pending, sink_gas,
}
use memeval.Broker.Orders.{Order, transition}

abbrev pub move : Account → Account → String → ℕ → List Leg
move from to asset x =
    record { account = from; asset = asset; delta = neg (pos x) }
    ∷ record { account = to; asset = asset; delta = pos x }
    ∷ []

-- the principal goes back, and the gas goes to `gas_to` if there is any
abbrev pub return_legs : String → Order → Account → List Leg
return_legs numeraire o gas_to =
    move agent_reserved agent_available o.asset_in o.amount_in
    ++ (if o.reserved_gas == 0 then [] else move agent_reserved gas_to numeraire o.reserved_gas)

unfoldable pub release_order :
    String → Ledger → Order → ℤ → Cause → String → Result LedgerError Ledger
release_order numeraire l o t cause note = do
  (after, _) ← post l t cause o.order_id (return_legs numeraire o agent_available) note
  ok after

unfoldable pub revert_order :
    String → Ledger → Order → ℤ → ℤ → String → Result LedgerError (Ledger × Order)
unfolding transition
revert_order numeraire l o t block reason = do
  (after, _) ←
      post l t revert_gas o.order_id (return_legs numeraire o sink_gas)
        (text_append "reverted: " reason)
  let charged : Order =
      (if o.reserved_gas == 0 then o else record o { gas_charged = o.reserved_gas })
  ok (
    after,
    transition (record charged { fill_block = some block; fill_time_ms = some t }) t
        OrderState.reverted (some reason),
  )

abbrev pub is_filled : OrderState → Bool
is_filled OrderState.filled_pending_confirmation = true
is_filled _ = false

-- The posting and the writes of `_confirm`.
unfoldable pub confirm_fill : Ledger → Order → ℤ → ℕ → Result LedgerError (Ledger × Order)
unfolding transition
confirm_fill l o t out = do
  (after, _) ←
      post l t confirm o.order_id (move agent_pending agent_available o.asset_out out)
        "fill confirmed"
  ok (after, transition (record o { confirm_time_ms = some t }) t OrderState.confirmed none)

unfoldable pub confirm_order : Ledger → Order → ℤ → Result LedgerError (Ledger × Order)
unfolding confirm_fill
confirm_order l o t =
    if is_filled o.state
    then elim o.amount_out [ none ↦ ok (l, o) | some out ↦ confirm_fill l o t out ]
    else ok (l, o)
