-- ===== src/Engine/Simulation/Lifecycle/Confirming.antt =====
-- engine/simulation.py, `_confirm`: what one call leaves of the ledger and the store.
use memeval.Prelude.{
  ℕ, ◌≡◌, refl, inl, inr, ◌⊎◌, true, false, Bool-cases, none, some, Option-cases, ok, arith, nat_eq,
}
use memeval.Prelude.Int.{ℤ}
use memeval.Prelude.Dict.{get, put, put-get, get-put_self, get-put_ne}
use memeval.Domain.Status.{OrderState}
use memeval.Broker.Ledger.{Ledger, posted, confirm}
use memeval.Broker.Ledger.Accounts.{agent_available, agent_pending}
use memeval.Broker.Orders.{Order, transition}
use memeval.Broker.Orders.Settlement.{move, confirm_order, confirm_fill, is_filled}
use memeval.Engine.Simulation.{Simulation}
use memeval.Engine.Simulation.Inclusion.{confirm_at}
use memeval.Engine.Simulation.Backing.Postings.{confirm-IsBacked}
use memeval.Engine.Simulation.Lifecycle.{Step, settle_in, SimIsBacked, Outcome}

-- A filled order ends as confirmed.
pub IsConfirmed : Order → Order → Type 0
IsConfirmed o o' =
    (out : ℕ) → is_filled o.state ≡ true → o.amount_out ≡ some out → o'.state ≡ OrderState.confirmed

from_filled :
    (a b : OrderState)
    → is_filled a ≡ true
    → Step OrderState.filled_pending_confirmation b
    → Step a b
from_filled a b full step =
    let same : a ≡ OrderState.filled_pending_confirmation = ground arith in rw same step

confirm_order-filled :
    (l : Ledger) (o : Order) (t : ℤ) (out : ℕ)
    → is_filled o.state ≡ true
    → o.amount_out ≡ some out
    → confirm_order l o t ≡ confirm_fill l o t out
unfolding confirm_order
confirm_order-filled l o t out full amount = ground arith

confirm_order-other :
    (l : Ledger) (o : Order) (t : ℤ)
    → (is_filled o.state ≡ false) ⊎ (o.amount_out ≡ none)
    → confirm_order l o t ≡ ok (l, o)
unfolding confirm_order
confirm_order-other l o t other = ground arith

module _ {Pool : Type 0} (E : Type 0) (s : Simulation Pool) (n : ℕ) (o : Order) (t : ℤ) where
  abbrev pub Confirms : Type 0
  Confirms =
      (s' : Simulation Pool) × (confirm_at {E = E} s n o t ≡ ok s')
      × Outcome (IsConfirmed o) s n o s'

  confirm_filled :
      (out : ℕ)
      → SimIsBacked s
      → get s.orders n ≡ some o
      → is_filled o.state ≡ true
      → o.amount_out ≡ some out
      → Confirms
  unfolding confirm_at confirm_fill transition IsConfirmed
  confirm_filled out b at full amount =
      let o' = transition (record o { confirm_time_ms = some t }) t OrderState.confirmed none in
      let (ran, backed) =
        confirm-IsBacked s.numeraire s.ledger s.orders n o t out "fill confirmed" o' b at full
          amount refl refl in
      let legs = move agent_pending agent_available o.asset_out out in
      (
        record s {
          ledger = posted s.ledger t confirm o.order_id legs "fill confirmed";
          orders = put s.orders n o';
        },
        rw (confirm_order-filled s.ledger o t out full amount, ran) refl,
        record {
          after = o';
          stored = get-put_self s.orders n o';
          others = λ m. get-put_ne s.orders n m o';
          numbered = refl;
          evolved = inr (from_filled o.state OrderState.confirmed full settle_in);
          backed = backed;
          ends = λ out _ _. refl;
        },
      )

  confirm_unfilled :
      SimIsBacked s
      → get s.orders n ≡ some o
      → (is_filled o.state ≡ false) ⊎ (o.amount_out ≡ none)
      → Confirms
  unfolding confirm_at IsConfirmed
  confirm_unfilled b at other = (
    s,
    rw (confirm_order-other s.ledger o t other, put-get s.orders n o at) refl,
    record {
      after = o;
      stored = at;
      others = λ m _. refl;
      numbered = refl;
      evolved = inl refl;
      backed = b;
      ends = λ out full amount. ground arith;
    },
  )

  -- A confirmation on a backed state always returns, and the state stays backed; a filled order ends as
  -- confirmed.
  pub confirm_at-Confirms : SimIsBacked s → get s.orders n ≡ some o → Confirms
  confirm_at-Confirms b at = elim (Bool-cases (is_filled o.state)) [
    | inr unfilled ↦ confirm_unfilled b at (inl unfilled)
    | inl full ↦ elim (Option-cases o.amount_out) [
      | inl nothing ↦ confirm_unfilled b at (inr nothing)
      | inr (out, amount) ↦ confirm_filled out b at full amount
    ]
  ]
