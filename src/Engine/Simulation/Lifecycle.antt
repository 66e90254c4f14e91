-- ===== src/Engine/Simulation/Lifecycle.antt =====
-- engine/simulation.py: the life of an order, as its states follow each other, and what a call on one
-- order leaves of the store.
pub mod Deciding
pub mod Settling
pub mod Confirming
pub mod Submitting
pub mod Accepting
pub mod Runs
use memeval.Prelude.{
  none, ◌<◌, ℕ, ◌≡◌, ◌≢◌, ◌⊎◌, String, Option, some, Result, ok, err, true, Bool, false,
}
use memeval.Prelude.Dict.{Dict, get}
use memeval.Prelude.{nat_eq}
use memeval.Domain.Status.{
  OrderState, received, accepted_and_reserved, pending_inclusion, filled_pending_confirmation,
  confirmed, reverted,
}
use memeval.Broker.Orders.{Order}
use memeval.Engine.Simulation.{Simulation, BrokerError, venue_error}
use memeval.Engine.Simulation.Backing.{IsBacked}

-- One step in the life of an order.
pub data Step : OrderState → OrderState → Type 0 where
  accept : Step received accepted_and_reserved
  queue : Step accepted_and_reserved pending_inclusion
  run_out : Step pending_inclusion OrderState.expired
  turn_down : Step pending_inclusion OrderState.model_capacity_rejected
  turn_back : Step pending_inclusion reverted
  fill_in : Step pending_inclusion filled_pending_confirmation
  settle_in : Step filled_pending_confirmation confirmed

abbrev pub Evolves : OrderState → OrderState → Type 0
Evolves a b = (a ≡ b) ⊎ Step a b

abbrev pub is_venue_error : {E : Type 0} → BrokerError E → Bool
is_venue_error (venue_error _) = true
is_venue_error _ = false

module _ {Pool : Type 0} where
  -- The numeraire, the ledger and the store of a simulation are backed.
  abbrev pub SimIsBacked : Simulation Pool → Type 0
  SimIsBacked s = IsBacked s.numeraire s.ledger s.orders

  -- The orders of the store have numbers up to `order_seq`.
  abbrev pub IsNumbered : Simulation Pool → Type 0
  IsNumbered s = (m : ℕ) → s.order_seq < m → get s.orders m ≡ none

  pub record IsSound (s : Simulation Pool) : Type 0 where
    pub backed : SimIsBacked s
    pub numbered : IsNumbered s

  -- What a call on the order `o` of number `n` leaves: that order taken at most one step, and every
  -- other order as it was.
  pub record Outcome (P : Order → Type 0) (s : Simulation Pool) (n : ℕ) (o : Order)
      (s' : Simulation Pool) : Type 0 where
    pub after : Order
    pub stored : get s'.orders n ≡ some after
    pub others : (m : ℕ) → n ≢ m → get s'.orders m ≡ get s.orders m
    pub numbered : s'.order_seq ≡ s.order_seq
    pub evolved : Evolves o.state after.state
    pub backed : SimIsBacked s'
    pub ends : P after

-- A call that returns has such an outcome, and one that raises passes on an error of the venue.
abbrev pub Yields :
    {Pool E : Type 0}
    → (Order → Type 0)
    → Simulation Pool
    → ℕ
    → Order
    → Result (BrokerError E) (Simulation Pool)
    → Type 0
Yields P s n o (ok s') = Outcome P s n o s'
Yields P s n o (err e) = is_venue_error e ≡ true
