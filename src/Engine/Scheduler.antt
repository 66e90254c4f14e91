-- ===== src/Engine/Scheduler.antt =====
-- engine/simulation.py, the time loop: what it keeps and when its next event is. An episode is the broker's state with what the loop keeps besides:
-- `tape` is the tape from the cursor on. The handler of a recorded event is an interface, `Flow`.
-- A loop that has not ended on its fuel is `unfinished`.
pub mod Loop
pub mod Queues
pub mod Work
pub mod Due
pub mod Rounds
pub mod Returns
pub mod Ends
pub mod Finish
pub mod Splits
pub mod Follows
pub mod Sound
pub mod Observable
pub mod Hidden
use memeval.Prelude.{
  String, Option, ℕ, zero, suc, ◌+◌, ◌*◌, ◌≡◌, Bool, true, false, not, ◌&&◌, ◌||◌, none, some, List,
  [], ◌∷◌, ◌++◌, length, Result, ok, err, map_err, ◌>>=◌, if◌then◌else◌, ltb,
}
use memeval.Prelude.Int.{ℤ, pos, pos_part, ◌+ℤ◌, ◌-ℤ◌, ltb_ℤ, leb_ℤ, eqb_ℤ, int_eq}
use memeval.Prelude.{nat_eq}
use memeval.Prelude.Dict.{Dict, get, get_or, remove}
use memeval.Prelude.Dict.Sum.{sum_by}
use memeval.Engine.Blocks.{BlockSchedule, BlockScheduleError, time_of, block_containing, last_block}
use memeval.Engine.Tape.{RelEvent}
use memeval.Engine.External.{FidelityFlag, Mismatch}
use memeval.Venues.Clmm.Pool.Recorded.{Mode}
use memeval.Engine.Simulation.{
  Simulation, BrokerError, venue_error, schedule_error, assertion_error, grid,
}
use memeval.Engine.Simulation.Routes.{inf}
use memeval.Engine.Simulation.Valuation.{equity_point}
use memeval.Engine.Simulation.Inclusion.{include, confirm_at}

-- What a swap of a concentrated-liquidity pool left between the replay and the record.
pub record ClMismatch : Type 0 where
  pub seq : ℤ
  pub pool : String
  pub block : ℤ
  pub delta_sqrt_price_x96 : ℤ
  pub delta_liquidity : ℤ
  pub delta_tick : ℤ
  pub delta_amount0 : ℤ
  pub delta_amount1 : ℤ
  pub mode : Mode

pub data Reconciliation : Type 0 where
  of_reserves : Mismatch → Reconciliation
  of_swap : ClMismatch → Reconciliation

pub record RestrictionEvent : Type 0 where
  pub pool : String
  pub asset : String
  pub event_ms : ℤ
  pub available_ms : Option ℤ
  pub payload : Dict String Bool

pub record Episode (Pool : Type 0) : Type 0 where
  pub sim : Simulation Pool
  pub tape : List RelEvent
  pub events_processed : ℕ
  pub next_grid_ms : ℤ
  pub reporting_grid_ms : ℕ
  pub settlement_tail_blocks : ℤ
  pub tail_processed : Bool
  pub fidelity_flags : List FidelityFlag
  pub explained_count : ℕ
  pub material_count : ℕ
  pub reconciliation_mismatches : List Reconciliation
  pub external_zero_output_swaps : ℕ
  pub restriction_events : List RestrictionEvent

-- What leaves the loop: an exception of the broker or of the handler of events, or
-- `SimulationError` for a target in the past.
pub data RunError (E X : Type 0) : Type 0 where
  broker : BrokerError E → RunError E X
  flow : X → RunError E X
  time_backwards : RunError E X
  unfinished : RunError E X

abbrev pub raise_schedule : {E X : Type 0} → BlockScheduleError → RunError E X
raise_schedule e = broker (schedule_error e)

abbrev pub raise_venue : {E X : Type 0} → E → RunError E X
raise_venue e = broker (venue_error e)

-- What an event leaves alone: the orders with their queues, the ledger, and the clock.
pub record SameBroker {Pool : Type 0} (w w' : Episode Pool) : Type 0 where
  pub numeraire : w'.sim.numeraire ≡ w.sim.numeraire
  pub ledger : w'.sim.ledger ≡ w.sim.ledger
  pub orders : w'.sim.orders ≡ w.sim.orders
  pub order_seq : w'.sim.order_seq ≡ w.sim.order_seq
  pub inclusions : w'.sim.inclusions ≡ w.sim.inclusions
  pub confirmations : w'.sim.confirmations ≡ w.sim.confirmations
  pub schedule : w'.sim.schedule ≡ w.sim.schedule
  pub end_ms : w'.sim.end_ms ≡ w.sim.end_ms
  pub finished : w'.sim.finished ≡ w.sim.finished
  pub next_grid : w'.next_grid_ms ≡ w.next_grid_ms
  pub reporting_grid : w'.reporting_grid_ms ≡ w.reporting_grid_ms
  pub settlement_tail : w'.settlement_tail_blocks ≡ w.settlement_tail_blocks

-- The handler of a recorded event, `_apply_external`.
pub record Flow (Pool X : Type 0) : Type 0 where
  pub apply : RelEvent → Episode Pool → Result X (Episode Pool)
  pub keeps :
      (ev : RelEvent) (w : Episode Pool) {w' : Episode Pool} → apply ev w ≡ ok w' → SameBroker w w'

abbrev pub min_ℤ : ℤ → ℤ → ℤ
min_ℤ a b = if ltb_ℤ b a then b else a

abbrev pub later_of : ℤ → ℤ → ℤ
later_of a b = if ltb_ℤ a b then b else a

abbrev pub Queue : Type 0
Queue = Dict ℤ (List ℕ)

-- min(nxt, min(schedule.time_of(b) for b in queue))
unfoldable pub earliest : BlockSchedule → ℤ → Queue → Result BlockScheduleError ℤ
earliest schedule nxt [] = ok nxt
earliest schedule nxt ((b, _) ∷ queue) =
    time_of schedule b >>= λ t. earliest schedule (min_ℤ nxt t) queue

abbrev pub next_tape : List RelEvent → ℤ
next_tape [] = inf
next_tape (ev ∷ tape) = min_ℤ inf ev.time_ms

-- the blocks of a queue whose time is `t`
unfoldable pub blocks_at : BlockSchedule → ℤ → Queue → Result BlockScheduleError (List ℤ)
blocks_at schedule t [] = ok []
blocks_at schedule t ((b, _) ∷ queue) = time_of schedule b >>= λ u.
    blocks_at schedule t queue >>= λ rest. ok (if eqb_ℤ u t then b ∷ rest else rest)

-- sorted(set(blocks))
unfoldable pub insert_block : ℤ → List ℤ → List ℤ
insert_block b [] = b ∷ []
insert_block b (c ∷ blocks) =
    let rest = insert_block b blocks in
    if eqb_ℤ b c then c ∷ blocks else if ltb_ℤ b c then b ∷ c ∷ blocks else c ∷ rest

unfoldable pub sort_blocks : List ℤ → List ℤ
unfolding insert_block
sort_blocks [] = []
sort_blocks (b ∷ blocks) = insert_block b (sort_blocks blocks)

abbrev pub is_empty {ℓ} : {A : Type ℓ} → List A → Bool
is_empty [] = true
is_empty (x ∷ xs) = false

-- a bound of the points of the reporting grid that are left
abbrev pub grid_left : ℤ → ℤ → ℕ
grid_left end_ms next_grid =
    if leb_ℤ next_grid end_ms then suc (pos_part (end_ms -ℤ next_grid)) else 0

abbrev pub queued_inclusion : List ℕ → ℕ
queued_inclusion ns = 1 + 2 * length ns

abbrev pub queued_confirmation : List ℕ → ℕ
queued_confirmation ns = 1 + length ns

-- What is left to be done: each round of the loop does a part of it.
unfoldable pub work_left : {Pool : Type 0} → Episode Pool → ℕ
work_left w =
    length w.tape
    + sum_by queued_inclusion w.sim.inclusions
    + sum_by queued_confirmation w.sim.confirmations
    + grid_left w.sim.end_ms w.next_grid_ms

unfoldable pub next_event_time : {Pool : Type 0} → Episode Pool → Result BlockScheduleError ℤ
unfolding earliest
next_event_time w = do
  nxt ← earliest w.sim.schedule (next_tape w.tape) w.sim.inclusions
  nxt' ← earliest w.sim.schedule nxt w.sim.confirmations
  ok (if leb_ℤ w.next_grid_ms w.sim.end_ms then min_ℤ nxt' w.next_grid_ms else nxt')
