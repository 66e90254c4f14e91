-- ===== src/Engine/Scheduler/Observable.antt =====
-- engine/simulation.py: unresolved_orders, discovered_pools and next_observable_event_ms, which ask the
-- simulation and change nothing.
use mathlib.Core.List.{reverse}
use memeval.Prelude.{
  ℕ, String, Bool, true, false, ◌&&◌, ◌||◌, Option, none, some, List, [], ◌∷◌, Result, ok, ◌>>=◌,
  if◌then◌else◌, str_eq, string_eq,
}
use memeval.Prelude.Int.{ℤ, ◌+ℤ◌, ltb_ℤ, leb_ℤ, int_eq}
use memeval.Prelude.Dict.{Dict, get_or}
use memeval.Broker.Orders.{Order}
use memeval.Broker.Orders.Settlement.{is_filled}
use memeval.Observations.Store.{TradeObs, PoolObservations, no_observations}
use memeval.Engine.Blocks.{BlockSchedule, BlockScheduleError, time_of}
use memeval.Engine.Tape.{RelEvent, Kind, swap, cl_swap}
use memeval.Engine.Simulation.Valuation.{text_lt}
use memeval.Engine.Simulation.Inclusion.{is_pending}
use memeval.Engine.Scheduler.{Episode, min_ℤ}

-- the orders that still wait, in the order of their submission
unfoldable pub unresolved_orders : Dict ℕ Order → List Order
unresolved_orders [] = []
unresolved_orders ((_, o) ∷ orders) =
    let rest = unresolved_orders orders in
    if is_pending o.state || is_filled o.state then o ∷ rest else rest

-- sorted(keys)
unfoldable pub insert_key : String → List String → List String
insert_key k [] = k ∷ []
insert_key k (x ∷ xs) = let rest = insert_key k xs in if text_lt x k then x ∷ rest else k ∷ x ∷ xs

unfoldable pub discovered_pools : Dict String ℤ → ℤ → List String
unfolding insert_key
discovered_pools [] as_of = []
discovered_pools ((k, d) ∷ discoveries) as_of =
    let rest = discovered_pools discoveries as_of in
    if leb_ℤ d as_of then insert_key k rest else rest

-- `k in keys`
unfoldable pub is_among : String → List String → Bool
is_among k [] = false
is_among k (x ∷ xs) = str_eq x k || is_among k xs

-- `tm if best is None else min(best, tm)`
abbrev pub sooner : Option ℤ → ℤ → Option ℤ
sooner none tm = some tm
sooner (some best) tm = some (min_ℤ best tm)

abbrev pub sooner_within : ℤ → ℤ → Option ℤ → ℤ → Option ℤ
sooner_within after_ms limit best tm =
    if ltb_ℤ after_ms tm && leb_ℤ tm limit then sooner best tm else best

unfoldable pub next_discovery : ℤ → ℤ → Dict String ℤ → Option ℤ → Option ℤ
next_discovery after_ms limit [] best = best
next_discovery after_ms limit ((_, d) ∷ discoveries) best =
    next_discovery after_ms limit discoveries (sooner_within after_ms limit best d)

abbrev pub inclusion_of : ℤ → ℤ → Order → Option ℤ → Option ℤ
inclusion_of after_ms limit o best = elim o.inclusion_time_ms [
  | none ↦ best
  | some tm ↦ if is_pending o.state then sooner_within after_ms limit best tm else best
]

unfoldable pub confirmation_of :
    BlockSchedule → ℤ → ℤ → Order → Option ℤ → Result BlockScheduleError (Option ℤ)
confirmation_of schedule after_ms limit o best = elim o.confirm_block [
  | none ↦ ok best
  | some block ↦
      let next = time_of schedule block >>= λ ct. ok (sooner_within after_ms limit best ct) in
      if is_filled o.state then next else ok best
]

-- the own orders, by their inclusion and their confirmation
unfoldable pub next_order :
    BlockSchedule → ℤ → ℤ → Dict ℕ Order → Option ℤ → Result BlockScheduleError (Option ℤ)
unfolding confirmation_of
next_order schedule after_ms limit [] best = ok best
next_order schedule after_ms limit ((_, o) ∷ orders) best =
    confirmation_of schedule after_ms limit o (inclusion_of after_ms limit o best) >>= λ best'.
    next_order schedule after_ms limit orders best'

-- trades that are recorded and not available yet, from the last one on
unfoldable pub unavailable_trades : ℤ → ℤ → List TradeObs → Option ℤ → Option ℤ
unavailable_trades after_ms limit [] best = best
unavailable_trades after_ms limit (t ∷ trades) best =
    let next =
      unavailable_trades after_ms limit trades
        (if leb_ℤ t.available_ms limit then sooner best t.available_ms else best) in
    if leb_ℤ t.available_ms after_ms then best else next

unfoldable pub next_trade : ℤ → ℤ → Dict String PoolObservations → List String → Option ℤ → Option ℤ
unfolding unavailable_trades
next_trade after_ms limit obs [] best = best
next_trade after_ms limit obs (k ∷ discovered) best =
    let trades = (get_or obs k (no_observations k)).trades in
    next_trade after_ms limit obs discovered
      (unavailable_trades after_ms limit (reverse trades) best)

abbrev pub is_swap : Kind → Bool
is_swap swap = true
is_swap cl_swap = true
is_swap _ = false

-- when the trade of a swap in a discovered pool becomes available, if that is later
abbrev pub announced : ℤ → List String → RelEvent → Option ℤ
announced after_ms discovered ev = elim ev.available_ms [
  | none ↦ none
  | some t ↦
      if is_swap ev.kind && is_among ev.pool discovered && ltb_ℤ after_ms t then some t else none
]

-- the swaps to come on the tape, up to the first one that counts
unfoldable pub next_swap : ℤ → ℤ → List String → List RelEvent → Option ℤ → Option ℤ
unfolding is_among
next_swap after_ms limit discovered [] best = best
next_swap after_ms limit discovered (ev ∷ tape) best =
    let rest = next_swap after_ms limit discovered tape best in
    if ltb_ℤ limit ev.time_ms then best else elim (announced after_ms discovered ev) [
      | none ↦ rest
      | some t ↦ sooner best (min_ℤ t limit)
    ]

module _ {Pool : Type 0} where
  abbrev pub horizon_end : Episode Pool → ℤ → ℤ → ℤ
  horizon_end w after_ms horizon_ms = min_ℤ (after_ms +ℤ horizon_ms) w.sim.end_ms

  unfoldable pub next_observable_event_ms :
      Episode Pool → ℤ → ℤ → Result BlockScheduleError (Option ℤ)
  unfolding next_discovery next_order next_trade next_swap discovered_pools
  next_observable_event_ms w after_ms horizon_ms =
      let s = w.sim in
      let limit = horizon_end w after_ms horizon_ms in
      let discovered = discovered_pools s.pool_discovery_ms after_ms in
      next_order s.schedule after_ms limit s.orders
        (next_discovery after_ms limit s.pool_discovery_ms none)
      >>= λ best. ok (
          next_swap after_ms limit discovered w.tape
            (next_trade after_ms limit s.obs discovered best))
