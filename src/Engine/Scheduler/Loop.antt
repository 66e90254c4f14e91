-- ===== src/Engine/Scheduler/Loop.antt =====
-- engine/simulation.py: _process_tape_until, _process_time, process_until, _tail_end_ms and finish.
use memeval.Prelude.{
  ℕ, zero, suc, Bool, true, false, ◌&&◌, ◌||◌, none, some, List, [], ◌∷◌, ◌++◌, Result, ok, err,
  map_err, raise_if, ◌>>=◌, ◌>>◌, if◌then◌else◌, nat_eq,
}
use memeval.Prelude.Int.{ℤ, pos, ◌+ℤ◌, ltb_ℤ, leb_ℤ, eqb_ℤ, int_eq}
use memeval.Prelude.Dict.{get, get_or, remove}
use memeval.Broker.Orders.{Order}
use memeval.Engine.Blocks.{time_of, block_containing, last_block}
use memeval.Engine.Tape.{RelEvent}
use memeval.Engine.Venue.{Venue}
use memeval.Engine.Simulation.{Simulation, BrokerError, schedule_error, assertion_error, grid}
use memeval.Engine.Simulation.Valuation.{equity_point}
use memeval.Engine.Simulation.Inclusion.{include, confirm_at}
use memeval.Engine.Scheduler.{
  raise_schedule, raise_venue, Episode, Flow, RunError, broker, flow, time_backwards, unfinished,
  min_ℤ, later_of, blocks_at, sort_blocks, is_empty, grid_left, work_left, next_event_time,
}

-- `time_ms > t or (time_ms == t and not include_equal)`
abbrev pub is_past : ℤ → Bool → ℤ → Bool
is_past t true time_ms = ltb_ℤ t time_ms
is_past t false time_ms = ltb_ℤ t time_ms || eqb_ℤ time_ms t

unfoldable pub tail_end_ms : {Pool : Type 0} → Episode Pool → ℤ
tail_end_ms w =
    let s = w.sim in
    let last_ep_block = block_containing s.schedule s.end_ms in
    elim (time_of s.schedule
      (min_ℤ (last_ep_block +ℤ w.settlement_tail_blocks) (last_block s.schedule))) [
        | ok t ↦ t
        | err _ ↦ s.end_ms
      ]

module _ {Pool E : Type 0} (v : Venue Pool E) where
  -- The number of an order in a queue stands for the order itself.
  unfoldable pub order_at : Simulation Pool → ℕ → Result (BrokerError E) Order
  order_at s n = elim (get s.orders n) [ none ↦ err assertion_error | some o ↦ ok o ]

  unfoldable pub include_all :
      Simulation Pool → List ℕ → ℤ → ℤ → Result (BrokerError E) (Simulation Pool)
  unfolding order_at
  include_all s [] block t = ok s
  include_all s (n ∷ ns) block t =
      order_at s n >>= λ o. (include v s n o block t >>= λ s'. include_all s' ns block t)

  unfoldable pub confirm_all :
      Simulation Pool → List ℕ → ℤ → Result (BrokerError E) (Simulation Pool)
  unfolding order_at
  confirm_all s [] t = ok s
  confirm_all s (n ∷ ns) t =
      order_at s n >>= λ o. (confirm_at {E = E} s n o t >>= λ s'. confirm_all s' ns t)

  unfoldable pub process_block : Simulation Pool → ℤ → ℤ → Result (BrokerError E) (Simulation Pool)
  unfolding include_all confirm_all
  process_block s b t = do
    let due = get_or s.inclusions b []
    s' ← include_all (record s { inclusions = remove s.inclusions b }) due b t
    let filled = get_or s'.confirmations b []
    confirm_all (record s' { confirmations = remove s'.confirmations b }) filled t

  unfoldable pub process_blocks :
      Simulation Pool → List ℤ → ℤ → Result (BrokerError E) (Simulation Pool)
  unfolding process_block
  process_blocks s [] t = ok s
  process_blocks s (b ∷ blocks) t = process_block s b t >>= λ s'. process_blocks s' blocks t

  -- the blocks at time `t` of both queues, in order
  unfoldable pub blocks_here : Simulation Pool → ℤ → Result (BrokerError E) (List ℤ)
  unfolding blocks_at sort_blocks
  blocks_here s t = map_err schedule_error (do
    bs ← blocks_at s.schedule t s.inclusions
    cs ← blocks_at s.schedule t s.confirmations
    ok (sort_blocks (bs ++ cs)))

  module _ {X : Type 0} (f : Flow Pool X) where
    -- the loop over the tape from its cursor
    unfoldable pub play :
        ℤ → Bool → List RelEvent → Episode Pool → Result (RunError E X) (Episode Pool)
    play t include_equal [] w = ok w
    play t include_equal (ev ∷ tape) w =
        let next = map_err flow (f.apply ev w) >>= λ w'.
        play t include_equal tape
          (record w' { tape = tape; events_processed = suc w'.events_processed }) in
        if is_past t include_equal ev.time_ms then ok w else next

    unfoldable pub process_tape_until :
        Episode Pool → ℤ → Bool → Result (RunError E X) (Episode Pool)
    unfolding play
    process_tape_until w t include_equal = play t include_equal w.tape w

    -- the loop over the reporting grid
    unfoldable pub snapshots : ℕ → Episode Pool → ℤ → Result (RunError E X) (Episode Pool)
    snapshots zero w t = err unfinished
    snapshots (suc fuel) w t =
        let next = map_err raise_venue (equity_point v w.sim w.next_grid_ms grid) >>= λ s.
        snapshots fuel
          (record w { sim = s; next_grid_ms = w.next_grid_ms +ℤ pos w.reporting_grid_ms }) t in
        if leb_ℤ w.next_grid_ms t && leb_ℤ w.next_grid_ms w.sim.end_ms then next else ok w

    unfoldable pub process_time : Episode Pool → ℤ → Result (RunError E X) (Episode Pool)
    unfolding process_tape_until blocks_here process_blocks snapshots
    process_time w t = do
      w1 ← process_tape_until w t true
      blocks ← map_err broker (blocks_here w1.sim t)
      s2 ← map_err broker (process_blocks w1.sim blocks t)
      let w2 = record w1 { sim = record s2 { now_ms = t } }
      snapshots (suc (grid_left w2.sim.end_ms w2.next_grid_ms)) w2 t

    -- the loop of `process_until`
    unfoldable pub advance : ℕ → Episode Pool → ℤ → Result (RunError E X) (Episode Pool)
    unfolding next_event_time process_time
    advance zero w target = err unfinished
    advance (suc fuel) w target = map_err raise_schedule (next_event_time w) >>= λ nxt.
        let next = process_time w nxt >>= λ w'. advance fuel w' target in
        if ltb_ℤ target nxt then ok w else next

    unfoldable pub process_until : Episode Pool → ℤ → Result (RunError E X) (Episode Pool)
    unfolding advance tail_end_ms work_left
    process_until w target_ms = do
      raise_if (ltb_ℤ target_ms w.sim.now_ms) time_backwards
      let limit = if w.sim.finished then tail_end_ms w else w.sim.end_ms
      let target = min_ℤ target_ms limit
      w' ← advance (suc (work_left w)) w target
      ok (record w' { sim = record w'.sim { now_ms = later_of w'.sim.now_ms target } })

    -- the loop of `finish` over the settlement tail
    unfoldable pub settle_tail : ℕ → Episode Pool → ℤ → Result (RunError E X) (Episode Pool)
    unfolding next_event_time process_time
    settle_tail zero w tail_end = err unfinished
    settle_tail (suc fuel) w tail_end = map_err raise_schedule (next_event_time w) >>= λ nxt.
        let next = process_time w nxt >>= λ w'. settle_tail fuel w' tail_end in
        if ltb_ℤ tail_end nxt || is_empty w.sim.inclusions && is_empty w.sim.confirmations
        then ok w
        else next

    unfoldable pub finish_running : Episode Pool → Result (RunError E X) (Episode Pool)
    unfolding process_until settle_tail
    finish_running w = do
      w1 ← process_until w w.sim.end_ms
      let w2 = record w1 { sim = record w1.sim { finished = true } }
      w3 ← settle_tail (suc (work_left w2)) w2 (tail_end_ms w2)
      let now = later_of w3.sim.now_ms w3.sim.end_ms
      ok (record w3 { sim = record w3.sim { now_ms = now }; tail_processed = true })

    unfoldable pub finish : Episode Pool → Result (RunError E X) (Episode Pool)
    unfolding finish_running
    finish w = if w.sim.finished then ok w else finish_running w
