-- ===== src/Engine/Scheduler/Returns.antt =====
-- engine/simulation.py, the time loop: how its parts return on their fuel.
use memeval.Prelude.{
  ℕ, zero, suc, ◌<◌, ◌≡◌, ◌≢◌, refl, inl, inr, Bool, Bool-cases, true, false, List, [], ◌∷◌, Result,
  ok, err, raise_if, map_err, ◌>>=◌, map_err-ok, if◌then◌else◌, ◌&&◌, ◌||◌, arith,
}
use memeval.Prelude.Int.{ℤ, pos, ◌+ℤ◌, ◌<ℤ◌, ◌≤ℤ◌, ltb_ℤ, leb_ℤ}
use memeval.Engine.Tape.{RelEvent}
use memeval.Engine.Venue.{Venue}
use memeval.Engine.Simulation.{grid}
use memeval.Engine.Simulation.Routes.{inf}
use memeval.Engine.Simulation.Valuation.{equity_point}
use memeval.Engine.Scheduler.{
  raise_schedule, raise_venue, Episode, Flow, RunError, broker, flow, unfinished, later_of,
  grid_left, work_left, next_event_time, min_ℤ, is_empty,
}
use memeval.Engine.Scheduler.Loop.{
  play, process_tape_until, snapshots, blocks_here, process_blocks, process_time, advance,
  tail_end_ms, settle_tail, is_past,
}
use memeval.Engine.Scheduler.Due.{next_event_time-Due}
use memeval.Engine.Scheduler.Rounds.{
  process_time-Rounded, grid_left-step, both, play-reporting_grid,
}
use memeval.Engine.Scheduler.Queues.{equity_point-KeepsQueues}

-- A call returns, or raises an exception of the source.
abbrev pub Ends : {E X A : Type 0} → Result (RunError E X) A → Type 0
Ends r = r ≢ err unfinished

pub >>=-Ends :
    {E X A B : Type 0} (m : Result (RunError E X) A) (next : A → Result (RunError E X) B)
    → Ends m
    → ((a : A) → m ≡ ok a → Ends (next a))
    → Ends (m >>= next)
>>=-Ends (ok a) next h k = k a refl
>>=-Ends (err e) next h k = λ bad. h (ground arith)

map_err-Ends :
    {E X F A : Type 0} (raise : F → RunError E X) (r : Result F A)
    → ((e : F) → raise e ≢ unfinished)
    → Ends (map_err raise r)
map_err-Ends raise (ok a) other = λ bad. ground arith
map_err-Ends raise (err e) other = λ bad. other e (ground arith)

-- where process_until stops at the latest
abbrev pub limit_of : {Pool : Type 0} → Episode Pool → ℤ
limit_of w = if w.sim.finished then tail_end_ms w else w.sim.end_ms

pub raise_if-Ends :
    {E X : Type 0} (b : Bool) (e : RunError E X) → e ≢ unfinished → Ends (raise_if b e)
raise_if-Ends true e other = λ bad. other (ground arith)
raise_if-Ends false e other = λ bad. ground arith

pub later_of-le : (a b : ℤ) → b ≤ℤ later_of a b
later_of-le a b = ground arith

pub min_ℤ-le : (a b : ℤ) → min_ℤ a b ≤ℤ b
min_ℤ-le a b = ground arith

module _ {Pool E : Type 0} (v : Venue Pool E) {X : Type 0} (f : Flow Pool X) where
  play-Ends :
      (t : ℤ) (incl : Bool) (tape : List RelEvent) (w : Episode Pool)
      → Ends (play v f t incl tape w)
  unfolding play
  play-Ends t incl [] w = λ bad. ground arith
  play-Ends t incl (ev ∷ tape) w = elim (Bool-cases (is_past t incl ev.time_ms)) [
    | inl past ↦ rw past (λ bad. ground arith)
    | inr now ↦ rw now (
        >>=-Ends (map_err flow (f.apply ev w)) _
          (map_err-Ends flow (f.apply ev w) (λ e bad. ground arith))
          (λ w1 _. play-Ends t incl tape _))
  ]

  snapshots-Ends :
      (fuel : ℕ) (w : Episode Pool) (t : ℤ)
      → 0 < w.reporting_grid_ms
      → grid_left w.sim.end_ms w.next_grid_ms < fuel
      → Ends (snapshots v f fuel w t)
  unfolding snapshots
  snapshots-Ends zero w t g h = absurd (omega arith)
  snapshots-Ends (suc fuel) w t g h =
      elim (Bool-cases (leb_ℤ w.next_grid_ms t && leb_ℤ w.next_grid_ms w.sim.end_ms)) [
        | inr over ↦ rw over (λ bad. ground arith)
        | inl here ↦
            let valued = equity_point v w.sim w.next_grid_ms grid in
            rw here (
              >>=-Ends (map_err raise_venue valued) _
                (map_err-Ends raise_venue valued (λ e bad. ground arith))
                (λ s ran.
                  let k =
                    equity_point-KeepsQueues v w.sim w.next_grid_ms grid
                      (map_err-ok {F = RunError E X} raise_venue valued ran) in
                  let fewer =
                    grid_left-step w.sim.end_ms w.next_grid_ms w.reporting_grid_ms g
                      (both _ _ here) in
                  let w1 = record w {
                    sim = s;
                    next_grid_ms = w.next_grid_ms +ℤ pos w.reporting_grid_ms;
                  } in
                  let left : grid_left w1.sim.end_ms w1.next_grid_ms
                      ≡ grid_left w.sim.end_ms w1.next_grid_ms =
                    rw k.end_ms in
                  snapshots-Ends fuel w1 t g (omega (arith, fewer, left))))
      ]

  process_time-Ends :
      (w : Episode Pool) (t : ℤ) → 0 < w.reporting_grid_ms → Ends (process_time v f w t)
  unfolding process_time process_tape_until
  process_time-Ends w t g =
      >>=-Ends (process_tape_until v f w t true) _ (play-Ends t true w.tape w) λ w1 played.
        >>=-Ends (map_err broker (blocks_here v w1.sim t)) _
          (map_err-Ends broker (blocks_here v w1.sim t) (λ e bad. ground arith))
          λ blocks _.
            >>=-Ends (map_err broker (process_blocks v w1.sim blocks t)) _
              (map_err-Ends broker (process_blocks v w1.sim blocks t) (λ e bad. ground arith))
              λ s2 _.
                let w2 = record w1 { sim = record s2 { now_ms = t } } in
                let kept = play-reporting_grid v f t w.tape w refl played in
                snapshots-Ends (suc (grid_left w2.sim.end_ms w2.next_grid_ms)) w2 t (rw kept g)
                  (omega arith)

  pub advance-Ends :
      (fuel : ℕ) (w : Episode Pool) (target : ℤ)
      → 0 < w.reporting_grid_ms
      → target <ℤ inf
      → work_left w < fuel
      → Ends (advance v f fuel w target)
  unfolding advance
  advance-Ends zero w target g last h = absurd (omega arith)
  advance-Ends (suc fuel) w target g last h =
      >>=-Ends (map_err raise_schedule (next_event_time w)) _
        (map_err-Ends {X = X} raise_schedule (next_event_time w) (λ e bad. ground arith))
        λ nxt ran. elim (Bool-cases (ltb_ℤ target nxt)) [
          | inl over ↦ rw over (λ bad. ground arith)
          | inr due ↦
              let d =
                next_event_time-Due w
                  (map_err-ok {F = RunError E X} raise_schedule (next_event_time w) ran) in
              let before : nxt <ℤ inf = ground arith in
              rw due (
                >>=-Ends (process_time v f w nxt) _ (process_time-Ends w nxt g) λ w1 round.
                  let k = process_time-Rounded v f w nxt g d before round in
                  advance-Ends fuel w1 target (rw k.reporting_grid g) last (omega (arith, k.work)))
        ]

  pub settle_tail-Ends :
      (fuel : ℕ) (w : Episode Pool) (tail_end : ℤ)
      → 0 < w.reporting_grid_ms
      → tail_end <ℤ inf
      → work_left w < fuel
      → Ends (settle_tail v f fuel w tail_end)
  unfolding settle_tail
  settle_tail-Ends zero w tail_end g last h = absurd (omega arith)
  settle_tail-Ends (suc fuel) w tail_end g last h =
      >>=-Ends (map_err raise_schedule (next_event_time w)) _
        (map_err-Ends {X = X} raise_schedule (next_event_time w) (λ e bad. ground arith))
        λ nxt ran.
          elim (Bool-cases
            (ltb_ℤ tail_end nxt || is_empty w.sim.inclusions && is_empty w.sim.confirmations)) [
              | inl over ↦ rw over (λ bad. ground arith)
              | inr due ↦
                  let d =
                    next_event_time-Due w
                      (map_err-ok {F = RunError E X} raise_schedule (next_event_time w) ran) in
                  let before : nxt <ℤ inf = ground arith in
                  rw due (
                    >>=-Ends (process_time v f w nxt) _ (process_time-Ends w nxt g) λ w1 round.
                      let k = process_time-Rounded v f w nxt g d before round in
                      settle_tail-Ends fuel w1 tail_end (rw k.reporting_grid g) last
                        (omega (arith, k.work)))
            ]
