-- ===== src/Engine/Scheduler/Ends.antt =====
-- engine/simulation.py, the time loop: the end of process_until, and what it leaves undone.
use mathlib.Core.Path.{subst}
use memeval.Prelude.{
  ℕ, zero, suc, ◌<◌, ◌≡◌, ◌≢◌, refl, ◌∙◌, inl, inr, Bool-cases, Result, ok, err, raise_if, map_err,
  >>=-eq-ok, map_err-ok, ok-injective, arith,
}
use memeval.Prelude.Int.{ℤ, ◌<ℤ◌, ◌≤ℤ◌, ltb_ℤ}
use memeval.Engine.Venue.{Venue}
use memeval.Engine.Simulation.Routes.{inf}
use memeval.Engine.Scheduler.{
  raise_schedule, Episode, Flow, RunError, unfinished, time_backwards, later_of, work_left,
  next_event_time, min_ℤ,
}
use memeval.Engine.Scheduler.Loop.{process_time, advance, process_until}
use memeval.Engine.Scheduler.Due.{next_event_time-Due}
use memeval.Engine.Scheduler.Rounds.{process_time-Rounded}
use memeval.Engine.Scheduler.Returns.{
  >>=-Ends, limit_of, raise_if-Ends, later_of-le, min_ℤ-le, advance-Ends,
}

module _ {Pool E : Type 0} (v : Venue Pool E) {X : Type 0} (f : Flow Pool X) where
  -- What the loop keeps, and that what is due at its target is done.
  pub record Advanced (w w' : Episode Pool) (target : ℤ) : Type 0 where
    pub end_ms : w'.sim.end_ms ≡ w.sim.end_ms
    pub schedule : w'.sim.schedule ≡ w.sim.schedule
    pub reporting_grid : w'.reporting_grid_ms ≡ w.reporting_grid_ms
    pub settlement_tail : w'.settlement_tail_blocks ≡ w.settlement_tail_blocks
    pub next : ℤ
    pub next_event : next_event_time w' ≡ ok next
    pub later : target <ℤ next

  advance-Advanced :
      (fuel : ℕ) (w : Episode Pool) (target : ℤ) {w' : Episode Pool}
      → 0 < w.reporting_grid_ms
      → target <ℤ inf
      → advance v f fuel w target ≡ ok w'
      → Advanced w w' target
  unfolding advance
  advance-Advanced zero w target g last h = ground arith
  advance-Advanced (suc fuel) w target {w'} g last h =
      let (nxt, ran, h1) = >>=-eq-ok (map_err raise_schedule (next_event_time w)) _ h in
      let at = map_err-ok {F = RunError E X} raise_schedule (next_event_time w) ran in
      elim (Bool-cases (ltb_ℤ target nxt)) [
        | inl over ↦
            subst (λ x. Advanced w x target) (ok-injective (rw over at h1))
              record {
                end_ms = refl;
                schedule = refl;
                reporting_grid = refl;
                settlement_tail = refl;
                next = nxt;
                next_event = at;
                later = ground arith;
              }
        | inr due ↦
            let (w1, round, more) = >>=-eq-ok (process_time v f w nxt) _ (rw due at h1) in
            let before : nxt <ℤ inf = ground arith in
            let k = process_time-Rounded v f w nxt g (next_event_time-Due w at) before round in
            let ks = advance-Advanced fuel w1 target (rw k.reporting_grid g) last more in
            record {
              end_ms = ks.end_ms ∙ k.end_ms;
              schedule = ks.schedule ∙ k.schedule;
              reporting_grid = ks.reporting_grid ∙ k.reporting_grid;
              settlement_tail = ks.settlement_tail ∙ k.settlement_tail;
              next = ks.next;
              next_event = ks.next_event;
              later = ks.later;
            }
      ]

  -- With a positive reporting interval, and a limit below the time that stands for "never",
  -- process_until ends: the rounds it is given are enough for the work that is left.
  pub process_until_ends :
      (w : Episode Pool) (target_ms : ℤ)
      → 0 < w.reporting_grid_ms
      → limit_of w <ℤ inf
      → process_until v f w target_ms ≢ err unfinished
  unfolding process_until
  process_until_ends w target_ms g last =
      let target = min_ℤ target_ms (limit_of w) in
      let loop = advance v f (suc (work_left w)) w target in
      let before : target <ℤ inf = omega (arith, min_ℤ-le target_ms (limit_of w)) in
      >>=-Ends (raise_if (ltb_ℤ target_ms w.sim.now_ms) time_backwards) _
        (raise_if-Ends (ltb_ℤ target_ms w.sim.now_ms) time_backwards (λ bad. ground arith))
        λ _ _.
          >>=-Ends loop _ (advance-Ends v f (suc (work_left w)) w target g before (omega arith))
            λ w1 _ bad. ground arith

  pub process_until-Advanced :
      (w : Episode Pool) (target_ms : ℤ) {w' : Episode Pool}
      → 0 < w.reporting_grid_ms
      → limit_of w <ℤ inf
      → process_until v f w target_ms ≡ ok w'
      → Advanced w w' (min_ℤ target_ms (limit_of w))
        × (min_ℤ target_ms (limit_of w) ≤ℤ w'.sim.now_ms)
  unfolding process_until next_event_time
  process_until-Advanced w target_ms {w'} g last h =
      let target = min_ℤ target_ms (limit_of w) in
      let before : target <ℤ inf = omega (arith, min_ℤ-le target_ms (limit_of w)) in
      let guarded : Result (RunError E X) Unit =
        raise_if (ltb_ℤ target_ms w.sim.now_ms) time_backwards in
      let (_, _, h1) = >>=-eq-ok guarded _ h in
      let (w1, ran, same) = >>=-eq-ok (advance v f (suc (work_left w)) w target) _ h1 in
      let k = advance-Advanced (suc (work_left w)) w target g before ran in
      let now = later_of w1.sim.now_ms target in
      let reached : target ≤ℤ now = later_of-le w1.sim.now_ms target in
      subst (λ x. Advanced w x target × (target ≤ℤ x.sim.now_ms)) (ok-injective same)
        (
          record {
            end_ms = k.end_ms;
            schedule = k.schedule;
            reporting_grid = k.reporting_grid;
            settlement_tail = k.settlement_tail;
            next = k.next;
            next_event = k.next_event;
            later = k.later;
          },
          reached,
        )

  -- With a positive reporting interval and a limit below the time that stands for "never", what
  -- process_until returns has no event at or before its target left, where the target is the time asked
  -- for or the limit if that is earlier, and its clock is not before the target.
  pub process_until_done :
      (w : Episode Pool) (target_ms : ℤ) {w' : Episode Pool}
      → 0 < w.reporting_grid_ms
      → limit_of w <ℤ inf
      → process_until v f w target_ms ≡ ok w'
      → (nxt : ℤ) × (next_event_time w' ≡ ok nxt)
        × (min_ℤ target_ms (limit_of w) <ℤ nxt)
        × (min_ℤ target_ms (limit_of w) ≤ℤ w'.sim.now_ms)
  process_until_done w target_ms g last h =
      let (k, reached) = process_until-Advanced w target_ms g last h in
      (k.next, k.next_event, k.later, reached)
