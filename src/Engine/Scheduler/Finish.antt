-- ===== src/Engine/Scheduler/Finish.antt =====
-- engine/simulation.py, the time loop: the end of finish, and what it leaves.
use mathlib.Core.Path.{subst}
use memeval.Prelude.{
  ℕ, zero, suc, ◌<◌, ◌≡◌, ◌≢◌, refl, sym, ◌∙◌, inl, inr, ◌⊎◌, Bool, Bool-cases, true, false, [],
  ◌∷◌, Result, ok, err, map_err, >>=-eq-ok, map_err-ok, ok-injective, if◌then◌else◌, ◌&&◌, ◌||◌,
  arith,
}
use memeval.Prelude.Int.{ℤ, ◌<ℤ◌, ltb_ℤ}
use memeval.Engine.Venue.{Venue}
use memeval.Engine.Simulation.Routes.{inf}
use memeval.Engine.Scheduler.{
  raise_schedule, Queue, Episode, Flow, RunError, unfinished, work_left, next_event_time, is_empty,
}
use memeval.Engine.Scheduler.Loop.{
  process_time, tail_end_ms, process_until, settle_tail, finish_running, finish,
}
use memeval.Engine.Scheduler.Due.{next_event_time-Due}
use memeval.Engine.Scheduler.Rounds.{process_time-Rounded}
use memeval.Engine.Scheduler.Ends.{process_until_ends, process_until-Advanced}
use memeval.Engine.Scheduler.Returns.{Ends, >>=-Ends, limit_of, settle_tail-Ends}

unless :
    {E X A : Type 0} (b : Bool) (a : A) (r : Result (RunError E X) A)
    → (b ≡ false → Ends r)
    → Ends (if b then ok a else r)
unless true a r h = λ bad. ground arith
unless false a r h = h refl

runs :
    {E A : Type 0} (b : Bool) (a : A) {a' : A} {r : Result E A}
    → b ≡ false
    → Path (Result E A) (if b then ok a else r) (ok a')
    → r ≡ ok a'
runs true a running h = ground arith
runs false a running h = h

tail_end-same :
    {Pool : Type 0} (w w' : Episode Pool)
    → w'.sim.schedule ≡ w.sim.schedule
    → w'.sim.end_ms ≡ w.sim.end_ms
    → w'.settlement_tail_blocks ≡ w.settlement_tail_blocks
    → tail_end_ms w' ≡ tail_end_ms w
unfolding tail_end_ms
tail_end-same w w' a b c = rw (a, b, c)

limit_running :
    {Pool : Type 0} (w : Episode Pool)
    → w.sim.finished ≡ false
    → w.sim.end_ms <ℤ inf
    → limit_of w <ℤ inf
limit_running w running last = rw running last

module _ {Pool E : Type 0} (v : Venue Pool E) {X : Type 0} (f : Flow Pool X) where
  finish_running-Ends :
      (w : Episode Pool)
      → 0 < w.reporting_grid_ms
      → limit_of w <ℤ inf
      → tail_end_ms w <ℤ inf
      → Ends (finish_running v f w)
  unfolding finish_running tail_end_ms
  finish_running-Ends w g limit tail =
      >>=-Ends (process_until v f w w.sim.end_ms) _ (process_until_ends v f w w.sim.end_ms g limit)
        λ w1 ran.
          let k = (process_until-Advanced v f w w.sim.end_ms g limit ran).0 in
          let w2 = record w1 { sim = record w1.sim { finished = true } } in
          let tail' : tail_end_ms w2 <ℤ inf = rw (k.schedule, k.end_ms, k.settlement_tail) tail in
          >>=-Ends (settle_tail v f (suc (work_left w2)) w2 (tail_end_ms w2)) _
            (settle_tail-Ends v f (suc (work_left w2)) w2 (tail_end_ms w2) (rw k.reporting_grid g)
              tail' (omega arith))
            λ w3 _ bad. ground arith

  -- With a positive reporting interval, and the end of the episode and of its settlement tail below the
  -- time that stands for "never", finish ends.
  pub finish_ends :
      (w : Episode Pool)
      → 0 < w.reporting_grid_ms
      → w.sim.end_ms <ℤ inf
      → tail_end_ms w <ℤ inf
      → finish v f w ≢ err unfinished
  unfolding finish
  finish_ends w g last tail = unless w.sim.finished w (finish_running v f w) λ running.
      let limit : limit_of w <ℤ inf = rw running last in finish_running-Ends w g limit tail

  record Settled (w w' : Episode Pool) (tail_end : ℤ) : Type 0 where
    finished : w'.sim.finished ≡ w.sim.finished
    next : ℤ
    next_event : next_event_time w' ≡ ok next
    settled : (tail_end <ℤ next) ⊎ (w'.sim.inclusions ≡ []) × (w'.sim.confirmations ≡ [])

  none_waiting :
      (past : Bool) (is cs : Queue)
      → (past || is_empty is && is_empty cs) ≡ true
      → (past ≡ true) ⊎ (is ≡ []) × (cs ≡ [])
  none_waiting true is cs h = inl refl
  none_waiting false [] [] h = inr (refl, refl)
  none_waiting false [] (c ∷ cs) h = ground arith
  none_waiting false (i ∷ is) cs h = ground arith

  settle_tail-Settled :
      (fuel : ℕ) (w : Episode Pool) (tail_end : ℤ) {w' : Episode Pool}
      → 0 < w.reporting_grid_ms
      → tail_end <ℤ inf
      → settle_tail v f fuel w tail_end ≡ ok w'
      → Settled w w' tail_end
  unfolding settle_tail
  settle_tail-Settled zero w tail_end g last h = ground arith
  settle_tail-Settled (suc fuel) w tail_end {w'} g last h =
      let (nxt, ran, h1) = >>=-eq-ok (map_err raise_schedule (next_event_time w)) _ h in
      let at = map_err-ok {F = RunError E X} raise_schedule (next_event_time w) ran in
      elim (Bool-cases
        (ltb_ℤ tail_end nxt || is_empty w.sim.inclusions && is_empty w.sim.confirmations)) [
          | inl over ↦
              subst (λ x. Settled w x tail_end) (ok-injective (rw over at h1))
                record {
                  finished = refl;
                  next = nxt;
                  next_event = at;
                  settled =
                      elim (none_waiting (ltb_ℤ tail_end nxt) w.sim.inclusions w.sim.confirmations
                        over) [ inl later ↦ inl (ground arith) | inr empty ↦ inr empty ];
                }
          | inr due ↦
              let (w1, round, more) = >>=-eq-ok (process_time v f w nxt) _ (rw due at h1) in
              let before : nxt <ℤ inf = ground arith in
              let k = process_time-Rounded v f w nxt g (next_event_time-Due w at) before round in
              let ks = settle_tail-Settled fuel w1 tail_end (rw k.reporting_grid g) last more in
              record {
                finished = ks.finished ∙ k.finished;
                next = ks.next;
                next_event = ks.next_event;
                settled = ks.settled;
              }
        ]

  finish_running-done :
      (w : Episode Pool) {w' : Episode Pool}
      → 0 < w.reporting_grid_ms
      → limit_of w <ℤ inf
      → tail_end_ms w <ℤ inf
      → finish_running v f w ≡ ok w'
      → (w'.sim.finished ≡ true)
        × (w'.tail_processed ≡ true)
        × (nxt : ℤ) × (next_event_time w' ≡ ok nxt)
        × ((tail_end_ms w <ℤ nxt) ⊎ (w'.sim.inclusions ≡ []) × (w'.sim.confirmations ≡ []))
  unfolding finish_running next_event_time
  finish_running-done w g limit tail h0 =
      let (w1, ended, h1) = >>=-eq-ok (process_until v f w w.sim.end_ms) _ h0 in
      let k = (process_until-Advanced v f w w.sim.end_ms g limit ended).0 in
      let w2 = record w1 { sim = record w1.sim { finished = true } } in
      let same_end = tail_end-same w w2 k.schedule k.end_ms k.settlement_tail in
      let settle = settle_tail v f (suc (work_left w2)) w2 (tail_end_ms w2) in
      let (w3, settled, same) = >>=-eq-ok settle _ h1 in
      let ks =
        settle_tail-Settled (suc (work_left w2)) w2 (tail_end_ms w2) (rw k.reporting_grid g)
          (subst (λ x. x <ℤ inf) (sym same_end) tail) settled in
      let waiting =
        subst (λ x. (x <ℤ ks.next) ⊎ (w3.sim.inclusions ≡ []) × (w3.sim.confirmations ≡ []))
          same_end ks.settled in
      subst
        (λ x.
          (x.sim.finished ≡ true)
          × (x.tail_processed ≡ true)
          × (nxt : ℤ) × (next_event_time x ≡ ok nxt)
          × ((tail_end_ms w <ℤ nxt) ⊎ (x.sim.inclusions ≡ []) × (x.sim.confirmations ≡ [])))
        (ok-injective same) (ks.finished, refl, ks.next, ks.next_event, waiting)

  -- With a positive reporting interval, and the end of the episode and of its settlement tail below the
  -- time that stands for "never", what finish returns of an episode that is not finished is finished, with
  -- its tail processed: either no order waits for its inclusion or its confirmation, or none of them, and
  -- no other event, is due within the tail.
  pub finish_done :
      (w : Episode Pool) {w' : Episode Pool}
      → 0 < w.reporting_grid_ms
      → w.sim.end_ms <ℤ inf
      → tail_end_ms w <ℤ inf
      → w.sim.finished ≡ false
      → finish v f w ≡ ok w'
      → (w'.sim.finished ≡ true)
        × (w'.tail_processed ≡ true)
        × (nxt : ℤ) × (next_event_time w' ≡ ok nxt)
        × ((tail_end_ms w <ℤ nxt) ⊎ (w'.sim.inclusions ≡ []) × (w'.sim.confirmations ≡ []))
  unfolding finish
  finish_done w g last tail running h =
      finish_running-done w g (limit_running w running last) tail (runs w.sim.finished w running h)
