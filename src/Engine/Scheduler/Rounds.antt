-- ===== src/Engine/Scheduler/Rounds.antt =====
-- engine/simulation.py, the time loop: a round of it, and the work that it leaves.
use mathlib.Core.Path.{subst}
use memeval.Prelude.{
  ℕ, zero, suc, ◌+◌, ◌≤◌, ◌<◌, ◌≡◌, refl, ap, ◌∙◌, inl, inr, Bool, Bool-cases, true, List, [], ◌∷◌,
  length, ok, map_err, map_err-ok, >>=-eq-ok, ok-injective, if◌then◌else◌, ◌&&◌, arith,
}
use memeval.Prelude.Int.{ℤ, pos, ◌+ℤ◌, ◌<ℤ◌, ltb_ℤ, leb_ℤ, int_laws, parts_eq}
use memeval.Prelude.Dict.Sum.{sum_by}
use memeval.Engine.Tape.{RelEvent}
use memeval.Engine.Venue.{Venue}
use memeval.Engine.Simulation.{grid}
use memeval.Engine.Simulation.Routes.{inf}
use memeval.Engine.Simulation.Valuation.{equity_point}
use memeval.Engine.Scheduler.{
  raise_venue, Episode, Flow, RunError, broker, flow, grid_left, work_left, queued_inclusion,
  queued_confirmation,
}
use memeval.Engine.Scheduler.Loop.{
  play, process_tape_until, snapshots, blocks_here, process_blocks, process_time,
}
use memeval.Engine.Scheduler.Queues.{equity_point-KeepsQueues}
use memeval.Engine.Scheduler.Work.{queued, head_due, Works, process_blocks-Works}
use memeval.Engine.Scheduler.Due.{TapeDue, Due, at_inf, on_tape, in_queue, on_grid, blocks_here-due}

-- What the tape leaves of an episode, with `less` fewer events.
record Played {Pool : Type 0} (less : ℕ) (w w' : Episode Pool) : Type 0 where
  inclusions : w'.sim.inclusions ≡ w.sim.inclusions
  confirmations : w'.sim.confirmations ≡ w.sim.confirmations
  schedule : w'.sim.schedule ≡ w.sim.schedule
  end_ms : w'.sim.end_ms ≡ w.sim.end_ms
  finished : w'.sim.finished ≡ w.sim.finished
  next_grid : w'.next_grid_ms ≡ w.next_grid_ms
  reporting_grid : w'.reporting_grid_ms ≡ w.reporting_grid_ms
  settlement_tail : w'.settlement_tail_blocks ≡ w.settlement_tail_blocks
  events : length w'.tape + less ≤ length w.tape

idle : {Pool : Type 0} (w : Episode Pool) → Played 0 w w
idle w = record {
  inclusions = refl;
  confirmations = refl;
  schedule = refl;
  end_ms = refl;
  finished = refl;
  next_grid = refl;
  reporting_grid = refl;
  settlement_tail = refl;
  events = omega arith;
}

abbrev first_due : List RelEvent → ℤ → ℕ
first_due [] t = 0
first_due (ev ∷ tape) t = if ltb_ℤ t ev.time_ms then 0 else 1

pub grid_left-step :
    (end_ms next : ℤ) (g : ℕ)
    → 0 < g
    → leb_ℤ next end_ms ≡ true
    → grid_left end_ms (next +ℤ pos g) < grid_left end_ms next
grid_left-step end_ms next g h before = grind int_laws

pub both : (a b : Bool) → (a && b) ≡ true → b ≡ true
both a b h = ground arith

module _ {Pool E : Type 0} (v : Venue Pool E) {X : Type 0} (f : Flow Pool X) where
  play-Played :
      (t : ℤ) (tape : List RelEvent) (w : Episode Pool) {w' : Episode Pool}
      → w.tape ≡ tape
      → play v f t true tape w ≡ ok w'
      → Played (first_due tape t) w w'
  unfolding play
  play-Played t [] w here h = subst (Played 0 w) (ok-injective h) (idle w)
  play-Played t (ev ∷ tape) w here h = elim (Bool-cases (ltb_ℤ t ev.time_ms)) [
    | inl later ↦ rw later (subst (Played 0 w) (ok-injective (rw later at h)) (idle w))
    | inr now ↦
        let (w1, applied, more) = >>=-eq-ok (map_err flow (f.apply ev w)) _ (rw now at h) in
        let k = f.keeps ev w (map_err-ok {F = RunError E X} flow (f.apply ev w) applied) in
        let w2 = record w1 { tape = tape; events_processed = suc w1.events_processed } in
        let ks = play-Played t tape w2 refl more in
        rw now (record {
          inclusions = ks.inclusions ∙ k.inclusions;
          confirmations = ks.confirmations ∙ k.confirmations;
          schedule = ks.schedule ∙ k.schedule;
          end_ms = ks.end_ms ∙ k.end_ms;
          finished = ks.finished ∙ k.finished;
          next_grid = ks.next_grid ∙ k.next_grid;
          reporting_grid = ks.reporting_grid ∙ k.reporting_grid;
          settlement_tail = ks.settlement_tail ∙ k.settlement_tail;
          events = omega (arith, ks.events, ap length here);
        })
  ]

  pub play-reporting_grid :
      (t : ℤ) (tape : List RelEvent) (w : Episode Pool) {w' : Episode Pool}
      → w.tape ≡ tape
      → play v f t true tape w ≡ ok w'
      → w'.reporting_grid_ms ≡ w.reporting_grid_ms
  play-reporting_grid t tape w here h = (play-Played t tape w here h).reporting_grid

  -- What the snapshots of the grid leave, with `less` fewer points.
  record Snapped (less : ℕ) (w w' : Episode Pool) : Type 0 where
    tape : w'.tape ≡ w.tape
    queues : queued w'.sim ≤ queued w.sim
    schedule : w'.sim.schedule ≡ w.sim.schedule
    end_ms : w'.sim.end_ms ≡ w.sim.end_ms
    finished : w'.sim.finished ≡ w.sim.finished
    reporting_grid : w'.reporting_grid_ms ≡ w.reporting_grid_ms
    settlement_tail : w'.settlement_tail_blocks ≡ w.settlement_tail_blocks
    points : grid_left w'.sim.end_ms w'.next_grid_ms + less ≤ grid_left w.sim.end_ms w.next_grid_ms

  abbrev point_due : Episode Pool → ℤ → Bool
  point_due w t = leb_ℤ w.next_grid_ms t && leb_ℤ w.next_grid_ms w.sim.end_ms

  snapshots-Snapped :
      (fuel : ℕ) (w : Episode Pool) (t : ℤ) {w' : Episode Pool}
      → 0 < w.reporting_grid_ms
      → snapshots v f fuel w t ≡ ok w'
      → Snapped (if point_due w t then 1 else 0) w w'
  unfolding snapshots
  snapshots-Snapped zero w t g h = ground arith
  snapshots-Snapped (suc fuel) w t g h = elim (Bool-cases (point_due w t)) [
    | inr over ↦ rw over (
        subst (Snapped 0 w) (ok-injective (rw over at h)) record {
          tape = refl;
          queues = omega arith;
          schedule = refl;
          end_ms = refl;
          finished = refl;
          reporting_grid = refl;
          settlement_tail = refl;
          points = omega arith;
        })
    | inl here ↦
        let (s, valued, more) =
          >>=-eq-ok (map_err raise_venue (equity_point v w.sim w.next_grid_ms grid)) _
            (rw here at h) in
        let k = equity_point-KeepsQueues v w.sim w.next_grid_ms grid (
          map_err-ok {F = RunError E X} raise_venue (equity_point v w.sim w.next_grid_ms grid)
            valued) in
        let w1 = record w { sim = s; next_grid_ms = w.next_grid_ms +ℤ pos w.reporting_grid_ms } in
        let ks = snapshots-Snapped fuel w1 t g more in
        let fewer =
          grid_left-step w.sim.end_ms w.next_grid_ms w.reporting_grid_ms g (both _ _ here) in
        rw here (record {
          tape = ks.tape;
          queues =
              omega (arith, ks.queues, k.confirmations, ap (sum_by queued_inclusion) k.inclusions);
          schedule = ks.schedule ∙ k.schedule;
          end_ms = ks.end_ms ∙ k.end_ms;
          finished = ks.finished ∙ k.finished;
          reporting_grid = ks.reporting_grid;
          settlement_tail = ks.settlement_tail;
          points = omega (
            arith,
            ks.points,
            fewer,
            ap (λ (x : ℤ). grid_left x (w.next_grid_ms +ℤ pos w.reporting_grid_ms)) k.end_ms,
          );
        })
  ]

  -- What a round leaves: less work, and the same end and grid.
  pub record Rounded (w w' : Episode Pool) : Type 0 where
    pub work : work_left w' < work_left w
    pub end_ms : w'.sim.end_ms ≡ w.sim.end_ms
    pub finished : w'.sim.finished ≡ w.sim.finished
    pub schedule : w'.sim.schedule ≡ w.sim.schedule
    pub reporting_grid : w'.reporting_grid_ms ≡ w.reporting_grid_ms
    pub settlement_tail : w'.settlement_tail_blocks ≡ w.settlement_tail_blocks

  first_due-on_tape : (tape : List RelEvent) (t : ℤ) → TapeDue tape t → first_due tape t ≡ 1
  first_due-on_tape [] t h = elim h [ ]
  first_due-on_tape (ev ∷ tape) t h = ground arith

  point_due-on_grid :
      (w : Episode Pool) (t : ℤ)
      → w.next_grid_ms ≡ t
      → leb_ℤ w.next_grid_ms w.sim.end_ms ≡ true
      → point_due w t ≡ true
  point_due-on_grid w t h before = ground arith

  -- A part of the work is done: an event, a block or a point of the grid.
  some-Due :
      (w w1 w2 : Episode Pool) (t : ℤ) (blocks : List ℤ) {less : ℕ}
      → Due w t
      → t <ℤ inf
      → Played less w w1
      → blocks_here v w1.sim t ≡ ok blocks
      → w2.sim.end_ms ≡ w1.sim.end_ms
      → w2.next_grid_ms ≡ w1.next_grid_ms
      → 0 < first_due w.tape t + head_due w1.sim blocks + (if point_due w2 t then 1 else 0)
  some-Due w w1 w2 t blocks (at_inf never) before p here e g =
      absurd (omega (arith, parts_eq never))
  some-Due w w1 w2 t blocks (on_tape d) before p here e g =
      omega (arith, first_due-on_tape w.tape t d)
  some-Due w w1 w2 t blocks (in_queue d) before p here e g =
      omega
        (arith, blocks_here-due v w1.sim t here (rw (p.schedule, p.inclusions, p.confirmations) d))
  some-Due w w1 w2 t blocks (on_grid d running) before p here e g =
      let point =
        point_due-on_grid w2 t ((g ∙ p.next_grid) ∙ d)
          (rw (g ∙ p.next_grid, e ∙ p.end_ms) running) in
      rw point (omega arith)

  round_work :
      (w w1 w2 w' : Episode Pool) (t : ℤ) (blocks : List ℤ)
      → Played (first_due w.tape t) w w1
      → Works (head_due w1.sim blocks) w1.sim w2.sim
      → Snapped (if point_due w2 t then 1 else 0) w2 w'
      → w2.tape ≡ w1.tape
      → w2.next_grid_ms ≡ w1.next_grid_ms
      → 0 < first_due w.tape t + head_due w1.sim blocks + (if point_due w2 t then 1 else 0)
      → work_left w' < work_left w
  unfolding work_left
  round_work w w1 w2 w' t blocks p k sn tape next_grid some =
      let left : grid_left w2.sim.end_ms w2.next_grid_ms ≡ grid_left w.sim.end_ms w.next_grid_ms =
        rw (next_grid ∙ p.next_grid, k.end_ms ∙ p.end_ms) in
      omega (
        arith,
        p.events,
        k.work,
        sn.queues,
        sn.points,
        left,
        some,
        ap length tape,
        ap length sn.tape,
        ap (sum_by queued_inclusion) p.inclusions,
        ap (sum_by queued_confirmation) p.confirmations,
      )

  pub process_time-Rounded :
      (w : Episode Pool) (t : ℤ) {w' : Episode Pool}
      → 0 < w.reporting_grid_ms
      → Due w t
      → t <ℤ inf
      → process_time v f w t ≡ ok w'
      → Rounded w w'
  unfolding process_time process_tape_until work_left
  process_time-Rounded w t g d before h =
      let (w1, played, h1) = >>=-eq-ok (process_tape_until v f w t true) _ h in
      let (blocks, here, h2) = >>=-eq-ok (map_err broker (blocks_here v w1.sim t)) _ h1 in
      let (s2, done, h3) = >>=-eq-ok (map_err broker (process_blocks v w1.sim blocks t)) _ h2 in
      let w2 = record w1 { sim = record s2 { now_ms = t } } in
      let p = play-Played t w.tape w refl played in
      let here' = map_err-ok {F = RunError E X} broker (blocks_here v w1.sim t) here in
      let k =
        process_blocks-Works v w1.sim blocks t
          (map_err-ok {F = RunError E X} broker (process_blocks v w1.sim blocks t) done) in
      let sn =
        snapshots-Snapped (suc (grid_left w2.sim.end_ms w2.next_grid_ms)) w2 t
          (rw p.reporting_grid g) h3 in
      let some = some-Due w w1 w2 t blocks d before p here' k.end_ms refl in
      record {
        work =
            round_work w w1 w2 _ t blocks p
              record {
                schedule = k.schedule;
                end_ms = k.end_ms;
                finished = k.finished;
                work = k.work;
              }
              sn refl refl some;
        end_ms = sn.end_ms ∙ (k.end_ms ∙ p.end_ms);
        finished = sn.finished ∙ (k.finished ∙ p.finished);
        schedule = sn.schedule ∙ (k.schedule ∙ p.schedule);
        reporting_grid = sn.reporting_grid ∙ p.reporting_grid;
        settlement_tail = sn.settlement_tail ∙ p.settlement_tail;
      }
