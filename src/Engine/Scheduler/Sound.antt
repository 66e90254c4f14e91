-- ===== src/Engine/Scheduler/Sound.antt =====
-- engine/simulation.py, the time loop: what it keeps of the ledger and of the orders.
use mathlib.Core.Path.{subst}
use memeval.Prelude.{
  ℕ, zero, suc, ◌≡◌, refl, inl, inr, List, [], ◌∷◌, Result, ok, raise_if, map_err, map_err-ok,
  >>=-eq-ok, ok-injective, nat_eq, arith, ◌&&◌, ◌||◌, Bool, Bool-cases, true,
}
use memeval.Prelude.Int.{ℤ, pos, ◌+ℤ◌, leb_ℤ, ltb_ℤ, int_eq}
use memeval.Engine.Tape.{RelEvent}
use memeval.Engine.Venue.{Venue}
use memeval.Engine.Simulation.{grid}
use memeval.Engine.Simulation.Valuation.{equity_point}
use memeval.Engine.Simulation.Lifecycle.{IsSound}
use memeval.Engine.Scheduler.{
  raise_schedule, raise_venue, Episode, Flow, RunError, broker, flow, time_backwards,
  next_event_time, grid_left, work_left, min_ℤ, later_of, is_empty,
}
use memeval.Engine.Scheduler.Returns.{limit_of}
use memeval.Engine.Scheduler.Loop.{
  process_blocks, play, process_tape_until, snapshots, blocks_here, process_time, advance,
  process_until, settle_tail, finish_running, finish, is_past, tail_end_ms,
}
use memeval.Engine.Scheduler.Follows.{
  Follows, if_ok, Follows-refl, Follows-trans, same-Follows, process_blocks-Follows,
  equity_point-Follows,
}

module _ {Pool E : Type 0} (v : Venue Pool E) where
  module _ {X : Type 0} (f : Flow Pool X) where
    play-Follows :
        (t : ℤ) (incl : Bool) (tape : List RelEvent) (w : Episode Pool) {w' : Episode Pool}
        → IsSound w.sim
        → play v f t incl tape w ≡ ok w'
        → Follows w.sim w'.sim
    unfolding play
    play-Follows t incl [] w h ran =
        subst (λ x. Follows w.sim x.sim) (ok-injective ran) (Follows-refl h)
    play-Follows t incl (ev ∷ tape) w h ran = elim (Bool-cases (is_past t incl ev.time_ms)) [
      | inl past ↦ subst (λ x. Follows w.sim x.sim) (ok-injective (rw past at ran)) (Follows-refl h)
      | inr now ↦
          let (w1, applied, more) = >>=-eq-ok (map_err flow (f.apply ev w)) _ (rw now at ran) in
          let same = f.keeps ev w (map_err-ok {F = RunError E X} flow (f.apply ev w) applied) in
          let k =
            same-Follows w.sim w1.sim h same.numeraire same.ledger same.orders same.order_seq in
          let w2 = record w1 { tape = tape; events_processed = suc w1.events_processed } in
          Follows-trans k (play-Follows t incl tape w2 k.sound more)
    ]

    snapshots-Follows :
        (fuel : ℕ) (w : Episode Pool) (t : ℤ) {w' : Episode Pool}
        → IsSound w.sim
        → snapshots v f fuel w t ≡ ok w'
        → Follows w.sim w'.sim
    unfolding snapshots
    snapshots-Follows zero w t h ran = ground arith
    snapshots-Follows (suc fuel) w t h ran =
        elim (Bool-cases (leb_ℤ w.next_grid_ms t && leb_ℤ w.next_grid_ms w.sim.end_ms)) [
          | inr over ↦
              subst (λ x. Follows w.sim x.sim) (ok-injective (rw over at ran)) (Follows-refl h)
          | inl here ↦
              let valued = equity_point v w.sim w.next_grid_ms grid in
              let (s, ran', more) = >>=-eq-ok (map_err raise_venue valued) _ (rw here at ran) in
              let k =
                equity_point-Follows v w.sim w.next_grid_ms grid h
                  (map_err-ok {F = RunError E X} raise_venue valued ran') in
              let w1 = record w {
                sim = s;
                next_grid_ms = w.next_grid_ms +ℤ pos w.reporting_grid_ms;
              } in
              Follows-trans k (snapshots-Follows fuel w1 t k.sound more)
        ]

    process_time-Follows :
        (w : Episode Pool) (t : ℤ) {w' : Episode Pool}
        → IsSound w.sim
        → process_time v f w t ≡ ok w'
        → Follows w.sim w'.sim
    unfolding process_time process_tape_until
    process_time-Follows w t h ran =
        let (w1, played, h1) = >>=-eq-ok (process_tape_until v f w t true) _ ran in
        let (blocks, here, h2) = >>=-eq-ok (map_err broker (blocks_here v w1.sim t)) _ h1 in
        let ending = process_blocks v w1.sim blocks t in
        let (s2, done, h3) = >>=-eq-ok (map_err broker ending) _ h2 in
        let p = play-Follows t true w.tape w h played in
        let k =
          process_blocks-Follows v w1.sim blocks t p.sound
            (map_err-ok {F = RunError E X} broker ending done) in
        let w2 = record w1 { sim = record s2 { now_ms = t } } in
        let now = same-Follows s2 w2.sim k.sound refl refl refl refl in
        let fuel = suc (grid_left w2.sim.end_ms w2.next_grid_ms) in
        Follows-trans p
          (Follows-trans k (Follows-trans now (snapshots-Follows fuel w2 t now.sound h3)))

    advance-Follows :
        (fuel : ℕ) (w : Episode Pool) (target : ℤ) {w' : Episode Pool}
        → IsSound w.sim
        → advance v f fuel w target ≡ ok w'
        → Follows w.sim w'.sim
    unfolding advance
    advance-Follows zero w target h ran = ground arith
    advance-Follows (suc fuel) w target h ran =
        let (nxt, _, h1) = >>=-eq-ok (map_err raise_schedule (next_event_time w)) _ ran in
        elim (Bool-cases (ltb_ℤ target nxt)) [
          | inl over ↦
              subst (λ x. Follows w.sim x.sim) (ok-injective (rw over at h1)) (Follows-refl h)
          | inr due ↦
              let (w1, round, more) = >>=-eq-ok (process_time v f w nxt) _ (rw due at h1) in
              let k = process_time-Follows w nxt h round in
              Follows-trans k (advance-Follows fuel w1 target k.sound more)
        ]

    settle_tail-Follows :
        (fuel : ℕ) (w : Episode Pool) (tail_end : ℤ) {w' : Episode Pool}
        → IsSound w.sim
        → settle_tail v f fuel w tail_end ≡ ok w'
        → Follows w.sim w'.sim
    unfolding settle_tail
    settle_tail-Follows zero w tail_end h ran = ground arith
    settle_tail-Follows (suc fuel) w tail_end h ran =
        let (nxt, _, h1) = >>=-eq-ok (map_err raise_schedule (next_event_time w)) _ ran in
        elim (Bool-cases
          (ltb_ℤ tail_end nxt || is_empty w.sim.inclusions && is_empty w.sim.confirmations)) [
            | inl over ↦
                subst (λ x. Follows w.sim x.sim) (ok-injective (rw over at h1)) (Follows-refl h)
            | inr due ↦
                let (w1, round, more) = >>=-eq-ok (process_time v f w nxt) _ (rw due at h1) in
                let k = process_time-Follows w nxt h round in
                Follows-trans k (settle_tail-Follows fuel w1 tail_end k.sound more)
          ]

    -- What process_until returns from a sound state is sound, and every order that was stored is stored
    -- and has come along the steps of an order's life.
    pub process_until-Follows :
        (w : Episode Pool) (target_ms : ℤ) {w' : Episode Pool}
        → IsSound w.sim
        → process_until v f w target_ms ≡ ok w'
        → Follows w.sim w'.sim
    unfolding process_until
    process_until-Follows w target_ms h ran =
        let target = min_ℤ target_ms (limit_of w) in
        let guarded : Result (RunError E X) Unit =
          raise_if (ltb_ℤ target_ms w.sim.now_ms) time_backwards in
        let (_, _, h1) = >>=-eq-ok guarded _ ran in
        let (w1, moved, same) = >>=-eq-ok (advance v f (suc (work_left w)) w target) _ h1 in
        let k = advance-Follows (suc (work_left w)) w target h moved in
        let s2 = record w1.sim { now_ms = later_of w1.sim.now_ms target } in
        subst (λ x. Follows w.sim x.sim) (ok-injective same)
          (Follows-trans k (same-Follows w1.sim s2 k.sound refl refl refl refl))

    finish_running-Follows :
        (w : Episode Pool) {w' : Episode Pool}
        → IsSound w.sim
        → finish_running v f w ≡ ok w'
        → Follows w.sim w'.sim
    unfolding finish_running
    finish_running-Follows w h ran =
        let (w1, ended, h1) = >>=-eq-ok (process_until v f w w.sim.end_ms) _ ran in
        let k = process_until-Follows w w.sim.end_ms h ended in
        let w2 = record w1 { sim = record w1.sim { finished = true } } in
        let over = same-Follows w1.sim w2.sim k.sound refl refl refl refl in
        let settle = settle_tail v f (suc (work_left w2)) w2 (tail_end_ms w2) in
        let (w3, settled, same) = >>=-eq-ok settle _ h1 in
        let ks = settle_tail-Follows (suc (work_left w2)) w2 (tail_end_ms w2) over.sound settled in
        let s4 = record w3.sim { now_ms = later_of w3.sim.now_ms w3.sim.end_ms } in
        subst (λ x. Follows w.sim x.sim) (ok-injective same)
          (Follows-trans k (
            Follows-trans over
              (Follows-trans ks (same-Follows w3.sim s4 ks.sound refl refl refl refl))))

    -- What finish returns from a sound state is sound, and every order that was stored is stored and has
    -- come along the steps of an order's life.
    pub finish-Follows :
        (w : Episode Pool) {w' : Episode Pool}
        → IsSound w.sim
        → finish v f w ≡ ok w'
        → Follows w.sim w'.sim
    unfolding finish
    finish-Follows w {w'} h ran = elim (if_ok w.sim.finished ran) [
      | inl same ↦ subst (λ x. Follows w.sim x.sim) same (Follows-refl h)
      | inr running ↦ finish_running-Follows w h running
    ]
