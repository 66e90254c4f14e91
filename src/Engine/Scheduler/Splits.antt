-- ===== src/Engine/Scheduler/Splits.antt =====
-- engine/simulation.py, the time loop: a stop on the way to a later time.
use mathlib.Core.Path.{subst}
use memeval.Prelude.{
  ℕ, zero, suc, ◌<◌, ◌≡◌, refl, inl, inr, Bool-cases, false, Result, ok, err, map_err, map_err-ok,
  ◌>>=◌, >>=-eq-ok, ok-injective, arith,
}
use memeval.Prelude.Int.{ℤ, ◌<ℤ◌, ◌≤ℤ◌, ltb_ℤ}
use memeval.Engine.Venue.{Venue}
use memeval.Engine.Simulation.Routes.{inf}
use memeval.Engine.Scheduler.{raise_schedule, Episode, Flow, RunError, work_left, next_event_time}
use memeval.Engine.Scheduler.Loop.{process_time, advance}
use memeval.Engine.Scheduler.Due.{next_event_time-Due}
use memeval.Engine.Scheduler.Rounds.{process_time-Rounded}

-- Two sequences that go on alike from what the first call returns.
>>=-congr :
    {E A B : Type 0} (m : Result E A) (k k' : A → Result E B)
    → ((a : A) → m ≡ ok a → k a ≡ k' a)
    → (m >>= k) ≡ (m >>= k')
>>=-congr (ok a) k k' h = h a refl
>>=-congr (err e) k k' h = refl

module _ {Pool E : Type 0} (v : Venue Pool E) {X : Type 0} (f : Flow Pool X) where
  -- More fuel than the work that is left gives nothing else.
  advance-fuel :
      (n m : ℕ) (w : Episode Pool) (target : ℤ)
      → 0 < w.reporting_grid_ms
      → target <ℤ inf
      → work_left w < n
      → work_left w < m
      → advance v f n w target ≡ advance v f m w target
  unfolding advance
  advance-fuel zero m w target g last hn hm = absurd (omega arith)
  advance-fuel (suc n) zero w target g last hn hm = absurd (omega arith)
  advance-fuel (suc n) (suc m) w target g last hn hm =
      >>=-congr (map_err raise_schedule (next_event_time w)) _ _ λ nxt ran.
        elim (Bool-cases (ltb_ℤ target nxt)) [
          | inl over ↦ rw over refl
          | inr due ↦
              let d =
                next_event_time-Due w
                  (map_err-ok {F = RunError E X} raise_schedule (next_event_time w) ran) in
              let before : nxt <ℤ inf = ground arith in
              rw due (
                >>=-congr (process_time v f w nxt) _ _ λ w1 round.
                  let k = process_time-Rounded v f w nxt g d before round in
                  advance-fuel n m w1 target (rw k.reporting_grid g) last (omega (arith, k.work))
                    (omega (arith, k.work)))
        ]

  advance-from :
      (n : ℕ) (w : Episode Pool) (a b : ℤ) {w1 : Episode Pool}
      → 0 < w.reporting_grid_ms
      → a ≤ℤ b
      → b <ℤ inf
      → work_left w < n
      → advance v f n w a ≡ ok w1
      → advance v f n w b ≡ advance v f (suc (work_left w1)) w1 b
  unfolding advance
  advance-from zero w a b g ab last hn h = absurd (omega arith)
  advance-from (suc n) w a b {w1} g ab last hn h =
      let (nxt, ran, h1) = >>=-eq-ok (map_err raise_schedule (next_event_time w)) _ h in
      elim (Bool-cases (ltb_ℤ a nxt)) [
        | inl over ↦
            let same = ok-injective (rw over at h1) in
            subst (λ x. advance v f (suc n) w b ≡ advance v f (suc (work_left x)) x b) same
              (advance-fuel (suc n) (suc (work_left w)) w b g last hn (omega arith))
        | inr due ↦
            let (w2, round, more) = >>=-eq-ok (process_time v f w nxt) _ (rw due at h1) in
            let at = map_err-ok {F = RunError E X} raise_schedule (next_event_time w) ran in
            let due' : ltb_ℤ b nxt ≡ false = ground arith in
            let before : nxt <ℤ inf = ground arith in
            let k = process_time-Rounded v f w nxt g (next_event_time-Due w at) before round in
            rw (at, due', round)
              (advance-from n w2 a b (rw k.reporting_grid g) ab last (omega (arith, k.work)) more)
      ]

  -- With a positive reporting interval, the loop of process_until that is run to a first time and from
  -- there to a later one, which is below the time that stands for "never", ends as the loop that is run to
  -- the later one at once.
  pub advance-advance :
      (w : Episode Pool) (a b : ℤ) {w1 : Episode Pool}
      → 0 < w.reporting_grid_ms
      → a ≤ℤ b
      → b <ℤ inf
      → advance v f (suc (work_left w)) w a ≡ ok w1
      → advance v f (suc (work_left w)) w b ≡ advance v f (suc (work_left w1)) w1 b
  advance-advance w a b g ab last h =
      advance-from (suc (work_left w)) w a b g ab last (omega arith) h
