-- ===== src/Engine/Scheduler/Queues.antt =====
-- engine/simulation.py, the time loop: what the calls on orders do to the two queues.
use memeval.Prelude.{
  ℕ, ◌+◌, ◌*◌, ◌≤◌, ◌≡◌, refl, inl, inr, String, Option-cases, List, [], ◌∷◌, ◌++◌, length,
  length-append, Result, ok, map_err, map_err-ok, ok-injective, ◌∙◌, >>=-eq-ok, nat_eq, arith,
}
use memeval.Prelude.Int.{ℤ, pos_part, int_eq}
use memeval.Prelude.Dict.{Dict, get, get_or, put}
use memeval.Prelude.Dict.Sum.{sum_by, sum_by-put, measure_at-some, measure_at-none}
use memeval.Engine.Venue.{Venue}
use memeval.Broker.Ledger.{Cause, Ledger, LedgerEntry, fill, post}
use memeval.Domain.Status.{OrderState}
use memeval.Broker.Orders.{Order}
use memeval.Broker.Orders.Settlement.{release_order, revert_order, confirm_order}
use memeval.Engine.Simulation.{
  Simulation, BrokerError, PointSource, venue_error, ledger_error, ledger_event,
}
use memeval.Engine.Simulation.Valuation.{value_portfolio, equity_point}
use memeval.Engine.Simulation.Inclusion.{
  Verdict, skip, expired, unfit, revert, filled, verdict, carry_out, fill_order, record_fill,
  release_as, revert_as, include, confirm_at, fill_legs,
}
use memeval.Engine.Scheduler.{queued_confirmation}
use memeval.Engine.Scheduler.Loop.{order_at, include_all, confirm_all}

-- What a call on one order leaves alone, and that it adds one order at most to the confirmations.
pub record KeepsQueues {Pool : Type 0} (more : ℕ) (s s' : Simulation Pool) : Type 0 where
  pub inclusions : s'.inclusions ≡ s.inclusions
  pub schedule : s'.schedule ≡ s.schedule
  pub end_ms : s'.end_ms ≡ s.end_ms
  pub finished : s'.finished ≡ s.finished
  pub confirmations :
      sum_by queued_confirmation s'.confirmations
      ≤ sum_by queued_confirmation s.confirmations + more

kept :
    {Pool E : Type 0} {more : ℕ} {s a s' : Simulation Pool}
    → KeepsQueues more s a
    → Path (Result E (Simulation Pool)) (ok a) (ok s')
    → KeepsQueues more s s'
kept k same = rw (ok-injective same) at k

-- A call that writes neither queue.
same_queues :
    {Pool : Type 0} (more : ℕ) (s s' : Simulation Pool)
    → s'.inclusions ≡ s.inclusions
    → s'.schedule ≡ s.schedule
    → s'.end_ms ≡ s.end_ms
    → s'.finished ≡ s.finished
    → s'.confirmations ≡ s.confirmations
    → KeepsQueues more s s'
same_queues more s s' i sch en fin c = record {
  inclusions = i;
  schedule = sch;
  end_ms = en;
  finished = fin;
  confirmations = rw c (omega arith);
}

-- An order that joins a block of the confirmations.
joins :
    (d : Dict ℤ (List ℕ)) (b : ℤ) (n : ℕ)
    → sum_by queued_confirmation (put d b (get_or d b [] ++ n ∷ []))
      ≤ sum_by queued_confirmation d + 2
joins d b n =
    let ns = get_or d b [] in
    let written = sum_by-put queued_confirmation d b (ns ++ n ∷ []) in
    let longer = length-append ns (n ∷ []) in
    elim (Option-cases (get d b)) [
      | inl free ↦ ground (arith, written, longer, measure_at-none queued_confirmation d b free)
      | inr (ms, taken) ↦
          ground (arith, written, longer, measure_at-some queued_confirmation d b taken)
    ]

module _ {Pool E : Type 0} (v : Venue Pool E) where
  -- A valuation adds an equity point only.
  pub equity_point-KeepsQueues :
      (s : Simulation Pool) (t : ℤ) (source : PointSource) {s' : Simulation Pool}
      → equity_point v s t source ≡ ok s'
      → KeepsQueues 0 s s'
  unfolding equity_point
  equity_point-KeepsQueues s t source h =
      let (r, _, same) = >>=-eq-ok (value_portfolio v s t) _ h in
      kept (same_queues 0 s _ refl refl refl refl refl) same

  fill_order-KeepsQueues :
      (s : Simulation Pool) (n : ℕ) (o : Order) (block t : ℤ) (p : Pool) (out : ℤ)
      {s' : Simulation Pool}
      → fill_order v s n o block t p out ≡ ok s'
      → KeepsQueues 2 s s'
  unfolding fill_order record_fill
  fill_order-KeepsQueues s n o block t p out h =
      let posting : Result (BrokerError E) (Ledger × LedgerEntry) = map_err ledger_error (
        post s.ledger t fill o.order_id (fill_legs s.numeraire o (pos_part out))
          "included and filled; awaiting confirmation") in
      let ((after, i), _, valued) = >>=-eq-ok posting _ h in
      let s1 = record_fill v s n o block t p (pos_part out) after in
      let k =
        equity_point-KeepsQueues s1 t ledger_event
          (map_err-ok {F = BrokerError E} venue_error (equity_point v s1 t ledger_event) valued) in
      record {
        inclusions = k.inclusions;
        schedule = k.schedule;
        end_ms = k.end_ms;
        finished = k.finished;
        confirmations = omega (arith, k.confirmations, joins s.confirmations _ n);
      }

  release_as-KeepsQueues :
      (s : Simulation Pool) (n : ℕ) (o : Order) (t : ℤ) (cause : Cause) (note : String)
      (state : OrderState) (reason : String) {s' : Simulation Pool}
      → release_as v s n o t cause note state reason ≡ ok s'
      → KeepsQueues 2 s s'
  unfolding release_as
  release_as-KeepsQueues s n o t cause note state reason h =
      let (after, _, same) =
        >>=-eq-ok (map_err ledger_error (release_order s.numeraire s.ledger o t cause note)) _ h in
      kept (same_queues 2 s _ refl refl refl refl refl) same

  carry_out-KeepsQueues :
      (w : Verdict Pool) (s : Simulation Pool) (n : ℕ) (o : Order) (block t : ℤ)
      {s' : Simulation Pool}
      → carry_out v w s n o block t ≡ ok s'
      → KeepsQueues 2 s s'
  unfolding carry_out revert_as
  carry_out-KeepsQueues skip s n o block t ran =
      kept (same_queues 2 s s refl refl refl refl refl) ran
  carry_out-KeepsQueues expired s n o block t ran = release_as-KeepsQueues s n o t _ _ _ _ ran
  carry_out-KeepsQueues (unfit note reason) s n o block t ran =
      release_as-KeepsQueues s n o t _ _ _ _ ran
  carry_out-KeepsQueues (revert reason) s n o block t ran =
      let ((after, o'), _, same) =
        >>=-eq-ok (map_err ledger_error (revert_order s.numeraire s.ledger o t block reason)) _
          ran in
      kept (same_queues 2 s _ refl refl refl refl refl) same
  carry_out-KeepsQueues (filled p out) s n o block t ran =
      fill_order-KeepsQueues s n o block t p out ran

  include-KeepsQueues :
      (s : Simulation Pool) (n : ℕ) (o : Order) (block t : ℤ) {s' : Simulation Pool}
      → include v s n o block t ≡ ok s'
      → KeepsQueues 2 s s'
  unfolding include
  include-KeepsQueues s n o block t h =
      let (w, _, ran) = >>=-eq-ok (verdict v s o t) _ h in carry_out-KeepsQueues w s n o block t ran

  confirm_at-KeepsQueues :
      (s : Simulation Pool) (n : ℕ) (o : Order) (t : ℤ) {s' : Simulation Pool}
      → confirm_at {E = E} s n o t ≡ ok s'
      → KeepsQueues 0 s s'
  unfolding confirm_at
  confirm_at-KeepsQueues s n o t h =
      let confirmed : Result (BrokerError E) (Ledger × Order) =
        map_err ledger_error (confirm_order s.ledger o t) in
      let ((after, o'), _, same) = >>=-eq-ok confirmed _ h in
      kept (same_queues 0 s _ refl refl refl refl refl) same

  pub include_all-KeepsQueues :
      (s : Simulation Pool) (ns : List ℕ) (block t : ℤ) {s' : Simulation Pool}
      → include_all v s ns block t ≡ ok s'
      → KeepsQueues (2 * length ns) s s'
  unfolding include_all
  include_all-KeepsQueues s [] block t h = kept (same_queues 0 s s refl refl refl refl refl) h
  include_all-KeepsQueues s (n ∷ ns) block t h =
      let (o, _, h') = >>=-eq-ok (order_at v s n) _ h in
      let (s1, one, more) = >>=-eq-ok (include v s n o block t) _ h' in
      let k = include-KeepsQueues s n o block t one in
      let ks = include_all-KeepsQueues s1 ns block t more in
      record {
        inclusions = ks.inclusions ∙ k.inclusions;
        schedule = ks.schedule ∙ k.schedule;
        end_ms = ks.end_ms ∙ k.end_ms;
        finished = ks.finished ∙ k.finished;
        confirmations = omega (arith, k.confirmations, ks.confirmations);
      }

  pub confirm_all-KeepsQueues :
      (s : Simulation Pool) (ns : List ℕ) (t : ℤ) {s' : Simulation Pool}
      → confirm_all v s ns t ≡ ok s'
      → KeepsQueues 0 s s'
  unfolding confirm_all
  confirm_all-KeepsQueues s [] t h = kept (same_queues 0 s s refl refl refl refl refl) h
  confirm_all-KeepsQueues s (n ∷ ns) t h =
      let (o, _, h') = >>=-eq-ok (order_at v s n) _ h in
      let (s1, one, more) = >>=-eq-ok (confirm_at {E = E} s n o t) _ h' in
      let k = confirm_at-KeepsQueues s n o t one in
      let ks = confirm_all-KeepsQueues s1 ns t more in
      record {
        inclusions = ks.inclusions ∙ k.inclusions;
        schedule = ks.schedule ∙ k.schedule;
        end_ms = ks.end_ms ∙ k.end_ms;
        finished = ks.finished ∙ k.finished;
        confirmations = omega (arith, k.confirmations, ks.confirmations);
      }
