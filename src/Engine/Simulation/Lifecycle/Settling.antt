-- ===== src/Engine/Simulation/Lifecycle/Settling.antt =====
-- engine/simulation.py, `_include`: what one call leaves of the ledger and the store.
use Prim.Native.String.{◌++◌ as text_append}
use memeval.Prelude.{
  ℕ, ◌≡◌, refl, inl, inr, String, true, false, some, ok, Result-cases, >>=-eq-ok, arith,
  if◌then◌else◌, ◌==◌, nat_eq,
}
use memeval.Prelude.Int.{ℤ, pos_part, ◌+ℤ◌}
use memeval.Prelude.Dict.{get, get-put_self, get-put_ne}
use memeval.Domain.Status.{OrderState}
use memeval.Broker.Ledger.{balance, Cause, release, expire, posted, revert_gas, fill}
use memeval.Broker.Ledger.Accounts.{agent_available, sink_gas, is_agent}
use memeval.Broker.Orders.{Order, transition}
use memeval.Broker.Orders.Settlement.{release_order, revert_order, is_filled}
use memeval.Engine.Venue.{Venue}
use memeval.Engine.Simulation.{Simulation, PointSource, ledger_event}
use memeval.Engine.Simulation.Valuation.{equity_point, value_portfolio}
use memeval.Engine.Simulation.Inclusion.{
  Verdict, skip, expired, unfit, revert, filled, is_pending, fill_legs, filled_order,
  confirmation_block, record_fill, fill_order, release_as, revert_as, carry_out, verdict, include,
}
use memeval.Engine.Simulation.Backing.Postings.{return-IsBacked, fill-IsBacked}
use memeval.Engine.Simulation.Lifecycle.{
  Step, run_out, turn_down, turn_back, fill_in, SimIsBacked, Yields,
}
use memeval.Engine.Simulation.Lifecycle.Deciding.{MeetsTerms, IsFair, verdict-IsFair}

from_pending :
    (a b : OrderState) → is_pending a ≡ true → Step OrderState.pending_inclusion b → Step a b
from_pending a b pending step =
    let same : a ≡ OrderState.pending_inclusion = ground arith in rw same step

module _ {Pool E : Type 0} (v : Venue Pool E) where
  -- The order is not pending any more, and where this call filled it, it was by its terms.
  pub record IsIncluded (s : Simulation Pool) (o : Order) (t : ℤ) (o' : Order) : Type 0 where
    pub idle : is_pending o'.state ≡ false
    pub terms :
        is_pending o.state ≡ true
        → is_filled o'.state ≡ true
        → (q : Pool) × (out : ℤ) × MeetsTerms v s o t q out × (o'.amount_out ≡ some (pos_part out))

  release_as-Yields :
      (s : Simulation Pool) (n : ℕ) (o : Order) (t : ℤ) (cause : Cause) (note : String)
      (state : OrderState) (reason : String)
      → SimIsBacked s
      → get s.orders n ≡ some o
      → is_pending o.state ≡ true
      → is_pending state ≡ false
      → is_filled state ≡ false
      → Step o.state state
      → Yields (IsIncluded s o t) s n o (release_as v s n o t cause note state reason)
  unfolding release_as release_order transition balance
  release_as-Yields s n o t cause note state reason b at pending idle unfilled step =
      let o' = transition o t state (some reason) in
      let (ran, backed) =
        return-IsBacked s.numeraire s.ledger s.orders n o t cause agent_available note o' b at
          pending idle unfilled refl refl (inr (b.available s.numeraire)) in
      rw ran (record {
        after = o';
        stored = get-put_self s.orders n o';
        others = λ m. get-put_ne s.orders n m o';
        numbered = refl;
        evolved = inr step;
        backed = backed;
        ends = record { idle = idle; terms = λ _ full. ground arith };
      })

  revert_as-Yields :
      (s : Simulation Pool) (n : ℕ) (o : Order) (block t : ℤ) (reason : String)
      → SimIsBacked s
      → get s.orders n ≡ some o
      → is_pending o.state ≡ true
      → Yields (IsIncluded s o t) s n o (revert_as v s n o block t reason)
  unfolding revert_as revert_order transition is_agent
  revert_as-Yields s n o block t reason b at pending =
      let charged : Order =
        (if o.reserved_gas == 0 then o else record o { gas_charged = o.reserved_gas }) in
      let o' =
        transition (record charged { fill_block = some block; fill_time_ms = some t }) t
          OrderState.reverted (some reason) in
      let (ran, backed) =
        return-IsBacked s.numeraire s.ledger s.orders n o t revert_gas sink_gas
          (text_append "reverted: " reason) o' b at pending refl refl refl refl (inl refl) in
      rw ran (record {
        after = o';
        stored = get-put_self s.orders n o';
        others = λ m. get-put_ne s.orders n m o';
        numbered = refl;
        evolved = inr (from_pending o.state OrderState.reverted pending turn_back);
        backed = backed;
        ends = record { idle = refl; terms = λ _ full. ground arith };
      })

  -- A valuation writes nothing but its equity point.
  pub equity_point-keeps :
      (s : Simulation Pool) (t : ℤ) (source : PointSource) {s' : Simulation Pool}
      → equity_point v s t source ≡ ok s'
      → (s'.numeraire ≡ s.numeraire)
        × (s'.ledger ≡ s.ledger)
        × (s'.orders ≡ s.orders)
        × (s'.order_seq ≡ s.order_seq)
  unfolding equity_point
  equity_point-keeps s t source h =
      let (r, _, same) = >>=-eq-ok (value_portfolio v s t) _ h in ground arith

  fill_order-Yields :
      (s : Simulation Pool) (n : ℕ) (o : Order) (block t : ℤ) (q : Pool) (out : ℤ)
      → SimIsBacked s
      → get s.orders n ≡ some o
      → is_pending o.state ≡ true
      → MeetsTerms v s o t q out
      → Yields (IsIncluded s o t) s n o (fill_order v s n o block t q out)
  unfolding fill_order record_fill filled_order transition
  fill_order-Yields s n o block t q out b at pending terms =
      let cb = confirmation_block s.schedule (block +ℤ s.params.confirm_blocks) in
      let o' = filled_order o (pos_part out) block t cb in
      let (ran, backed) =
        fill-IsBacked s.numeraire s.ledger s.orders n o t (pos_part out)
          "included and filled; awaiting confirmation" o' b at pending refl refl refl
          (ground arith) in
      elim (Result-cases (
        equity_point v
          (record_fill v s n o block t q (pos_part out) (
            posted s.ledger t fill o.order_id (fill_legs s.numeraire o (pos_part out))
              "included and filled; awaiting confirmation"))
          t ledger_event)) [
            | inr (e, failed) ↦ rw (ran, failed) refl
            | inl (s', valued) ↦
                let (num_kept, ledger_kept, orders_kept, seq_kept) =
                  equity_point-keeps _ t ledger_event valued in
                rw (ran, valued)
                  (record {
                    after = o';
                    stored = rw orders_kept (get-put_self s.orders n o');
                    others = λ m ne. rw orders_kept (get-put_ne s.orders n m o' ne);
                    numbered = seq_kept;
                    evolved = inr (
                        from_pending o.state OrderState.filled_pending_confirmation pending
                          fill_in);
                    backed = rw (num_kept, ledger_kept, orders_kept) backed;
                    ends = record { idle = refl; terms = λ _ _. (q, out, terms, refl) };
                  })
          ]

  carry_out-Yields :
      (w : Verdict Pool) (s : Simulation Pool) (n : ℕ) (o : Order) (block t : ℤ)
      → SimIsBacked s
      → get s.orders n ≡ some o
      → IsFair v s o t (ok w)
      → Yields (IsIncluded s o t) s n o (carry_out v w s n o block t)
  unfolding carry_out IsFair
  carry_out-Yields skip s n o block t b at idle = record {
    after = o;
    stored = at;
    others = λ m _. refl;
    numbered = refl;
    evolved = inl refl;
    backed = b;
    ends = record { idle = idle; terms = λ pending _. ground arith };
  }
  carry_out-Yields expired s n o block t b at (pending, _) =
      release_as-Yields s n o t expire "deadline passed before inclusion" OrderState.expired
        "deadline passed before inclusion" b at pending refl refl
        (from_pending o.state OrderState.expired pending run_out)
  carry_out-Yields (unfit note reason) s n o block t b at (pending, _) =
      release_as-Yields s n o t release note OrderState.model_capacity_rejected reason b at pending
        refl refl (from_pending o.state OrderState.model_capacity_rejected pending turn_down)
  carry_out-Yields (revert reason) s n o block t b at (pending, _) =
      revert_as-Yields s n o block t reason b at pending
  carry_out-Yields (filled q out) s n o block t b at (pending, terms) =
      fill_order-Yields s n o block t q out b at pending terms

  -- An inclusion on a backed state returns a backed state, in which the order is not pending any more
  -- and has taken one step at most, or it raises an error of the venue: the ledger refuses none of its
  -- postings, and the swap pays what was quoted.
  pub include-Yields :
      (s : Simulation Pool) (n : ℕ) (o : Order) (block t : ℤ)
      → SimIsBacked s
      → get s.orders n ≡ some o
      → Yields (IsIncluded s o t) s n o (include v s n o block t)
  unfolding include IsFair
  include-Yields s n o block t b at =
      let fair = (verdict-IsFair v s o t).2 in
      elim (Result-cases (verdict v s o t)) [
        | inl (w, h) ↦ rw h (carry_out-Yields w s n o block t b at (rw h at fair))
        | inr (e, h) ↦ rw h (rw h at fair).2
      ]
