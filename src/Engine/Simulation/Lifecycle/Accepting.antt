-- ===== src/Engine/Simulation/Lifecycle/Accepting.antt =====
-- engine/simulation.py, `submit`: the ways in which a call can end.
use memeval.Prelude.{
  ℕ, ◌∙◌, ◌+◌, ◌≡◌, ◌≢◌, refl, inl, inr, String, Bool, true, false, Bool-cases, none, some,
  Option-cases, List, Result, ok, err, Result-cases, arith, str_eq, eq_iff, nat_eq, string_eq,
}
use memeval.Prelude.Int.{ℤ, pos_part}
use memeval.Prelude.Dict.{get, get-put_self, get-put_ne}
use memeval.Domain.Status.{idempotency_conflict, insufficient_funds, episode_ended}
use memeval.Broker.Ledger.{Ledger, Leg, LedgerEntry, post, reserve}
use memeval.Broker.Orders.{Order}
use memeval.Engine.Venue.{Venue}
use memeval.Engine.Simulation.{Simulation, BrokerError, rejected, assertion_error}
use memeval.Engine.Simulation.Numbering.{order_id_of}
use memeval.Engine.Simulation.Submission.{
  Payload, Request, payload_of, needs, new_order, reserve_legs, check_order, slot, enqueue,
  place_order, submit_new, submit,
}
use memeval.Engine.Simulation.Lifecycle.{IsSound}
use memeval.Engine.Simulation.Lifecycle.Submitting.{enqueue-IsBacked}

module _ {Pool E : Type 0} (v : Venue Pool E) (payload_hash : Payload → String) where
  -- How a call of `submit` ends: refused, before or after a number was taken; with the order that its key
  -- stands for; or with a new order, whose amounts are reserved.
  pub data Submitted (s : Simulation Pool) (r : Request)
      : Simulation Pool × Result (BrokerError E) (ℕ × Bool) → Type 0 where
    refused : (e : BrokerError E) → Submitted s r (s, err e)
    used_up : (e : BrokerError E) → Submitted s r (record s { order_seq = s.order_seq + 1 }, err e)
    repeated :
        (n : ℕ) (o : Order)
        → get s.orders_by_key r.idempotency_key ≡ some n
        → get s.orders n ≡ some o
        → str_eq o.payload_hash (payload_hash (payload_of r)) ≡ true
        → Submitted s r (s, ok (n, false))
    placed :
        (legs : List Leg) (after : Ledger) (entry : LedgerEntry) (block time : ℤ)
        → get s.orders_by_key r.idempotency_key ≡ none
        → check_order v payload_hash s r ≡ ok tt
        → slot v payload_hash s ≡ ok (block, time)
        → reserve_legs s.ledger (needs r.asset_in (pos_part r.amount_in) s.numeraire s.gas_cost)
          ≡ some legs
        → post s.ledger s.now_ms reserve
            (order_id_of (s.order_seq + 1))
            legs
            "principal + gas allowance reserved"
          ≡ ok (after, entry)
        → Submitted s r (
          enqueue v payload_hash s r after (s.order_seq + 1) block time,
          ok (s.order_seq + 1, true),
        )

  pub submit-Submitted :
      (s : Simulation Pool) (r : Request) → Submitted s r (submit v payload_hash s r)
  unfolding submit submit_new place_order
  submit-Submitted s r = elim (Option-cases (get s.orders_by_key r.idempotency_key)) [
    | inr (n, known) ↦ elim (Option-cases (get s.orders n)) [
      | inl lost ↦ rw (submit, known, lost) (refused assertion_error)
      | inr (o, found) ↦ elim (Bool-cases (str_eq o.payload_hash (payload_hash (payload_of r)))) [
        | inl same ↦ rw (submit, known, found, same) (repeated n o known found same)
        | inr other ↦ rw (submit, known, found, other) (refused (rejected idempotency_conflict))
      ]
    ]
    | inl new ↦ elim (Result-cases (check_order v payload_hash s r)) [
      | inr (e, failed) ↦ rw (submit, new, submit_new, failed) (refused e)
      | inl (_, passed) ↦
          elim (Option-cases (
            reserve_legs s.ledger
              (needs r.asset_in (pos_part r.amount_in) s.numeraire s.gas_cost))) [
                | inl short ↦
                    rw (submit, new, submit_new, passed, short)
                      (refused (rejected insufficient_funds))
                | inr (legs, reserved) ↦ elim (Result-cases (slot v payload_hash s)) [
                  | inr (e, late) ↦
                      rw (submit, new, submit_new, passed, reserved, place_order, late)
                        (used_up (rejected episode_ended))
                  | inl ((block, time), at) ↦
                      elim (Result-cases (
                        post s.ledger s.now_ms reserve (order_id_of (s.order_seq + 1)) legs
                          "principal + gas allowance reserved")) [
                            | inr (e, short) ↦
                                rw
                                  (
                                    submit, new, submit_new, passed, reserved, place_order, at,
                                    short,
                                  )
                                  (used_up (rejected insufficient_funds))
                            | inl ((after, entry), ran) ↦
                                rw (submit, new, submit_new, passed, reserved, place_order, at, ran)
                                  (placed legs after entry block time new passed at reserved ran)
                          ]
                ]
              ]
    ]
  ]

  Submitted-IsSound :
      (s : Simulation Pool) (r : Request) (p : Simulation Pool × Result (BrokerError E) (ℕ × Bool))
      → IsSound s
      → Submitted s r p
      → IsSound p.0
  unfolding enqueue
  Submitted-IsSound s r p h (refused e) = h
  Submitted-IsSound s r p h (used_up e) = record {
    backed = h.backed;
    numbered = λ m below. h.numbered m (omega arith);
  }
  Submitted-IsSound s r p h (repeated n o known found same) = h
  Submitted-IsSound s r p h (placed legs after entry block time new passed at reserved ran) =
      record {
        backed =
            enqueue-IsBacked v payload_hash s r legs block time h.backed h.numbered reserved ran;
        numbered = λ m below.
            let other : s.order_seq + 1 ≢ m = omega arith in
            get-put_ne s.orders (s.order_seq + 1) m _ other ∙ h.numbered m (omega arith);
      }

  -- Every submission keeps a sound state sound.
  pub submit-IsSound :
      (s : Simulation Pool) (r : Request) → IsSound s → IsSound (submit v payload_hash s r).0
  submit-IsSound s r h = Submitted-IsSound s r _ h (submit-Submitted s r)

  -- What a call returned, asked for once more.
  Repeats : Request → Simulation Pool × Result (BrokerError E) (ℕ × Bool) → Type 0
  Repeats r (s', ok (n, _)) = submit v payload_hash s' r ≡ (s', ok (n, false))
  Repeats r (s', err _) = Unit

  Submitted-Repeats :
      (s : Simulation Pool) (r : Request) (p : Simulation Pool × Result (BrokerError E) (ℕ × Bool))
      → Submitted s r p
      → Repeats r p
  unfolding submit Repeats enqueue
  Submitted-Repeats s r p (refused e) = tt
  Submitted-Repeats s r p (used_up e) = tt
  Submitted-Repeats s r p (repeated n o known found same) = rw (submit, known, found, same) refl
  Submitted-Repeats s r p (placed legs after entry block time new passed at reserved ran) =
      let n = s.order_seq + 1 in
      let o = new_order s r (payload_hash (payload_of r)) n block time in
      rw
        (
          submit,
          get-put_self s.orders_by_key r.idempotency_key n,
          get-put_self s.orders n o,
          new_order,
          (eq_iff (payload_hash (payload_of r)) (payload_hash (payload_of r))).1 refl,
        )
        refl

  -- A request that was answered with an order is answered with that order when it is repeated, as one
  -- that is not new, and the state stays as it is.
  pub submit-submit :
      (s : Simulation Pool) (r : Request) {s' : Simulation Pool} {n : ℕ} {new : Bool}
      → submit v payload_hash s r ≡ (s', ok (n, new))
      → submit v payload_hash s' r ≡ (s', ok (n, false))
  unfolding Repeats
  submit-submit s r h = let again = Submitted-Repeats s r _ (submit-Submitted s r) in rw h at again

  -- What a refused submission leaves is the state before it, but for the sequence number.
  abbrev IsUntouched :
      Simulation Pool → Simulation Pool × Result (BrokerError E) (ℕ × Bool) → Type 0
  IsUntouched s (s', ok _) = Unit
  IsUntouched s (s', err _) = s' ≡ record s { order_seq = s'.order_seq }

  Submitted-IsUntouched :
      (s : Simulation Pool) (r : Request) (p : Simulation Pool × Result (BrokerError E) (ℕ × Bool))
      → Submitted s r p
      → IsUntouched s p
  Submitted-IsUntouched s r p (refused e) = refl
  Submitted-IsUntouched s r p (used_up e) = refl
  Submitted-IsUntouched s r p (repeated n o known found same) = tt
  Submitted-IsUntouched s r p (placed legs after entry block time new passed at reserved ran) = tt

  -- A submission that is refused changes nothing but the sequence number of orders.
  pub submit_refused :
      (s : Simulation Pool) (r : Request) {s' : Simulation Pool} {e : BrokerError E}
      → submit v payload_hash s r ≡ (s', err e)
      → s' ≡ record s { order_seq = s'.order_seq }
  submit_refused s r h =
      let kept = Submitted-IsUntouched s r _ (submit-Submitted s r) in rw h at kept
