-- ===== src/Engine/Simulation/Lifecycle/Runs.antt =====
-- engine/simulation.py: sequences of calls on the broker and of the handlers that the time loop calls for
-- an order, in any order and at any times, and what holds of every state that they reach.
use memeval.Prelude.{
  ℕ, ◌≡◌, ◌≢◌, refl, ◌∙◌, sym, inl, inr, ◌<◌, String, Bool, Bool-cases, some, Result, ok,
  ok-injective, nat_eq, arith, ◌==◌, ◌+◌, string_eq,
}
use memeval.Prelude.Int.{ℤ}
use memeval.Prelude.Dict.{get, get-put_ne}
use memeval.Domain.Status.{OrderState}
use memeval.Broker.Orders.{Order, Quote}
use memeval.Engine.Venue.{Venue}
use memeval.Engine.Simulation.{Simulation, BrokerError}
use memeval.Engine.Simulation.Quoting.{quote, quote_writes}
use memeval.Engine.Simulation.Submission.{Payload, Request, submit, enqueue}
use memeval.Engine.Simulation.Inclusion.{include, confirm_at}
use memeval.Engine.Simulation.Lifecycle.{Step, Evolves, IsSound, Outcome}
use memeval.Engine.Simulation.Lifecycle.Settling.{include-Yields}
use memeval.Engine.Simulation.Lifecycle.Confirming.{confirm_at-Confirms}
use memeval.Engine.Simulation.Lifecycle.Accepting.{Submitted, submit-Submitted, submit-IsSound}

-- Steps one after the other.
pub data Steps : OrderState → OrderState → Type 0 where
  rest : {a : OrderState} → Steps a a
  then : {a b c : OrderState} → Steps a b → Step b c → Steps a c

pub evolve : {a b c : OrderState} → Steps a b → Evolves b c → Steps a c
evolve path (inl same) = rw same at path
evolve path (inr step) = then path step

module _ {Pool : Type 0} where
  -- What a call keeps: soundness, and every order, at most one step further.
  pub record Keeps (s s' : Simulation Pool) : Type 0 where
    pub sound : IsSound s'
    pub evolved :
        (m : ℕ) (a : Order)
        → get s.orders m ≡ some a
        → (a' : Order) × (get s'.orders m ≡ some a') × Evolves a.state a'.state

  pub Outcome-Keeps :
      (P : Order → Type 0) (s : Simulation Pool) (n : ℕ) (o : Order) {s' : Simulation Pool}
      → IsSound s
      → get s.orders n ≡ some o
      → Outcome P s n o s'
      → Keeps s s'
  Outcome-Keeps P s n o h at out = record {
    sound = record {
      backed = out.backed;
      numbered = λ m below.
          let up : s.order_seq < m = rw out.numbered at below in
          let free = h.numbered m up in
          let other : n ≢ m = λ e. ground arith in out.others m other ∙ free;
    };
    evolved = λ m a found. elim (Bool-cases (n == m)) [
      | inl same ↦
          let here : n ≡ m = ground arith in
          let it : o ≡ a = ground arith in (out.after, rw here at out.stored, rw it at out.evolved)
      | inr other ↦ let apart : n ≢ m = ground arith in (a, out.others m apart ∙ found, inl refl)
    ];
  }

module _ {Pool E : Type 0} (v : Venue Pool E) (payload_hash : Payload → String) where
  pub data Call (s : Simulation Pool) : Simulation Pool → Type 0 where
    quotes_one :
        (pool_key asset_in : String) (amount : ℤ) {s' : Simulation Pool} {q : Quote}
        → quote v s pool_key asset_in amount ≡ ok (s', q)
        → Call s s'
    submits : (r : Request) → Call s (submit v payload_hash s r).0
    includes :
        (n : ℕ) (o : Order) (block t : ℤ) {s' : Simulation Pool}
        → get s.orders n ≡ some o
        → include v s n o block t ≡ ok s'
        → Call s s'
    confirms :
        (n : ℕ) (o : Order) (t : ℤ) {s' : Simulation Pool}
        → get s.orders n ≡ some o
        → confirm_at {E = E} s n o t ≡ ok s'
        → Call s s'

  pub data Run (s : Simulation Pool) : Simulation Pool → Type 0 where
    start : Run s s
    next : {s' s'' : Simulation Pool} → Run s s' → Call s' s'' → Run s s''

  Submitted-Keeps :
      (s : Simulation Pool) (r : Request) (p : Simulation Pool × Result (BrokerError E) (ℕ × Bool))
      → IsSound s
      → Submitted v payload_hash s r p
      → (m : ℕ) (a : Order) → get s.orders m ≡ some a
      → get p.0.orders m ≡ some a
  unfolding enqueue
  Submitted-Keeps s r p h (Submitted.refused e) m a found = found
  Submitted-Keeps s r p h (Submitted.used_up e) m a found = found
  Submitted-Keeps s r p h (Submitted.repeated n o known at same) m a found = found
  Submitted-Keeps s r p h (Submitted.placed legs after entry block time new passed at reserved ran)
        m a found =
      let free = h.numbered (s.order_seq + 1) (omega arith) in
      let apart : s.order_seq + 1 ≢ m = λ e. ground arith in
      get-put_ne s.orders (s.order_seq + 1) m _ apart ∙ found

  Call-Keeps : {s s' : Simulation Pool} → IsSound s → Call s s' → Keeps s s'
  Call-Keeps {s} h (quotes_one pool_key asset_in amount ran) =
      let same = quote_writes v s pool_key asset_in amount ran in
      rw same (record {
        sound = record { backed = h.backed; numbered = h.numbered };
        evolved = λ m a found. (a, found, inl refl);
      })
  Call-Keeps {s} h (submits r) = record {
    sound = submit-IsSound v payload_hash s r h;
    evolved = λ m a found.
        (a, Submitted-Keeps s r _ h (submit-Submitted v payload_hash s r) m a found, inl refl);
  }
  Call-Keeps {s} h (includes n o block t at ran) =
      let out = include-Yields v s n o block t h.backed at in
      Outcome-Keeps _ s n o h at (rw ran at out)
  Call-Keeps {s} h (confirms n o t at ran) =
      let (s'', ran', out) = confirm_at-Confirms E s n o t h.backed at in
      let same = ok-injective (sym ran' ∙ ran) in Outcome-Keeps _ s n o h at (rw same at out)

  -- From a sound state, every sequence of calls leads to sound states: the reserved account holds what the
  -- pending orders need, the pending account what the filled ones are owed, the available account nothing
  -- negative, and no order's number is above the counter.
  pub run-IsSound : {s s' : Simulation Pool} → IsSound s → Run s s' → IsSound s'
  run-IsSound h start = h
  run-IsSound h (next run call) = (Call-Keeps (run-IsSound h run) call).sound

  -- From a sound state, every sequence of calls takes each order of the store along the steps of an
  -- order's life, and loses none.
  pub run-Steps :
      {s s' : Simulation Pool}
      → IsSound s
      → Run s s'
      → (n : ℕ) (o : Order) → get s.orders n ≡ some o
      → (o' : Order) × (get s'.orders n ≡ some o') × Steps o.state o'.state
  run-Steps h start n o found = (o, found, rest)
  run-Steps h (next run call) n o found =
      let (a, at, path) = run-Steps h run n o found in
      let (a', at', more) = (Call-Keeps (run-IsSound h run) call).evolved n a at in
      (a', at', evolve path more)
