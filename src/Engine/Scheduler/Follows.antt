-- ===== src/Engine/Scheduler/Follows.antt =====
-- engine/simulation.py, _process_time: what the blocks of both queues keep of the ledger and of the orders.
use mathlib.Core.Path.{subst}
use memeval.Prelude.{
  ℕ, ◌≡◌, refl, sym, ◌∙◌, inl, inr, some, List, [], ◌∷◌, Result, ok, >>=-eq-ok, ok-injective,
  nat_eq, arith, Bool, if◌then◌else◌, ◌⊎◌, true, false,
}
use memeval.Prelude.Int.{ℤ, int_eq}
use memeval.Prelude.Dict.{get, get_or, remove}
use memeval.Domain.Status.{OrderState}
use memeval.Broker.Orders.{Order}
use memeval.Engine.Venue.{Venue}
use memeval.Engine.Simulation.{Simulation, PointSource}
use memeval.Engine.Simulation.Valuation.{equity_point}
use memeval.Engine.Simulation.Inclusion.{include, confirm_at}
use memeval.Engine.Simulation.Lifecycle.{IsSound}
use memeval.Engine.Simulation.Lifecycle.Settling.{include-Yields, equity_point-keeps}
use memeval.Engine.Simulation.Lifecycle.Confirming.{confirm_at-Confirms}
use memeval.Engine.Simulation.Lifecycle.Runs.{Keeps, Outcome-Keeps, Steps, rest, evolve}
use memeval.Engine.Scheduler.Loop.{
  order_at, include_all, confirm_all, process_block, process_blocks,
}

followed_by : {a b c : OrderState} → Steps a b → Steps b c → Steps a c
followed_by path rest = path
followed_by path (Steps.then more step) = Steps.then (followed_by path more) step

-- The state is sound, and every order of the one before is stored and has come along the steps of its life.
pub record Follows {Pool : Type 0} (s s' : Simulation Pool) : Type 0 where
  pub sound : IsSound s'
  pub lives :
      (n : ℕ) (o : Order)
      → get s.orders n ≡ some o
      → (o' : Order) × (get s'.orders n ≡ some o') × Steps o.state o'.state

pub if_ok :
    {E A : Type 0} (b : Bool) {a a' : A} {r : Result E A}
    → Path (Result E A) (if b then ok a else r) (ok a')
    → (a ≡ a') ⊎ (r ≡ ok a')
if_ok true h = inl (ok-injective h)
if_ok false h = inr h

module _ {Pool : Type 0} where
  pub Follows-refl : {s : Simulation Pool} → IsSound s → Follows s s
  Follows-refl h = record { sound = h; lives = λ n o found. (o, found, rest) }

  pub Follows-trans : {s s1 s2 : Simulation Pool} → Follows s s1 → Follows s1 s2 → Follows s s2
  Follows-trans h k = record {
    sound = k.sound;
    lives = λ n o found.
        let (o1, at, path) = h.lives n o found in
        let (o2, at', path') = k.lives n o1 at in (o2, at', followed_by path path');
  }

  Keeps-Follows : {s s' : Simulation Pool} → Keeps s s' → Follows s s'
  Keeps-Follows k = record {
    sound = k.sound;
    lives = λ n o found. let (o', at, step) = k.evolved n o found in (o', at, evolve rest step);
  }

  -- A state that differs in nothing that soundness reads.
  pub same-Follows :
      (s s' : Simulation Pool)
      → IsSound s
      → s'.numeraire ≡ s.numeraire
      → s'.ledger ≡ s.ledger
      → s'.orders ≡ s.orders
      → s'.order_seq ≡ s.order_seq
      → Follows s s'
  same-Follows s s' h num ledger orders seq = record {
    sound = record {
      backed = rw (num, ledger, orders) h.backed;
      numbered = rw (orders, seq) h.numbered;
    };
    lives = λ n o found. (o, rw orders found, rest);
  }

module _ {Pool E : Type 0} (v : Venue Pool E) where
  order_at-some :
      (s : Simulation Pool) (n : ℕ) {o : Order} → order_at v s n ≡ ok o → get s.orders n ≡ some o
  unfolding order_at
  order_at-some s n h = ground arith

  include_all-Follows :
      (s : Simulation Pool) (ns : List ℕ) (block t : ℤ) {s' : Simulation Pool}
      → IsSound s
      → include_all v s ns block t ≡ ok s'
      → Follows s s'
  unfolding include_all
  include_all-Follows s [] block t h ran = subst (Follows s) (ok-injective ran) (Follows-refl h)
  include_all-Follows s (n ∷ ns) block t h ran =
      let (o, here, h1) = >>=-eq-ok (order_at v s n) _ ran in
      let (s1, one, more) = >>=-eq-ok (include v s n o block t) _ h1 in
      let at = order_at-some s n here in
      let out = include-Yields v s n o block t h.backed at in
      let k = Keeps-Follows (Outcome-Keeps _ s n o h at (rw one at out)) in
      Follows-trans k (include_all-Follows s1 ns block t k.sound more)

  confirm_all-Follows :
      (s : Simulation Pool) (ns : List ℕ) (t : ℤ) {s' : Simulation Pool}
      → IsSound s
      → confirm_all v s ns t ≡ ok s'
      → Follows s s'
  unfolding confirm_all
  confirm_all-Follows s [] t h ran = subst (Follows s) (ok-injective ran) (Follows-refl h)
  confirm_all-Follows s (n ∷ ns) t h ran =
      let (o, here, h1) = >>=-eq-ok (order_at v s n) _ ran in
      let (s1, one, more) = >>=-eq-ok (confirm_at {E = E} s n o t) _ h1 in
      let at = order_at-some s n here in
      let (s1', ran', out) = confirm_at-Confirms E s n o t h.backed at in
      let same = ok-injective (sym ran' ∙ one) in
      let k = Keeps-Follows (Outcome-Keeps _ s n o h at (rw same at out)) in
      Follows-trans k (confirm_all-Follows s1 ns t k.sound more)

  process_block-Follows :
      (s : Simulation Pool) (b t : ℤ) {s' : Simulation Pool}
      → IsSound s
      → process_block v s b t ≡ ok s'
      → Follows s s'
  unfolding process_block
  process_block-Follows s b t h ran =
      let s0 = record s { inclusions = remove s.inclusions b } in
      let (s1, included, more) =
        >>=-eq-ok (include_all v s0 (get_or s.inclusions b []) b t) _ ran in
      let popped = same-Follows s s0 h refl refl refl refl in
      let k = include_all-Follows s0 (get_or s.inclusions b []) b t popped.sound included in
      let s2 = record s1 { confirmations = remove s1.confirmations b } in
      let popped' = same-Follows s1 s2 k.sound refl refl refl refl in
      Follows-trans popped (
        Follows-trans k (
          Follows-trans popped'
            (confirm_all-Follows s2 (get_or s1.confirmations b []) t popped'.sound more)))

  pub process_blocks-Follows :
      (s : Simulation Pool) (blocks : List ℤ) (t : ℤ) {s' : Simulation Pool}
      → IsSound s
      → process_blocks v s blocks t ≡ ok s'
      → Follows s s'
  unfolding process_blocks
  process_blocks-Follows s [] t h ran = subst (Follows s) (ok-injective ran) (Follows-refl h)
  process_blocks-Follows s (b ∷ blocks) t h ran =
      let (s1, first, more) = >>=-eq-ok (process_block v s b t) _ ran in
      let k = process_block-Follows s b t h first in
      Follows-trans k (process_blocks-Follows s1 blocks t k.sound more)

  pub equity_point-Follows :
      (s : Simulation Pool) (t : ℤ) (source : PointSource) {s' : Simulation Pool}
      → IsSound s
      → equity_point v s t source ≡ ok s'
      → Follows s s'
  equity_point-Follows s t source {s'} h ran =
      let (num, ledger, orders, seq) = equity_point-keeps v s t source ran in
      same-Follows s s' h num ledger orders seq
