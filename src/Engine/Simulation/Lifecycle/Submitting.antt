-- ===== src/Engine/Simulation/Lifecycle/Submitting.antt =====
-- engine/simulation.py, `submit`: what an accepted order reserves, and what a call leaves otherwise.
use memeval.Prelude.{
  ℕ, ◌+◌, ◌≡◌, refl, inl, inr, String, Bool-cases, none, some, Option-cases, List, [], ◌∷◌, ◌++◌,
  ok, All, arith, ◌==◌, eq_iff, nat_eq, string_eq,
}
use memeval.Prelude.Int.{ℤ, pos, pos_part, neg, ◌≤ℤ◌, int_laws}
use memeval.Prelude.Dict.Sum.{measure_at-none}
use memeval.Prelude.Dict.{get}
use memeval.Broker.Ledger.{Ledger, Leg, LedgerEntry, balance, post, reserve}
use memeval.Broker.Ledger.Accounts.{Account, agent_available, agent_reserved, agent_pending}
use memeval.Broker.Ledger.Sums.{key_sum}
use memeval.Broker.Orders.Settlement.{move}
use memeval.Broker.Orders.Settlement.Legs.{key_sum-append}
use memeval.Engine.Venue.{Venue}
use memeval.Engine.Simulation.{Simulation}
use memeval.Engine.Simulation.Numbering.{order_id_of}
use memeval.Engine.Simulation.Submission.{
  Payload, Request, payload_of, needs, reserve_legs, new_order, enqueue,
}
use memeval.Engine.Simulation.Backing.{in_asset, need, due, post-IsBacked}
use memeval.Engine.Simulation.Lifecycle.{SimIsBacked, IsNumbered}

-- What a list of amounts asks for of one asset.
abbrev need_of : String → List (String × ℕ) → ℕ
need_of asset [] = 0
need_of asset ((a, x) ∷ rest) = in_asset a asset x + need_of asset rest

record Reserves (l : Ledger) (asks : List (String × ℕ)) (legs : List Leg) (asset : String)
    : Type 0 where
  to_reserved : key_sum agent_reserved asset legs ≡ pos (need_of asset asks)
  from_available : key_sum agent_available asset legs ≡ neg (pos (need_of asset asks))
  no_pending : key_sum agent_pending asset legs ≡ pos 0

reserve_legs-Reserves :
    (l : Ledger) (asks : List (String × ℕ)) {legs : List Leg}
    → reserve_legs l asks ≡ some legs
    → (asset : String) → Reserves l asks legs asset
unfolding reserve_legs key_sum
reserve_legs-Reserves l [] {legs} h asset =
    let same : legs ≡ [] = ground arith in
    record {
      to_reserved = rw same refl;
      from_available = rw same (omega int_laws);
      no_pending = rw same refl;
    }
reserve_legs-Reserves l ((a, x) ∷ rest) {legs} h asset = elim (Bool-cases (x == 0)) [
  | inl zero ↦
      let same : reserve_legs l rest ≡ some legs = ground arith in
      let r = reserve_legs-Reserves l rest same asset in
      let free : need_of asset ((a, x) ∷ rest) ≡ need_of asset rest = ground arith in
      record {
        to_reserved = rw free r.to_reserved;
        from_available = rw free r.from_available;
        no_pending = r.no_pending;
      }
  | inr more ↦ elim (Option-cases (reserve_legs l rest)) [
    | inl short ↦ ground arith
    | inr (ls, found) ↦
        let r = reserve_legs-Reserves l rest found asset in
        let same : legs ≡ move agent_available agent_reserved a x ++ ls = ground arith in
        let split = λ (account : Account).
          key_sum-append account asset (move agent_available agent_reserved a x) ls in
        record {
          to_reserved = rw (same, split agent_reserved, r.to_reserved) (grind int_laws);
          from_available = rw (same, split agent_available, r.from_available) (grind int_laws);
          no_pending = rw (same, split agent_pending, r.no_pending) (grind int_laws);
        }
  ]
]

-- The available balance covers each amount that is asked for.
IsCovered : Ledger → List (String × ℕ) → Type 0
IsCovered l = All (λ (ask : String × ℕ). pos ask.1 ≤ℤ balance l agent_available ask.0)

reserve_legs-IsCovered :
    (l : Ledger) (asks : List (String × ℕ)) {legs : List Leg}
    → ((asset : String) → pos 0 ≤ℤ balance l agent_available asset)
    → reserve_legs l asks ≡ some legs
    → IsCovered l asks
unfolding reserve_legs IsCovered
reserve_legs-IsCovered l [] free h = tt
reserve_legs-IsCovered l ((a, x) ∷ rest) free h = elim (Option-cases (reserve_legs l rest)) [
  | inl short ↦ ground arith
  | inr (ls, found) ↦ (ground (arith, free a), reserve_legs-IsCovered l rest free found)
]

need_of-needs :
    (a num asset : String) (x g : ℕ)
    → need_of asset (needs a x num g) ≡ in_asset a asset x + in_asset num asset g
need_of-needs a num asset x g = ground (arith, eq_iff a num, eq_iff a asset, eq_iff num asset)

needs-covered :
    (l : Ledger) (a num : String) (x g : ℕ)
    → ((asset : String) → pos 0 ≤ℤ balance l agent_available asset)
    → IsCovered l (needs a x num g)
    → (asset : String) → pos (need_of asset (needs a x num g)) ≤ℤ balance l agent_available asset
unfolding IsCovered
needs-covered l a num x g free h asset =
    ground (arith, eq_iff a num, eq_iff a asset, eq_iff num asset, free asset)

module _ {Pool E : Type 0} (v : Venue Pool E) (payload_hash : Payload → String) where
  pub enqueue-IsBacked :
      (s : Simulation Pool) (r : Request) (legs : List Leg) (block time : ℤ) {after : Ledger}
      {e : LedgerEntry}
      → SimIsBacked s
      → IsNumbered s
      → reserve_legs s.ledger (needs r.asset_in (pos_part r.amount_in) s.numeraire s.gas_cost)
        ≡ some legs
      → post s.ledger s.now_ms reserve
          (order_id_of (s.order_seq + 1))
          legs
          "principal + gas allowance reserved"
        ≡ ok (after, e)
      → SimIsBacked (enqueue v payload_hash s r after (s.order_seq + 1) block time)
  unfolding enqueue new_order
  enqueue-IsBacked s r legs block time b fresh reserved ran =
      let asks = needs r.asset_in (pos_part r.amount_in) s.numeraire s.gas_cost in
      let n = s.order_seq + 1 in
      let o = new_order s r (payload_hash (payload_of r)) n block time in
      let absent : get s.orders n ≡ none = fresh n (omega arith) in
      let covered =
        needs-covered s.ledger r.asset_in s.numeraire (pos_part r.amount_in) s.gas_cost b.available
          (reserve_legs-IsCovered s.ledger asks b.available reserved) in
      let total = λ (asset : String).
        need_of-needs r.asset_in s.numeraire asset (pos_part r.amount_in) s.gas_cost in
      let moves = reserve_legs-Reserves s.ledger asks reserved in
      post-IsBacked s.numeraire s.ledger s.orders n o s.now_ms reserve (order_id_of n) legs
        "principal + gas allowance reserved" b ran
        (λ asset.
          rw ((moves asset).to_reserved, measure_at-none (need s.numeraire asset) s.orders n absent)
            (omega (int_laws, total asset)))
        (λ asset.
          rw ((moves asset).no_pending, measure_at-none (due asset) s.orders n absent)
            (omega int_laws))
        (λ asset. let c = covered asset in rw (moves asset).from_available (omega int_laws))
