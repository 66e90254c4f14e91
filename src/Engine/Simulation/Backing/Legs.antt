-- ===== src/Engine/Simulation/Backing/Legs.antt =====
-- engine/simulation.py: what the legs of a release, a revert, a fill and a confirmation move on each
-- account, and when the ledger accepts them.
use memeval.Prelude.{
  ℕ, ◌+◌, ◌≡◌, refl, String, false, none, List, [], ◌==◌, Bool-cases, inl, inr, if◌then◌else◌,
}
use memeval.Prelude.Int.{pos, neg, ◌≤ℤ◌, int_laws}
use memeval.Broker.Ledger.{Leg, Ledger, first_short, refusal}
use memeval.Broker.Ledger.Accounts.{
  Account, account_beq, is_agent, agent_available, agent_reserved, agent_pending, sink_gas, pool,
}
use memeval.Broker.Ledger.Sums.{asset_sum, key_sum}
use memeval.Broker.Ledger.Invariant.{refusal-none_of}
use memeval.Broker.Orders.{Order}
use memeval.Broker.Orders.Settlement.{move, return_legs}
use memeval.Broker.Orders.Settlement.Legs.{
  key_sum-append, asset_sum-append, asset_sum-move, Covers, first_short-move, first_short-append,
}
use memeval.Engine.Simulation.Inclusion.{fill_legs}
use memeval.Engine.Simulation.Backing.{in_asset}

-- The move of an amount that may be zero, where nothing is posted.
abbrev pub move_some : Account → Account → String → ℕ → List Leg
move_some from to asset x = if x == 0 then [] else move from to asset x

pub asset_sum-move_some :
    (asset : String) (from to : Account) (of : String) (x : ℕ)
    → asset_sum asset (move_some from to of x) ≡ pos 0
unfolding asset_sum
asset_sum-move_some asset from to of x = elim (Bool-cases (x == 0)) [
  | inl zero ↦ rw zero refl
  | inr more ↦ rw more (asset_sum-move asset from to of x)
]

pub first_short-move_some :
    (l : Ledger) (from to : Account) (asset : String) (x : ℕ)
    → Covers l.balances from asset x
    → Covers l.balances to asset 0
    → first_short l.balances (move_some from to asset x) ≡ none
unfolding first_short
first_short-move_some l from to asset x h g = elim (Bool-cases (x == 0)) [
  | inl zero ↦ rw zero refl
  | inr more ↦ rw more (first_short-move l.balances from to asset x h g)
]

key_sum-reserved_some :
    (to : Account) (asset of : String) (x : ℕ)
    → account_beq to agent_reserved ≡ false
    → key_sum agent_reserved asset (move_some agent_reserved to of x)
      ≡ neg (pos (in_asset of asset x))
unfolding key_sum
key_sum-reserved_some to asset of x h = grind int_laws

pub reserved-return :
    (num asset : String) (o : Order) (to : Account)
    → account_beq to agent_reserved ≡ false
    → key_sum agent_reserved asset (return_legs num o to)
      ≡ neg (pos (in_asset o.asset_in asset o.amount_in + in_asset num asset o.reserved_gas))
unfolding key_sum
reserved-return num asset o to h =
    rw
      (
        key_sum-append agent_reserved asset
            (move agent_reserved agent_available o.asset_in o.amount_in) _,
        key_sum-reserved_some to asset num o.reserved_gas h,
      )
      (grind int_laws)

pub available-return :
    (num asset : String) (o : Order) (to : Account)
    → pos 0 ≤ℤ key_sum agent_available asset (return_legs num o to)
unfolding key_sum
available-return num asset o to =
    rw
      (key_sum-append agent_available asset
        (move agent_reserved agent_available o.asset_in o.amount_in) _)
      (grind int_laws)

pub pending-return :
    (num asset : String) (o : Order) (to : Account)
    → account_beq to agent_pending ≡ false
    → key_sum agent_pending asset (return_legs num o to) ≡ pos 0
unfolding key_sum
pending-return num asset o to h =
    rw
      (key_sum-append agent_pending asset
        (move agent_reserved agent_available o.asset_in o.amount_in) _)
      (grind int_laws)

pub reserved-fill :
    (num asset : String) (o : Order) (out : ℕ)
    → key_sum agent_reserved asset (fill_legs num o out)
      ≡ neg (pos (in_asset o.asset_in asset o.amount_in + in_asset num asset o.reserved_gas))
unfolding key_sum
reserved-fill num asset o out =
    rw
      (
        key_sum-append agent_reserved asset
            (move agent_reserved (pool o.pool) o.asset_in o.amount_in) _,
        key_sum-append agent_reserved asset (move (pool o.pool) agent_pending o.asset_out out) _,
        key_sum-reserved_some sink_gas asset num o.reserved_gas refl,
      )
      (grind int_laws)

pub available-fill :
    (num asset : String) (o : Order) (out : ℕ)
    → key_sum agent_available asset (fill_legs num o out) ≡ pos 0
unfolding key_sum
available-fill num asset o out = grind int_laws

pub pending-fill :
    (num asset : String) (o : Order) (out : ℕ)
    → key_sum agent_pending asset (fill_legs num o out) ≡ pos (in_asset o.asset_out asset out)
unfolding key_sum
pending-fill num asset o out =
    rw
      (
        key_sum-append agent_pending asset
            (move agent_reserved (pool o.pool) o.asset_in o.amount_in) _,
        key_sum-append agent_pending asset (move (pool o.pool) agent_pending o.asset_out out) _,
      )
      (grind int_laws)

-- The ledger accepts the return of what the reserved account covers.
pub return_accepted :
    (num : String) (l : Ledger) (o : Order) (to : Account)
    → Covers l.balances agent_reserved o.asset_in o.amount_in
    → Covers l.balances agent_reserved num o.reserved_gas
    → Covers l.balances agent_available o.asset_in 0
    → Covers l.balances to num 0
    → refusal l (return_legs num o to) ≡ none
return_accepted num l o to h g a b =
    refusal-none_of l (return_legs num o to)
      (λ s.
        rw
          (
            asset_sum-append s (move agent_reserved agent_available o.asset_in o.amount_in) _,
            asset_sum-move s agent_reserved agent_available o.asset_in o.amount_in,
            asset_sum-move_some s agent_reserved to num o.reserved_gas,
          )
          (omega int_laws))
      (first_short-append l.balances (move agent_reserved agent_available o.asset_in o.amount_in) _
        (first_short-move l.balances agent_reserved agent_available o.asset_in o.amount_in h a)
        (first_short-move_some l agent_reserved to num o.reserved_gas g b))

pub fill_accepted :
    (num : String) (l : Ledger) (o : Order) (out : ℕ)
    → Covers l.balances agent_reserved o.asset_in o.amount_in
    → Covers l.balances agent_reserved num o.reserved_gas
    → Covers l.balances agent_pending o.asset_out 0
    → refusal l (fill_legs num o out) ≡ none
unfolding is_agent
fill_accepted num l o out h g p =
    let paid = move agent_reserved (pool o.pool) o.asset_in o.amount_in in
    let bought = move (pool o.pool) agent_pending o.asset_out out in
    refusal-none_of l (fill_legs num o out)
      (λ s.
        rw
          (
            asset_sum-append s paid _,
            asset_sum-append s bought _,
            asset_sum-move s agent_reserved (pool o.pool) o.asset_in o.amount_in,
            asset_sum-move s (pool o.pool) agent_pending o.asset_out out,
            asset_sum-move_some s agent_reserved sink_gas num o.reserved_gas,
          )
          (omega int_laws))
      (first_short-append l.balances paid _
        (first_short-move l.balances agent_reserved (pool o.pool) o.asset_in o.amount_in h
          (inl refl))
        (first_short-append l.balances bought _
          (first_short-move l.balances (pool o.pool) agent_pending o.asset_out out (inl refl) p)
          (first_short-move_some l agent_reserved sink_gas num o.reserved_gas g (inl refl))))

pub confirm_accepted :
    (l : Ledger) (o : Order) (out : ℕ)
    → Covers l.balances agent_pending o.asset_out out
    → Covers l.balances agent_available o.asset_out 0
    → refusal l (move agent_pending agent_available o.asset_out out) ≡ none
confirm_accepted l o out h a =
    refusal-none_of l (move agent_pending agent_available o.asset_out out)
      (λ s. asset_sum-move s agent_pending agent_available o.asset_out out)
      (first_short-move l.balances agent_pending agent_available o.asset_out out h a)
