-- ===== src/Engine/Simulation/Backing.antt =====
-- engine/simulation.py, `submit`, `_include` and `_confirm`: what the reserved and the pending account
-- hold, against the orders of the store.
pub mod Legs
pub mod Postings
use memeval.Prelude.{
  ℕ, ◌+◌, ◌≤◌, ◌≡◌, refl, ◌∙◌, ap, String, Bool, true, false, Option, none, some, List, [], ok,
  arith, if◌then◌else◌, str_eq, eq_iff, nat_eq, inr,
}
use memeval.Prelude.Int.{ℤ, pos, ◌+ℤ◌, ◌≤ℤ◌, parts_eq, int_laws}
use memeval.Prelude.Dict.{Dict, get, put}
use memeval.Prelude.Dict.Sum.{sum_by, measure_at, sum_by-put, measure_at_le, measure_at-some}
use memeval.Broker.Ledger.{Leg, LedgerEntry, Cause, Ledger, balance, balance_in, post}
use memeval.Broker.Ledger.Accounts.{agent_available, agent_reserved, agent_pending}
use memeval.Broker.Ledger.Sums.{key_sum, balance_in-apply_legs}
use memeval.Broker.Ledger.Invariant.{post-eq-ok}
use memeval.Broker.Orders.{Order}
use memeval.Broker.Orders.Settlement.{is_filled}
use memeval.Broker.Orders.Settlement.Legs.{Covers}
use memeval.Engine.Simulation.Inclusion.{is_pending}

-- An amount of one asset, seen as an amount of another.
abbrev pub in_asset : String → String → ℕ → ℕ
in_asset of asset x = if str_eq of asset then x else 0

-- What an order keeps reserved of an asset until it is included.
abbrev pub need : String → String → Order → ℕ
need numeraire asset o =
    if is_pending o.state
    then in_asset o.asset_in asset o.amount_in + in_asset numeraire asset o.reserved_gas
    else 0

-- What an order is owed of an asset until it is confirmed.
abbrev pub due : String → Order → ℕ
due asset o =
    if is_filled o.state
    then elim o.amount_out [ none ↦ 0 | some out ↦ in_asset o.asset_out asset out ]
    else 0

-- The reserved account holds what the pending orders need and no more, the pending account what the
-- filled ones are owed, and the available account nothing negative.
pub record IsBacked (numeraire : String) (l : Ledger) (orders : Dict ℕ Order) : Type 0 where
  pub reserved :
      (asset : String) → balance l agent_reserved asset ≡ pos (sum_by (need numeraire asset) orders)
  pub owed : (asset : String) → balance l agent_pending asset ≡ pos (sum_by (due asset) orders)
  pub available : (asset : String) → pos 0 ≤ℤ balance l agent_available asset

moved :
    (f : Order → ℕ) (orders : Dict ℕ Order) (n : ℕ) (o : Order) (b d : ℤ)
    → b ≡ pos (sum_by f orders)
    → d +ℤ pos (measure_at f orders n) ≡ pos (f o)
    → b +ℤ d ≡ pos (sum_by f (put orders n o))
moved f orders n o b d h g =
    let law = sum_by-put f orders n o in
    let h' = parts_eq h in let g' = parts_eq g in omega int_laws

-- A posting and the write of an order keep the backing where the legs on the reserved and the pending
-- account are the change of what the orders need and are owed.
pub post-IsBacked :
    (num : String) (l : Ledger) (orders : Dict ℕ Order) (n : ℕ) (o : Order) (t : ℤ) (k : Cause)
    (r : String) (legs : List Leg) (note : String) {l' : Ledger} {e : LedgerEntry}
    → IsBacked num l orders
    → post l t k r legs note ≡ ok (l', e)
    → ((asset : String)
        → key_sum agent_reserved asset legs +ℤ pos (measure_at (need num asset) orders n)
          ≡ pos (need num asset o))
    → ((asset : String)
        → key_sum agent_pending asset legs +ℤ pos (measure_at (due asset) orders n)
          ≡ pos (due asset o))
    → ((asset : String)
        → pos 0 ≤ℤ balance l agent_available asset +ℤ key_sum agent_available asset legs)
    → IsBacked num l' (put orders n o)
unfolding balance
post-IsBacked num l orders n o t k r legs note b h reserve owe free =
    let (_, _, bs) = post-eq-ok l t k r legs note h in
    record {
      reserved = λ asset.
          rw (bs, balance_in-apply_legs l.balances legs agent_reserved asset)
            (moved (need num asset) orders n o _ _ (b.reserved asset) (reserve asset));
      owed = λ asset.
          rw (bs, balance_in-apply_legs l.balances legs agent_pending asset)
            (moved (due asset) orders n o _ _ (b.owed asset) (owe asset));
      available = λ asset.
          rw (bs, balance_in-apply_legs l.balances legs agent_available asset) (free asset);
    }

-- The reserved account covers what one order needs, and the pending account what it is owed.
pub reserved_covers :
    (num asset : String) (l : Ledger) (orders : Dict ℕ Order) (n : ℕ) (o : Order)
    → IsBacked num l orders
    → get orders n ≡ some o
    → pos (need num asset o) ≤ℤ balance l agent_reserved asset
reserved_covers num asset l orders n o b h =
    let m = measure_at_le (need num asset) orders n in
    let e = measure_at-some (need num asset) orders n h in rw (b.reserved asset) (omega arith)

pub owed_covers :
    (num asset : String) (l : Ledger) (orders : Dict ℕ Order) (n : ℕ) (o : Order)
    → IsBacked num l orders
    → get orders n ≡ some o
    → pos (due asset o) ≤ℤ balance l agent_pending asset
owed_covers num asset l orders n o b h =
    let m = measure_at_le (due asset) orders n in
    let e = measure_at-some (due asset) orders n h in rw (b.owed asset) (omega arith)
