-- ===== src/Broker/Orders/Settlement/Legs.antt =====
-- The legs of the postings of engine/simulation.py: lists of moves from one account to another.
use memeval.Prelude.{ℕ, ◌≡◌, ◌⊎◌, String, false, none, List, [], ◌∷◌, ◌++◌, arith}
use memeval.Prelude.Int.{pos, ◌+ℤ◌, ◌≤ℤ◌, int_laws}
use memeval.Broker.Ledger.{Leg, Balances, balance_in, first_short}
use memeval.Broker.Ledger.Accounts.{Account, is_agent}
use memeval.Broker.Ledger.Sums.{asset_sum, key_sum}
use memeval.Broker.Orders.Settlement.{move}

pub key_sum-append :
    (account : Account) (asset : String) (xs ys : List Leg)
    → key_sum account asset (xs ++ ys) ≡ key_sum account asset xs +ℤ key_sum account asset ys
unfolding key_sum
key_sum-append account asset [] ys = omega int_laws
key_sum-append account asset (leg ∷ xs) ys =
    let rest = key_sum-append account asset xs ys in grind (int_laws, rest)

pub asset_sum-append :
    (asset : String) (xs ys : List Leg)
    → asset_sum asset (xs ++ ys) ≡ asset_sum asset xs +ℤ asset_sum asset ys
unfolding asset_sum
asset_sum-append asset [] ys = omega int_laws
asset_sum-append asset (leg ∷ xs) ys =
    let rest = asset_sum-append asset xs ys in grind (int_laws, rest)

pub asset_sum-move :
    (asset : String) (from to : Account) (of : String) (x : ℕ)
    → asset_sum asset (move from to of x) ≡ pos 0
unfolding asset_sum
asset_sum-move asset from to of x = grind int_laws

-- An account that the balance check does not refuse to debit by an amount.
abbrev pub Covers : Balances → Account → String → ℕ → Type 0
Covers b account asset x = (is_agent account ≡ false) ⊎ (pos x ≤ℤ balance_in b account asset)

pub first_short-move :
    (b : Balances) (from to : Account) (asset : String) (x : ℕ)
    → Covers b from asset x
    → Covers b to asset 0
    → first_short b (move from to asset x) ≡ none
unfolding first_short
first_short-move b from to asset x h g = grind int_laws

pub first_short-append :
    (b : Balances) (xs ys : List Leg)
    → first_short b xs ≡ none
    → first_short b ys ≡ none
    → first_short b (xs ++ ys) ≡ none
unfolding first_short
first_short-append b [] ys h g = g
first_short-append b (leg ∷ xs) ys h g = ground (arith, first_short-append b xs ys)
