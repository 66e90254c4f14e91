-- ===== src/Broker/Ledger.antt =====
-- broker/ledger.py: the append-only ledger. `post` checks, then writes the balances and the entry.
-- The reads of the source's `defaultdict` may add zero entries, which no operation shows.
pub mod Accounts
pub mod Sums
pub mod Invariant
use memeval.Prelude.{
  ℕ, ◌+◌, ◌≡◌, String, Bool, true, false, not, ◌&&◌, Option, none, some, List, [], ◌∷◌, ◌++◌, map,
  if◌then◌else◌, Result, ok, err, length, string_eq, pair_eq, str_eq,
}
use memeval.Prelude.Int.{ℤ, pos, ◌+ℤ◌, ltb_ℤ, eqb_ℤ}
use memeval.Prelude.Dict.{Dict, get_or, put}
use Accounts.{Account, account_eq, account_beq, is_agent}

pub record Leg : Type 0 where
  pub account : Account
  pub asset : String
  pub delta : ℤ

-- The values that `cause_kind` takes.
pub data Cause : Type 0 where
  bankroll reserve release fill confirm revert_gas expire : Cause

abbrev pub cause_beq : Cause → Cause → Bool
cause_beq bankroll bankroll = true
cause_beq reserve reserve = true
cause_beq release release = true
cause_beq fill fill = true
cause_beq confirm confirm = true
cause_beq revert_gas revert_gas = true
cause_beq expire expire = true
cause_beq _ _ = false

pub record LedgerEntry : Type 0 where
  pub index : ℕ
  pub time_ms : ℤ
  pub cause_kind : Cause
  pub cause_ref : String
  pub legs : List Leg
  pub note : String

abbrev pub Balances : Type 0
Balances = Dict (Account × String) ℤ

pub record Ledger : Type 0 where
  pub entries : List LedgerEntry
  pub balances : Balances

pub data LedgerError : Type 0 where
  unbalanced : String → ℤ → LedgerError
  insufficient : Account → String → LedgerError

abbrev pub empty : Ledger
empty = record { entries = []; balances = [] }

abbrev pub balance_in : Balances → Account → String → ℤ
balance_in b account asset = get_or b (account, asset) (pos 0)

unfoldable pub balance : Ledger → Account → String → ℤ
balance l account asset = balance_in l.balances account asset

-- `{a: v for (acc, a), v in self._balances.items() if acc == account and v != 0}`
unfoldable pub balances_of : Balances → Account → List (String × ℤ)
balances_of [] account = []
balances_of (((acc, a), v) ∷ b) account =
    let rest = balances_of b account in
    if account_eq.beq acc account && not (eqb_ℤ v (pos 0)) then (a, v) ∷ rest else rest

-- `for leg in legs: sums[leg.asset] += leg.delta`
unfoldable pub sums : List Leg → Dict String ℤ → Dict String ℤ
sums [] s = s
sums (leg ∷ legs) s = sums legs (put s leg.asset (get_or s leg.asset (pos 0) +ℤ leg.delta))

-- the first asset whose sum is not zero
unfoldable pub first_unbalanced : Dict String ℤ → Option (String × ℤ)
first_unbalanced [] = none
first_unbalanced ((asset, s) ∷ rest) =
    if eqb_ℤ s (pos 0) then first_unbalanced rest else some (asset, s)

-- the first leg that by itself would take an agent account below zero
unfoldable pub first_short : Balances → List Leg → Option Leg
first_short b [] = none
first_short b (leg ∷ legs) =
    let rest = first_short b legs in
    if is_agent leg.account && ltb_ℤ (balance_in b leg.account leg.asset +ℤ leg.delta) (pos 0)
    then some leg
    else rest

unfoldable pub apply_legs : Balances → List Leg → Balances
apply_legs b [] = b
apply_legs b (leg ∷ legs) =
    apply_legs (put b (leg.account, leg.asset) (balance_in b leg.account leg.asset +ℤ leg.delta))
      legs

abbrev pub new_entry : Ledger → ℤ → Cause → String → List Leg → String → LedgerEntry
new_entry l time_ms kind ref legs note = record {
  index = length l.entries;
  time_ms = time_ms;
  cause_kind = kind;
  cause_ref = ref;
  legs = legs;
  note = note;
}

-- The checks of `post`, in their order.
unfoldable pub refusal : Ledger → List Leg → Option LedgerError
unfolding sums
refusal l legs = elim (first_unbalanced (sums legs [])) [
  | some (asset, s) ↦ some (unbalanced asset s)
  | none ↦ elim (first_short l.balances legs) [
    | some leg ↦ some (insufficient leg.account leg.asset)
    | none ↦ none
  ]
]

-- The ledger after an accepted posting.
abbrev pub posted : Ledger → ℤ → Cause → String → List Leg → String → Ledger
posted l time_ms kind ref legs note = record {
  entries = l.entries ++ new_entry l time_ms kind ref legs note ∷ [];
  balances = apply_legs l.balances legs;
}

unfoldable pub post :
    Ledger → ℤ → Cause → String → List Leg → String → Result LedgerError (Ledger × LedgerEntry)
unfolding refusal
post l time_ms kind ref legs note = elim (refusal l legs) [
  | some e ↦ err e
  | none ↦ ok (posted l time_ms kind ref legs note, new_entry l time_ms kind ref legs note)
]

-- `sum(leg.delta for e in entries if e.cause_kind == kind for leg in e.legs if …)`
abbrev legs_total : List Leg → Account → String → ℤ → ℤ
legs_total [] account asset total = total
legs_total (leg ∷ legs) account asset total = legs_total legs account asset (
    if account_beq leg.account account && str_eq leg.asset asset then total +ℤ leg.delta else total)

abbrev totals_from : List LedgerEntry → Cause → Account → String → ℤ → ℤ
totals_from [] kind account asset total = total
totals_from (e ∷ es) kind account asset total =
    totals_from es kind account asset
      (if cause_beq e.cause_kind kind then legs_total e.legs account asset total else total)

unfoldable pub totals_by_cause : Ledger → Cause → Account → String → ℤ
totals_by_cause l kind account asset = totals_from l.entries kind account asset (pos 0)
