-- ===== src/Broker/Ledger/Sums.antt =====
-- What `post` does to the balances.
use memeval.Prelude.{
  String, ◌≡◌, refl, ◌⊎◌, false, sym, ◌∙◌, ◌&&◌, none, List, [], ◌∷◌, arith, str_eq, eq_iff,
  if◌then◌else◌, Bool-cases, inl, inr, string_eq, pair_eq,
}
use memeval.Prelude.Int.{ℤ, pos, ◌+ℤ◌, ◌≤ℤ◌, zero-+ℤ, parts_eq, int_laws}
use memeval.Prelude.Dict.{Dict, get, get_or, put, get_or-put, NoShadow, put-NoShadow}
use memeval.Prelude.Dict.Sum.{sum_where, sum_where-put}
use memeval.Broker.Ledger.{
  Leg, Balances, balance_in, sums, first_unbalanced, first_short, apply_legs,
}
use memeval.Broker.Ledger.Accounts.{Account, is_agent, account_beq, account_beq_iff, account_eq}

-- The deltas of an asset's legs, and those of one account's balance of it, added up.
unfoldable pub asset_sum : String → List Leg → ℤ
asset_sum asset [] = pos 0
asset_sum asset (leg ∷ legs) =
    let rest = asset_sum asset legs in if str_eq leg.asset asset then leg.delta +ℤ rest else rest

unfoldable pub key_sum : Account → String → List Leg → ℤ
key_sum account asset [] = pos 0
key_sum account asset (leg ∷ legs) =
    let rest = key_sum account asset legs in
    if account_beq leg.account account && str_eq leg.asset asset then leg.delta +ℤ rest else rest

-- All the balances of an asset, added up.
unfoldable pub total : String → Balances → ℤ
total asset = sum_where (λ k. str_eq k.1 asset)

get_or-sums :
    (legs : List Leg) (s : Dict String ℤ) (a : String)
    → get_or (sums legs s) a (pos 0) ≡ get_or s a (pos 0) +ℤ asset_sum a legs
unfolding sums asset_sum
get_or-sums [] s a = omega int_laws
get_or-sums (leg ∷ legs) s a =
    grind (int_laws, get_or-sums legs, get_or-put s leg.asset a, eq_iff leg.asset a)

get_or-first_unbalanced :
    (s : Dict String ℤ) (a : String) → first_unbalanced s ≡ none → get_or s a (pos 0) ≡ pos 0
unfolding first_unbalanced get
get_or-first_unbalanced [] a h = refl
get_or-first_unbalanced ((k, v) ∷ s) a h = ground (arith, get_or-first_unbalanced s a)

pub asset_sum-first_unbalanced :
    (legs : List Leg) (a : String)
    → first_unbalanced (sums legs []) ≡ none
    → asset_sum a legs ≡ pos 0
unfolding get
asset_sum-first_unbalanced legs a h =
    sym (zero-+ℤ (asset_sum a legs))
    ∙ sym (get_or-sums legs [] a)
    ∙ get_or-first_unbalanced (sums legs []) a h

sums-NoShadow : (legs : List Leg) (s : Dict String ℤ) → NoShadow s → NoShadow (sums legs s)
unfolding sums
sums-NoShadow [] s h = h
sums-NoShadow (leg ∷ legs) s h =
    sums-NoShadow legs (put s leg.asset (get_or s leg.asset (pos 0) +ℤ leg.delta))
      (put-NoShadow s leg.asset (get_or s leg.asset (pos 0) +ℤ leg.delta) h)

first_unbalanced-none :
    (s : Dict String ℤ)
    → NoShadow s
    → ((a : String) → get_or s a (pos 0) ≡ pos 0)
    → first_unbalanced s ≡ none
unfolding first_unbalanced get
first_unbalanced-none [] d h = refl
first_unbalanced-none ((k, v) ∷ s) d h =
    let rest = first_unbalanced-none s d.1 (λ a. ground (arith, h a, d.0, eq_iff k a)) in
    ground (arith, h k, eq_iff k k, rest)

-- Legs that add up to zero for every asset pass the balance check.
pub first_unbalanced-sums :
    (legs : List Leg)
    → ((a : String) → asset_sum a legs ≡ pos 0)
    → first_unbalanced (sums legs []) ≡ none
unfolding get
first_unbalanced-sums legs h =
    first_unbalanced-none (sums legs []) (sums-NoShadow legs [] tt)
      (λ a. get_or-sums legs [] a ∙ zero-+ℤ (asset_sum a legs) ∙ h a)

-- `post` moves each balance by the deltas of the legs on it.
pub balance_in-apply_legs :
    (b : Balances) (legs : List Leg) (account : Account) (asset : String)
    → balance_in (apply_legs b legs) account asset
      ≡ balance_in b account asset +ℤ key_sum account asset legs
unfolding apply_legs key_sum
balance_in-apply_legs b [] account asset = omega int_laws
balance_in-apply_legs b (leg ∷ legs) account asset =
    let b' = put b (leg.account, leg.asset) (balance_in b leg.account leg.asset +ℤ leg.delta) in
    grind (
      int_laws,
      balance_in-apply_legs b' legs account asset,
      get_or-put b (leg.account, leg.asset) (account, asset),
      account_beq_iff leg.account account,
      eq_iff leg.asset asset,
    )

total-add :
    (b : Balances) (account : Account) (a asset : String) (d : ℤ)
    → total asset (put b (account, a) (balance_in b account a +ℤ d))
      ≡ total asset b +ℤ (if str_eq a asset then d else pos 0)
unfolding total
total-add b account a asset d =
    let moved =
      sum_where-put (λ (k : Account × String). str_eq k.1 asset) b (account, a)
        (balance_in b account a +ℤ d) in
    elim (Bool-cases (str_eq a asset)) [
      | inl same ↦ let e = rw same at moved in rw same (omega (int_laws, parts_eq e))
      | inr other ↦ let e = rw other at moved in rw other (omega (int_laws, parts_eq e))
    ]

-- The total of an asset moves by the deltas of its legs.
pub total-apply_legs :
    (b : Balances) (legs : List Leg) (asset : String)
    → total asset (apply_legs b legs) ≡ total asset b +ℤ asset_sum asset legs
unfolding apply_legs asset_sum
total-apply_legs b [] asset = omega int_laws
total-apply_legs b (leg ∷ legs) asset =
    let v = balance_in b leg.account leg.asset +ℤ leg.delta in
    let added = total-add b leg.account leg.asset asset leg.delta in
    let rest = total-apply_legs (put b (leg.account, leg.asset) v) legs asset in
    elim (Bool-cases (str_eq leg.asset asset)) [
      | inl same ↦ rw (rest, added, same) (omega int_laws)
      | inr other ↦ rw (rest, added, other) (omega int_laws)
    ]

-- A leg that is covered, or that is on an account of no agent, is not short.
pub first_short-cons :
    (b : Balances) (leg : Leg) (legs : List Leg)
    → (is_agent leg.account ≡ false) ⊎ (pos 0 ≤ℤ balance_in b leg.account leg.asset +ℤ leg.delta)
    → first_short b legs ≡ none
    → first_short b (leg ∷ legs) ≡ none
unfolding first_short
first_short-cons b leg legs (inl other) h = rw other h
first_short-cons b leg legs (inr covered) h = ground arith
