-- ===== src/Broker/Ledger/Invariant.antt =====
-- The ledger of broker/ledger.py: what a posting keeps.
use memeval.Prelude.{
  ℕ, suc, ◌+◌, String, ◌≡◌, refl, ◌∙◌, sym, ap, inl, inr, Bool, true, false, ◌&&◌, none, List, [],
  ◌∷◌, ◌++◌, ◌≤◌, ◌<◌, arith, All, Bool-cases, ok, length, str_eq, eq_iff,
}
use memeval.Prelude.Int.{ℤ, pos, ◌+ℤ◌, ◌≤ℤ◌, ◌<ℤ◌, ◌-ℤ◌, neg, +ℤ-zero, int_laws}
use memeval.Prelude.Dict.{get}
use memeval.Prelude.Dict.Sum.{sum_where}
use memeval.Broker.Ledger.{
  Leg, LedgerEntry, Cause, Ledger, Balances, empty, balance, balance_in, sums, first_unbalanced,
  first_short, apply_legs, new_entry, posted, refusal, post,
}
use memeval.Broker.Ledger.Accounts.{Account, is_agent, account_beq, account_beq_iff}
use memeval.Broker.Ledger.Sums.{
  asset_sum, key_sum, first_short-cons, total, asset_sum-first_unbalanced, first_unbalanced-sums,
  balance_in-apply_legs, total-apply_legs,
}

-- A posting that succeeds was not refused, and this is what it leaves.
pub post-eq-ok :
    (l : Ledger) (t : ℤ) (k : Cause) (r : String) (legs : List Leg) (n : String) {l' : Ledger}
    {e : LedgerEntry}
    → post l t k r legs n ≡ ok (l', e)
    → (refusal l legs ≡ none)
      × (l'.entries ≡ l.entries ++ new_entry l t k r legs n ∷ [])
      × (l'.balances ≡ apply_legs l.balances legs)
unfolding post
post-eq-ok l t k r legs n h = ground arith

pub post_accepted :
    (l : Ledger) (t : ℤ) (k : Cause) (r : String) (legs : List Leg) (n : String)
    → refusal l legs ≡ none
    → post l t k r legs n ≡ ok (posted l t k r legs n, new_entry l t k r legs n)
unfolding post
post_accepted l t k r legs n h = ground arith

pub refusal-none :
    (l : Ledger) (legs : List Leg)
    → refusal l legs ≡ none
    → (first_unbalanced (sums legs []) ≡ none) × (first_short l.balances legs ≡ none)
unfolding refusal
refusal-none l legs h = ground arith

pub refusal-none_of :
    (l : Ledger) (legs : List Leg)
    → ((a : String) → asset_sum a legs ≡ pos 0)
    → first_short l.balances legs ≡ none
    → refusal l legs ≡ none
unfolding refusal
refusal-none_of l legs h s = ground (arith, first_unbalanced-sums legs h)

-- The deltas of all entries on one account's balance of an asset.
pub entries_sum : Account → String → List LedgerEntry → ℤ
entries_sum account asset [] = pos 0
entries_sum account asset (e ∷ es) = key_sum account asset e.legs +ℤ entries_sum account asset es

entries_sum-append :
    (account : Account) (asset : String) (es : List LedgerEntry) (e : LedgerEntry)
    → entries_sum account asset (es ++ e ∷ [])
      ≡ entries_sum account asset es +ℤ key_sum account asset e.legs
unfolding entries_sum
entries_sum-append account asset [] e = omega int_laws
entries_sum-append account asset (x ∷ es) e =
    rw (entries_sum-append account asset es e) (omega int_laws)

abbrev IndexedFrom : ℕ → List LedgerEntry → Type 0
IndexedFrom i [] = Unit
IndexedFrom i (e ∷ es) = (e.index ≡ i) × IndexedFrom (suc i) es

IndexedFrom-append :
    (i : ℕ) (es : List LedgerEntry) (e : LedgerEntry)
    → IndexedFrom i es
    → e.index ≡ i + length es
    → IndexedFrom i (es ++ e ∷ [])
IndexedFrom-append i [] e h p = (omega arith, tt)
IndexedFrom-append i (x ∷ es) e h p = (h.0, IndexedFrom-append (suc i) es e h.1 (omega arith))

-- The balances are the entries replayed, nothing is created or lost, and an entry's index is its
-- place.
pub record IsValid (l : Ledger) : Type 0 where
  pub replayed :
      (account : Account) (asset : String)
      → balance l account asset ≡ entries_sum account asset l.entries
  pub conserved : (asset : String) → total asset l.balances ≡ pos 0
  pub indexed : IndexedFrom 0 l.entries

pub empty-IsValid : IsValid empty
unfolding balance entries_sum total sum_where get
empty-IsValid = record { replayed = λ account asset. refl; conserved = λ asset. refl; indexed = tt }

-- Every posting that is accepted keeps the ledger valid: for each asset the balances of all accounts
-- still add up to zero, each balance is the sum of its entries' legs, and the new entry has the next index.
pub post-IsValid :
    (l : Ledger) (t : ℤ) (k : Cause) (r : String) (legs : List Leg) (n : String) {l' : Ledger}
    {e : LedgerEntry}
    → IsValid l
    → post l t k r legs n ≡ ok (l', e)
    → IsValid l'
unfolding balance
post-IsValid l t k r legs n v h =
    let (fine, es, bs) = post-eq-ok l t k r legs n h in
    let balanced = (refusal-none l legs fine).0 in
    let e = new_entry l t k r legs n in
    record {
      replayed = λ account asset.
          rw (es, bs)
            (balance_in-apply_legs l.balances legs account asset
              ∙ ap (λ b. b +ℤ key_sum account asset legs) (v.replayed account asset)
              ∙ sym (entries_sum-append account asset l.entries e));
      conserved = λ asset. rw bs (
          total-apply_legs l.balances legs asset
          ∙ ap (λ d. total asset l.balances +ℤ d) (asset_sum-first_unbalanced legs asset balanced)
          ∙ +ℤ-zero (total asset l.balances)
          ∙ v.conserved asset);
      indexed = rw es (IndexedFrom-append 0 l.entries e v.indexed (omega arith));
    }

-- A ledger whose agent accounts hold nothing negative.
unfoldable pub IsSolvent : Ledger → Type 0
IsSolvent l =
    (account : Account) (asset : String)
    → is_agent account ≡ true
    → pos 0 ≤ℤ balance l account asset

abbrev same_key : Leg → Leg → Bool
same_key leg other = account_beq other.account leg.account && str_eq other.asset leg.asset

-- No account has two legs of one asset.
abbrev pub IsDistinct : List Leg → Type 0
IsDistinct [] = Unit
IsDistinct (leg ∷ legs) = All (λ other. same_key leg other ≡ false) legs × IsDistinct legs

key_sum-other :
    (leg : Leg) (legs : List Leg)
    → All (λ other. same_key leg other ≡ false) legs
    → key_sum leg.account leg.asset legs ≡ pos 0
unfolding key_sum
key_sum-other leg [] d = refl
key_sum-other leg (other ∷ legs) d = rw d.0 (key_sum-other leg legs d.1)

key_sum-nonneg :
    (b : Balances) (legs : List Leg) (account : Account) (asset : String)
    → is_agent account ≡ true
    → IsDistinct legs
    → first_short b legs ≡ none
    → pos 0 ≤ℤ balance_in b account asset
    → pos 0 ≤ℤ balance_in b account asset +ℤ key_sum account asset legs
unfolding first_short key_sum
key_sum-nonneg b [] account asset agent d h nn = omega int_laws
key_sum-nonneg b (leg ∷ legs) account asset agent d h nn = grind (
  int_laws,
  key_sum-nonneg b legs account asset,
  key_sum-other leg legs,
  account_beq_iff leg.account account,
  eq_iff leg.asset asset,
)

-- Where each account has one leg of an asset at most, an accepted posting leaves no agent account
-- below zero.
pub post-IsSolvent :
    (l : Ledger) (t : ℤ) (k : Cause) (r : String) (legs : List Leg) (n : String) {l' : Ledger}
    {e : LedgerEntry}
    → IsSolvent l
    → IsDistinct legs
    → post l t k r legs n ≡ ok (l', e)
    → IsSolvent l'
unfolding IsSolvent balance
post-IsSolvent l t k r legs n s d h account asset agent =
    let (fine, es, bs) = post-eq-ok l t k r legs n h in
    rw (bs, balance_in-apply_legs l.balances legs account asset)
      (key_sum-nonneg l.balances legs account asset agent d (refusal-none l legs fine).1
        (s account asset agent))

abbrev pub leg_of : Account → String → ℤ → Leg
leg_of account asset delta = record { account = account; asset = asset; delta = delta }

-- Two debits of one account, with their sum for another.
abbrev pub two_debits : Account → Account → String → ℕ → ℕ → List Leg
two_debits from to asset x y =
    leg_of from asset (neg (pos x))
    ∷ leg_of from asset (neg (pos y))
    ∷ leg_of to asset (pos (x + y))
    ∷ []

two_debits_pass :
    (l : Ledger) (from to : Account) (asset : String) (x y h : ℕ)
    → is_agent to ≡ false
    → balance l from asset ≡ pos h
    → x ≤ h
    → y ≤ h
    → refusal l (two_debits from to asset x y) ≡ none
unfolding balance first_short asset_sum
two_debits_pass l from to asset x y h outside b hx hy =
    let second = leg_of from asset (neg (pos y)) in
    let credit = leg_of to asset (pos (x + y)) in
    refusal-none_of l (two_debits from to asset x y)
      (λ a. elim (Bool-cases (str_eq asset a)) [
        | inl same ↦ rw same (omega int_laws)
        | inr other ↦ rw other refl
      ])
      (first_short-cons l.balances (leg_of from asset (neg (pos x))) (second ∷ credit ∷ [])
        (inr (rw b (omega int_laws)))
        (first_short-cons l.balances second (credit ∷ []) (inr (rw b (omega int_laws)))
          (first_short-cons l.balances credit [] (inl outside) refl)))

outside_differs :
    (from to : Account) → is_agent from ≡ true → is_agent to ≡ false → account_beq to from ≡ false
outside_differs from to agent outside = elim (Bool-cases (account_beq to from)) [
  | inr differ ↦ differ
  | inl equal ↦
      let same : to ≡ from = (account_beq_iff to from).0 equal in
      let both = ap is_agent same in ground arith
]

-- The check of an overdraft looks at each leg by itself: two legs that take `x` and `y` from the balance of
-- an agent account that covers each of them, and not both, with their sum for an account that is not
-- the agent's, are accepted, and the balance becomes negative by the difference.
pub post_overdraws :
    (l : Ledger) (t : ℤ) (k : Cause) (r n : String) (from to : Account) (asset : String) (x y h : ℕ)
    → is_agent from ≡ true
    → is_agent to ≡ false
    → balance l from asset ≡ pos h
    → x ≤ h
    → y ≤ h
    → h < x + y
    → let legs = two_debits from to asset x y in
      (post l t k r legs n ≡ ok (posted l t k r legs n, new_entry l t k r legs n))
      × (balance (posted l t k r legs n) from asset ≡ pos h -ℤ pos (x + y))
      × (pos h -ℤ pos (x + y) <ℤ pos 0)
unfolding balance key_sum
post_overdraws l t k r n from to asset x y h agent outside b hx hy hxy =
    let legs = two_debits from to asset x y in
    (
      post_accepted l t k r legs n (two_debits_pass l from to asset x y h outside b hx hy),
      rw (balance_in-apply_legs l.balances legs from asset) (
          rw
            (
              b,
              (eq_iff asset asset).1 refl,
              (account_beq_iff from from).1 refl,
              outside_differs from to agent outside,
            )
            (omega int_laws)),
      omega int_laws,
    )
