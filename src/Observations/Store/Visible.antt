-- ===== src/Observations/Store/Visible.antt =====
-- observations/store.py, `append` and `visible`: no trade is visible before it is available.
use memeval.Prelude.{
  ◌≡◌, refl, sym, ◌∙◌, ap, inl, inr, Bool, true, false, Bool-cases, none, some, List, [], ◌∷◌, ◌++◌,
  arith, if◌then◌else◌,
}
use memeval.Prelude.Int.{ℤ, ◌≤ℤ◌, ◌<ℤ◌, ltb_ℤ, leb_ℤ}
use memeval.Observations.Store.{
  TradeObs, PoolObservations, bisect_right, insert_at, take, last_of, is_late, append, visible,
}

abbrev available : TradeObs → ℤ
available t = t.available_ms

abbrev keys_of : List TradeObs → List ℤ
keys_of [] = []
keys_of (t ∷ ts) = t.available_ms ∷ keys_of ts

-- Every trade of a list is available no earlier than at a time.
abbrev pub From : ℤ → List TradeObs → Type 0
From a [] = Unit
From a (t ∷ ts) = (a ≤ℤ t.available_ms) × From a ts

abbrev pub IsOrdered : List TradeObs → Type 0
IsOrdered [] = Unit
IsOrdered (t ∷ ts) = From t.available_ms ts × IsOrdered ts

-- The keys are the times of availability, which never decrease.
pub record IsStore (o : PoolObservations) : Type 0 where
  pub keyed : o.avail_keys ≡ keys_of o.trades
  pub ordered : IsOrdered o.trades

-- The trades that are available at a time, by a test of each.
unfoldable pub available_at : ℤ → List TradeObs → List TradeObs
available_at as_of [] = []
available_at as_of (t ∷ ts) =
    let rest = available_at as_of ts in if leb_ℤ t.available_ms as_of then t ∷ rest else rest

-- The place that a trade takes.
insert_obs : TradeObs → List TradeObs → List TradeObs
insert_obs t [] = t ∷ []
insert_obs t (x ∷ xs) =
    let rest = insert_obs t xs in
    if ltb_ℤ t.available_ms x.available_ms then t ∷ x ∷ xs else x ∷ rest

insert_at-trades :
    (t : TradeObs) (ts : List TradeObs)
    → insert_at (bisect_right (keys_of ts) t.available_ms) t ts ≡ insert_obs t ts
unfolding insert_at bisect_right insert_obs
insert_at-trades t [] = refl
insert_at-trades t (x ∷ xs) = elim (Bool-cases (ltb_ℤ t.available_ms x.available_ms)) [
  | inl before ↦ rw before refl
  | inr after ↦ rw after (ap (λ l. x ∷ l) (insert_at-trades t xs))
]

insert_at-keys :
    (t : TradeObs) (ts : List TradeObs)
    → insert_at (bisect_right (keys_of ts) t.available_ms) t.available_ms (keys_of ts)
      ≡ keys_of (insert_obs t ts)
unfolding insert_at bisect_right insert_obs
insert_at-keys t [] = refl
insert_at-keys t (x ∷ xs) = elim (Bool-cases (ltb_ℤ t.available_ms x.available_ms)) [
  | inl before ↦ rw before refl
  | inr after ↦ rw after (ap (λ l. x.available_ms ∷ l) (insert_at-keys t xs))
]

From-weaken : (a b : ℤ) (ts : List TradeObs) → a ≤ℤ b → From b ts → From a ts
From-weaken a b [] h f = tt
From-weaken a b (t ∷ ts) h f = (omega (arith, f.0), From-weaken a b ts h f.1)

insert_obs-From :
    (a : ℤ) (t : TradeObs) (ts : List TradeObs)
    → a ≤ℤ t.available_ms
    → From a ts
    → From a (insert_obs t ts)
unfolding insert_obs
insert_obs-From a t [] h f = (h, tt)
insert_obs-From a t (x ∷ xs) h f = elim (Bool-cases (ltb_ℤ t.available_ms x.available_ms)) [
  | inl before ↦ rw before (h, f)
  | inr after ↦ rw after (f.0, insert_obs-From a t xs h f.1)
]

insert_obs-IsOrdered :
    (t : TradeObs) (ts : List TradeObs) → IsOrdered ts → IsOrdered (insert_obs t ts)
unfolding insert_obs
insert_obs-IsOrdered t [] s = (tt, tt)
insert_obs-IsOrdered t (x ∷ xs) s = elim (Bool-cases (ltb_ℤ t.available_ms x.available_ms)) [
  | inl before ↦
      rw before ((ground arith, From-weaken t.available_ms x.available_ms xs (ground arith) s.0), s)
  | inr after ↦
      rw after
        (insert_obs-From x.available_ms t xs (ground arith) s.0, insert_obs-IsOrdered t xs s.1)
]

-- Every trade of a list is available by a time.
abbrev By : ℤ → List TradeObs → Type 0
By a [] = Unit
By a (t ∷ ts) = (t.available_ms ≤ℤ a) × By a ts

abbrev late_for : List ℤ → ℤ → Bool
late_for keys a = elim (last_of keys) [ none ↦ false | some k ↦ ltb_ℤ a k ]

last-By : (a : ℤ) (ts : List TradeObs) → IsOrdered ts → late_for (keys_of ts) a ≡ false → By a ts
unfolding last_of
last-By a [] s h = tt
last-By a (x ∷ []) s h = (ground arith, tt)
last-By a (x ∷ y ∷ xs) s h =
    let below = last-By a (y ∷ xs) s.1 h in (omega (arith, below.0, s.0.0), below)

insert_obs-last :
    (t : TradeObs) (ts : List TradeObs) → By t.available_ms ts → insert_obs t ts ≡ ts ++ t ∷ []
unfolding insert_obs
insert_obs-last t [] b = refl
insert_obs-last t (x ∷ xs) b =
    let after : ltb_ℤ t.available_ms x.available_ms ≡ false = ground arith in
    rw after (ap (λ l. x ∷ l) (insert_obs-last t xs b.1))

keys_of-append :
    (ts : List TradeObs) (t : TradeObs) → keys_of (ts ++ t ∷ []) ≡ keys_of ts ++ t.available_ms ∷ []
keys_of-append [] t = refl
keys_of-append (x ∷ xs) t = ap (λ l. x.available_ms ∷ l) (keys_of-append xs t)

append-insert :
    (o : PoolObservations) (t : TradeObs)
    → IsStore o
    → ((append o t).trades ≡ insert_obs t o.trades)
      × ((append o t).avail_keys ≡ keys_of (insert_obs t o.trades))
unfolding append is_late
append-insert o t h = elim (Bool-cases (is_late o t)) [
  | inl late ↦ rw (late, h.keyed) (insert_at-trades t o.trades, insert_at-keys t o.trades)
  | inr in_order ↦
      let same =
        insert_obs-last t o.trades
          (last-By t.available_ms o.trades h.ordered (rw h.keyed at in_order)) in
      rw (in_order, same, h.keyed) (refl, sym (keys_of-append o.trades t))
]

-- An observation that is appended, late or not, keeps the trades in the order of their availability, with
-- their times as the keys.
pub append-IsStore : (o : PoolObservations) (t : TradeObs) → IsStore o → IsStore (append o t)
append-IsStore o t h =
    let (ts, ks) = append-insert o t h in
    record { keyed = rw (ts, ks) refl; ordered = rw ts (insert_obs-IsOrdered t o.trades h.ordered) }

available_at-From :
    (as_of a : ℤ) (ts : List TradeObs) → as_of <ℤ a → From a ts → available_at as_of ts ≡ []
unfolding available_at
available_at-From as_of a [] h f = refl
available_at-From as_of a (t ∷ ts) h f =
    let hidden : leb_ℤ t.available_ms as_of ≡ false = ground (arith, f.0) in
    rw hidden (available_at-From as_of a ts h f.1)

take-available :
    (as_of : ℤ) (ts : List TradeObs)
    → IsOrdered ts
    → take (bisect_right (keys_of ts) as_of) ts ≡ available_at as_of ts
unfolding take bisect_right available_at
take-available as_of [] s = refl
take-available as_of (t ∷ ts) s = elim (Bool-cases (ltb_ℤ as_of t.available_ms)) [
  | inl hidden ↦
      let test : leb_ℤ t.available_ms as_of ≡ false = ground arith in
      rw (hidden, test) (sym (available_at-From as_of t.available_ms ts (ground arith) s.0))
  | inr shown ↦
      let test : leb_ℤ t.available_ms as_of ≡ true = ground arith in
      rw (shown, test) (ap (λ l. t ∷ l) (take-available as_of ts s.1))
]

-- What is visible at a time is what a test of each trade's availability gives.
pub visible-available_at :
    (o : PoolObservations) (as_of : ℤ) → IsStore o → visible o as_of ≡ available_at as_of o.trades
unfolding visible
visible-available_at o as_of h = rw h.keyed (take-available as_of o.trades h.ordered)

available_at-insert_obs :
    (as_of : ℤ) (t : TradeObs) (ts : List TradeObs)
    → as_of <ℤ t.available_ms
    → available_at as_of (insert_obs t ts) ≡ available_at as_of ts
unfolding available_at insert_obs
available_at-insert_obs as_of t [] h =
    let hidden : leb_ℤ t.available_ms as_of ≡ false = ground arith in rw hidden refl
available_at-insert_obs as_of t (x ∷ xs) h =
    let hidden : leb_ℤ t.available_ms as_of ≡ false = ground arith in
    let rest = available_at-insert_obs as_of t xs h in
    elim (Bool-cases (ltb_ℤ t.available_ms x.available_ms)) [
      | inl before ↦ rw (before, hidden) refl
      | inr after ↦ rw (after, rest) refl
    ]

-- A trade that is not available yet changes nothing of what is visible.
pub visible-append :
    (o : PoolObservations) (t : TradeObs) (as_of : ℤ)
    → IsStore o
    → as_of <ℤ t.available_ms
    → visible (append o t) as_of ≡ visible o as_of
visible-append o t as_of h later =
    visible-available_at (append o t) as_of (append-IsStore o t h)
    ∙ ap (available_at as_of) (append-insert o t h).0
    ∙ available_at-insert_obs as_of t o.trades later
    ∙ sym (visible-available_at o as_of h)
