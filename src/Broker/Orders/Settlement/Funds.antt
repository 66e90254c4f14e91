-- ===== src/Broker/Orders/Settlement/Funds.antt =====
-- The settlement of engine/simulation.py: what the participant holds before and after.
use Prim.Native.String.{◌++◌ as text_append}
use memeval.Prelude.{
  ℕ, ◌≡◌, refl, String, none, List, [], ◌++◌, arith, inl, inr, ◌==◌, ok, >>=-eq-ok, Bool-cases,
  Option-cases, if◌then◌else◌, str_eq,
}
use memeval.Prelude.Int.{ℤ, pos, neg, ◌+ℤ◌, ◌-ℤ◌, ◌≤ℤ◌, int_laws}
use memeval.Domain.Status.{OrderState}
use memeval.Broker.Ledger.{
  Leg, LedgerEntry, Cause, Ledger, balance, first_short, post, revert_gas, confirm,
}
use memeval.Broker.Ledger.Accounts.{
  Account, agent_available, agent_reserved, agent_pending, sink_gas, is_agent,
}
use memeval.Broker.Ledger.Sums.{asset_sum, key_sum, balance_in-apply_legs}
use memeval.Broker.Ledger.Invariant.{post-eq-ok, post_accepted, refusal-none_of}
use memeval.Broker.Orders.{Order}
use memeval.Broker.Orders.Settlement.Legs.{key_sum-append, asset_sum-append, asset_sum-move}
use memeval.Broker.Orders.Settlement.{
  move, return_legs, release_order, revert_order, is_filled, confirm_fill, confirm_order,
}

-- What the participant holds of an asset, wherever it is kept.
unfoldable pub holdings : Ledger → String → ℤ
unfolding balance
holdings l asset =
    balance l agent_available asset
    +ℤ balance l agent_reserved asset
    +ℤ balance l agent_pending asset

unfoldable pub agent_sum : String → List Leg → ℤ
unfolding key_sum
agent_sum asset legs =
    key_sum agent_available asset legs
    +ℤ key_sum agent_reserved asset legs
    +ℤ key_sum agent_pending asset legs

post-holdings :
    (l : Ledger) (t : ℤ) (k : Cause) (r : String) (legs : List Leg) (n : String) {l' : Ledger}
    {e : LedgerEntry}
    → post l t k r legs n ≡ ok (l', e)
    → (asset : String) → holdings l' asset ≡ holdings l asset +ℤ agent_sum asset legs
unfolding holdings balance agent_sum
post-holdings l t k r legs n h asset =
    let (_, _, bs) = post-eq-ok l t k r legs n h in
    let at = λ (a : Account). balance_in-apply_legs l.balances legs a asset in
    rw (bs, at agent_available, at agent_reserved, at agent_pending) (omega int_laws)

agent_sum-release :
    (num : String) (o : Order) (asset : String)
    → agent_sum asset (return_legs num o agent_available) ≡ pos 0
unfolding agent_sum key_sum
agent_sum-release num o asset = grind int_laws

abbrev pub gas_in : String → String → ℕ → ℤ
gas_in num asset gas = if str_eq num asset then pos gas else pos 0

agent_sum-append :
    (asset : String) (xs ys : List Leg)
    → agent_sum asset (xs ++ ys) ≡ agent_sum asset xs +ℤ agent_sum asset ys
unfolding agent_sum
agent_sum-append asset xs ys =
    rw
      (
        key_sum-append agent_available asset xs ys,
        key_sum-append agent_reserved asset xs ys,
        key_sum-append agent_pending asset xs ys,
      )
      (omega int_laws)

agent_sum-principal :
    (asset from : String) (x : ℕ)
    → agent_sum asset (move agent_reserved agent_available from x) ≡ pos 0
unfolding agent_sum key_sum
agent_sum-principal asset from x = grind int_laws

agent_sum-gas :
    (asset num : String) (x : ℕ)
    → agent_sum asset (if x == 0 then [] else move agent_reserved sink_gas num x)
      ≡ neg (gas_in num asset x)
unfolding agent_sum key_sum
agent_sum-gas asset num x = grind int_laws

agent_sum-revert :
    (num : String) (o : Order) (asset : String)
    → agent_sum asset (return_legs num o sink_gas) ≡ neg (gas_in num asset o.reserved_gas)
agent_sum-revert num o asset =
    rw
      (
        agent_sum-append asset (move agent_reserved agent_available o.asset_in o.amount_in) _,
        agent_sum-principal asset o.asset_in o.amount_in,
        agent_sum-gas asset num o.reserved_gas,
      )
      (omega int_laws)

agent_sum-confirm :
    (asset to : String) (x : ℕ) → agent_sum asset (move agent_pending agent_available to x) ≡ pos 0
unfolding agent_sum key_sum
agent_sum-confirm asset to x = grind int_laws

-- A release that succeeds leaves the participant with what was held before, of every asset.
pub release_order-holdings :
    (num : String) (l : Ledger) (o : Order) (t : ℤ) (k : Cause) (note : String) {l' : Ledger}
    → release_order num l o t k note ≡ ok l'
    → (asset : String) → holdings l' asset ≡ holdings l asset
unfolding release_order
release_order-holdings num l o t k note {l'} h asset =
    let ((after, e), ran, rest) =
      >>=-eq-ok (post l t k o.order_id (return_legs num o agent_available) note) _ h in
    let moved = post-holdings l t k o.order_id (return_legs num o agent_available) note ran asset in
    let same : after ≡ l' = ground arith in
    rw (← same, moved, agent_sum-release num o asset) (omega int_laws)

-- A revert that succeeds costs the participant the order's gas, of the numeraire, and nothing else;
-- the order ends as reverted.
pub revert_order-holdings :
    (num : String) (l : Ledger) (o : Order) (t block : ℤ) (reason : String) {l' : Ledger}
    {o' : Order}
    → revert_order num l o t block reason ≡ ok (l', o')
    → (o'.state ≡ OrderState.reverted)
      × ((asset : String) → holdings l' asset ≡ holdings l asset -ℤ gas_in num asset o.reserved_gas)
unfolding revert_order
revert_order-holdings num l o t block reason {l'} {o'} h =
    let legs = return_legs num o sink_gas in
    let ((after, e), ran, rest) =
      >>=-eq-ok (post l t revert_gas o.order_id legs (text_append "reverted: " reason)) _ h in
    let same : after ≡ l' = ground arith in
    let ended : o'.state ≡ OrderState.reverted = ground arith in
    (
      ended,
      λ asset.
          let moved =
            post-holdings l t revert_gas o.order_id legs (text_append "reverted: " reason) ran
              asset in
          rw (← same, moved, agent_sum-revert num o asset) (omega int_laws),
    )

confirm_fill-holdings :
    (l : Ledger) (o : Order) (t : ℤ) (out : ℕ) {l' : Ledger} {o' : Order}
    → confirm_fill l o t out ≡ ok (l', o')
    → (asset : String) → holdings l' asset ≡ holdings l asset
unfolding confirm_fill
confirm_fill-holdings l o t out {l'} h asset =
    let legs = move agent_pending agent_available o.asset_out out in
    let ((after, e), ran, rest) =
      >>=-eq-ok (post l t confirm o.order_id legs "fill confirmed") _ h in
    let moved = post-holdings l t confirm o.order_id legs "fill confirmed" ran asset in
    let same : after ≡ l' = ground arith in
    rw (← same, moved, agent_sum-confirm asset o.asset_out out) (omega int_laws)

-- A confirmation that succeeds leaves the participant with what was held before, of every asset.
pub confirm_order-holdings :
    (l : Ledger) (o : Order) (t : ℤ) {l' : Ledger} {o' : Order}
    → confirm_order l o t ≡ ok (l', o')
    → (asset : String) → holdings l' asset ≡ holdings l asset
unfolding confirm_order
confirm_order-holdings l o t {l'} h asset = elim (Bool-cases (is_filled o.state)) [
  | inr idle ↦ let same : l ≡ l' = ground arith in rw same refl
  | inl filled ↦ elim (Option-cases o.amount_out) [
    | inl nothing ↦ let same : l ≡ l' = ground arith in rw same refl
    | inr (out, amount) ↦
        confirm_fill-holdings l o t out (rw (filled, amount, confirm_order) at h) asset
  ]
]

asset_sum-revert :
    (num : String) (o : Order) (asset : String)
    → asset_sum asset (return_legs num o sink_gas) ≡ pos 0
unfolding asset_sum
asset_sum-revert num o asset = elim (Bool-cases (o.reserved_gas == 0)) [
  | inl free ↦
      rw
        (
          free,
          asset_sum-append asset (move agent_reserved agent_available o.asset_in o.amount_in) [],
          asset_sum-move asset agent_reserved agent_available o.asset_in o.amount_in,
        )
        (omega int_laws)
  | inr paid ↦
      rw
        (
          paid,
          asset_sum-append asset (move agent_reserved agent_available o.asset_in o.amount_in)
              (move agent_reserved sink_gas num o.reserved_gas),
          asset_sum-move asset agent_reserved agent_available o.asset_in o.amount_in,
          asset_sum-move asset agent_reserved sink_gas num o.reserved_gas,
        )
        (omega int_laws)
]

first_short-revert :
    (num : String) (o : Order) (l : Ledger)
    → pos o.amount_in ≤ℤ balance l agent_reserved o.asset_in
    → pos o.reserved_gas ≤ℤ balance l agent_reserved num
    → pos 0 ≤ℤ balance l agent_available o.asset_in
    → first_short l.balances (return_legs num o sink_gas) ≡ none
unfolding first_short balance is_agent
first_short-revert num o l h g a = grind int_laws

-- Where the reserved balances cover the principal and the gas, each of them, and the available
-- balance of the principal's asset is not negative, a revert succeeds.
pub revert_order_total :
    (num : String) (l : Ledger) (o : Order) (t block : ℤ) (reason : String)
    → pos o.amount_in ≤ℤ balance l agent_reserved o.asset_in
    → pos o.reserved_gas ≤ℤ balance l agent_reserved num
    → pos 0 ≤ℤ balance l agent_available o.asset_in
    → (r : Ledger × Order) × (revert_order num l o t block reason ≡ ok r)
unfolding revert_order
revert_order_total num l o t block reason h g a =
    let legs = return_legs num o sink_gas in
    let fine =
      refusal-none_of l legs (λ s. asset_sum-revert num o s) (first_short-revert num o l h g a) in
    let ran = post_accepted l t revert_gas o.order_id legs (text_append "reverted: " reason) fine in
    rw ran (_, refl)
