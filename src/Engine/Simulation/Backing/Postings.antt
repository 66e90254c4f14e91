-- ===== src/Engine/Simulation/Backing/Postings.antt =====
-- engine/simulation.py: the postings of `_include` and `_confirm` on a backed ledger. Each is accepted,
-- and with the write of its order it leaves the ledger backed.
use memeval.Prelude.{ℕ, ◌+◌, ◌≡◌, refl, inr, String, true, false, some, ok, arith, eq_iff, nat_eq}
use memeval.Prelude.Int.{ℤ, pos, ◌≤ℤ◌, int_laws}
use memeval.Prelude.Dict.{Dict, get, put}
use memeval.Prelude.Dict.Sum.{measure_at, measure_at-some}
use memeval.Broker.Ledger.{Ledger, Cause, balance, post, posted, new_entry, fill, confirm}
use memeval.Broker.Ledger.Accounts.{
  Account, account_beq, agent_available, agent_reserved, agent_pending,
}
use memeval.Broker.Ledger.Invariant.{post_accepted}
use memeval.Broker.Ledger.Sums.{key_sum}
use memeval.Broker.Orders.{Order}
use memeval.Broker.Orders.Settlement.{move, return_legs, is_filled}
use memeval.Broker.Orders.Settlement.Legs.{Covers}
use memeval.Engine.Simulation.Inclusion.{is_pending, fill_legs}
use memeval.Engine.Simulation.Backing.{
  in_asset, need, due, IsBacked, post-IsBacked, reserved_covers, owed_covers,
}
use memeval.Engine.Simulation.Backing.Legs.{
  reserved-return, available-return, pending-return, reserved-fill, available-fill, pending-fill,
  return_accepted, fill_accepted, confirm_accepted,
}

module _ (num : String) (l : Ledger) (orders : Dict ℕ Order) (n : ℕ) (o : Order) where
  covers_principal :
      IsBacked num l orders
      → get orders n ≡ some o
      → is_pending o.state ≡ true
      → pos o.amount_in ≤ℤ balance l agent_reserved o.asset_in
  covers_principal b at pending =
      let c = reserved_covers num o.asset_in l orders n o b at in
      ground (arith, eq_iff o.asset_in o.asset_in)

  covers_gas :
      IsBacked num l orders
      → get orders n ≡ some o
      → is_pending o.state ≡ true
      → pos o.reserved_gas ≤ℤ balance l agent_reserved num
  covers_gas b at pending =
      let c = reserved_covers num num l orders n o b at in ground (arith, eq_iff num num)

  need_at :
      (asset : String)
      → get orders n ≡ some o
      → is_pending o.state ≡ true
      → measure_at (need num asset) orders n
        ≡ in_asset o.asset_in asset o.amount_in + in_asset num asset o.reserved_gas
  need_at asset at pending = rw (measure_at-some (need num asset) orders n at, pending) refl

  not_due :
      (asset : String)
      → get orders n ≡ some o
      → is_pending o.state ≡ true
      → measure_at (due asset) orders n ≡ 0
  not_due asset at pending = rw (measure_at-some (due asset) orders n at) (ground arith)

  -- The return of what a pending order has reserved.
  pub return-IsBacked :
      (t : ℤ) (k : Cause) (to : Account) (note : String) (o' : Order)
      → IsBacked num l orders
      → get orders n ≡ some o
      → is_pending o.state ≡ true
      → is_pending o'.state ≡ false
      → is_filled o'.state ≡ false
      → account_beq to agent_reserved ≡ false
      → account_beq to agent_pending ≡ false
      → Covers l.balances to num 0
      → let legs = return_legs num o to in
        (post l t k o.order_id legs note
          ≡ ok (posted l t k o.order_id legs note, new_entry l t k o.order_id legs note))
        × IsBacked num (posted l t k o.order_id legs note) (put orders n o')
  unfolding balance
  return-IsBacked t k to note o' b at pending idle unfilled nr np room =
      let legs = return_legs num o to in
      let ran = post_accepted l t k o.order_id legs note (
        return_accepted num l o to (inr (covers_principal b at pending))
          (inr (covers_gas b at pending)) (inr (b.available o.asset_in)) room) in
      (
        ran,
        post-IsBacked num l orders n o' t k o.order_id legs note b ran
            (λ asset.
              rw (reserved-return num asset o to nr, need_at asset at pending, idle)
                (omega int_laws))
            (λ asset.
              rw (pending-return num asset o to np, not_due asset at pending, unfilled)
                (omega int_laws))
            (λ asset.
              let a = available-return num asset o to in
              let c = b.available asset in omega int_laws),
      )

  -- The fill of a pending order.
  pub fill-IsBacked :
      (t : ℤ) (out : ℕ) (note : String) (o' : Order)
      → IsBacked num l orders
      → get orders n ≡ some o
      → is_pending o.state ≡ true
      → is_pending o'.state ≡ false
      → is_filled o'.state ≡ true
      → o'.amount_out ≡ some out
      → o'.asset_out ≡ o.asset_out
      → let legs = fill_legs num o out in
        (post l t fill o.order_id legs note
          ≡ ok (posted l t fill o.order_id legs note, new_entry l t fill o.order_id legs note))
        × IsBacked num (posted l t fill o.order_id legs note) (put orders n o')
  unfolding balance
  fill-IsBacked t out note o' b at pending idle full amount same =
      let legs = fill_legs num o out in
      let owed : pos 0 ≤ℤ balance l agent_pending o.asset_out =
        rw (b.owed o.asset_out) (omega arith) in
      let ran = post_accepted l t fill o.order_id legs note (
        fill_accepted num l o out (inr (covers_principal b at pending))
          (inr (covers_gas b at pending)) (inr owed)) in
      (
        ran,
        post-IsBacked num l orders n o' t fill o.order_id legs note b ran
            (λ asset.
              rw (reserved-fill num asset o out, need_at asset at pending, idle) (omega int_laws))
            (λ asset.
              rw (pending-fill num asset o out, not_due asset at pending, full, amount, same)
                (omega int_laws))
            (λ asset.
              let c = b.available asset in rw (available-fill num asset o out) (omega int_laws)),
      )

  -- The confirmation of a filled order.
  pub confirm-IsBacked :
      (t : ℤ) (out : ℕ) (note : String) (o' : Order)
      → IsBacked num l orders
      → get orders n ≡ some o
      → is_filled o.state ≡ true
      → o.amount_out ≡ some out
      → is_pending o'.state ≡ false
      → is_filled o'.state ≡ false
      → let legs = move agent_pending agent_available o.asset_out out in
        (post l t confirm o.order_id legs note
          ≡ ok
              (posted l t confirm o.order_id legs note, new_entry l t confirm o.order_id legs note))
        × IsBacked num (posted l t confirm o.order_id legs note) (put orders n o')
  unfolding balance key_sum
  confirm-IsBacked t out note o' b at full amount idle unfilled =
      let legs = move agent_pending agent_available o.asset_out out in
      let c = owed_covers num o.asset_out l orders n o b at in
      let covered : pos out ≤ℤ balance l agent_pending o.asset_out =
        ground (arith, eq_iff o.asset_out o.asset_out) in
      let ran =
        post_accepted l t confirm o.order_id legs note
          (confirm_accepted l o out (inr covered) (inr (b.available o.asset_out))) in
      (
        ran,
        post-IsBacked num l orders n o' t confirm o.order_id legs note b ran
            (λ asset. rw (measure_at-some (need num asset) orders n at, idle) (grind int_laws))
            (λ asset.
              rw (measure_at-some (due asset) orders n at, full, amount, unfilled) (grind int_laws))
            (λ asset. let c = b.available asset in grind int_laws),
      )
