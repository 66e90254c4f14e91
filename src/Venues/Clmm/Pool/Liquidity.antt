-- ===== src/Venues/Clmm/Pool/Liquidity.antt =====
-- venues/clmm/pool.py: what a change of liquidity leaves.
use memeval.Prelude.{
  ℕ, ◌≡◌, inl, inr, true, false, ◌&&◌, ok, arith, Bool-cases, >>=-eq-ok, if◌then◌else◌,
}
use memeval.Prelude.Int.{ℤ, pos, ◌+ℤ◌, ◌<ℤ◌, ltb_ℤ, leb_ℤ, eqb_ℤ, int_laws}
use memeval.Venues.Clmm.LiquidityMath.{add_delta, tick_spacing_to_max_liquidity_per_tick}
use memeval.Venues.Clmm.Pool.{
  ClPoolState, Amounts, apply_modify_liquidity, change_position, check_range, position_amounts,
  updated_tick,
}

add_delta-eq : (x : ℕ) (y : ℤ) {z : ℕ} → add_delta x y ≡ ok z → pos z ≡ pos x +ℤ y
unfolding add_delta
add_delta-eq x y h = grind int_laws

position_amounts-active :
    (p : ClPoolState) (lower upper delta : ℤ) {a : Amounts}
    → lower <ℤ upper
    → position_amounts p lower upper delta ≡ ok a
    → pos a.liquidity_after ≡ (
        if leb_ℤ lower p.tick && ltb_ℤ p.tick upper
        then pos p.liquidity +ℤ delta
        else pos p.liquidity)
unfolding position_amounts
position_amounts-active p lower upper delta lt h = grind (arith, add_delta-eq p.liquidity delta)

change_position-eq :
    (p : ClPoolState) (lower upper delta : ℤ) {q : ClPoolState} {r : ℤ × ℤ}
    → change_position p lower upper delta ≡ ok (q, r)
    → (a : Amounts) × (position_amounts p lower upper delta ≡ ok a)
      × (q.sqrt_price_x96 ≡ p.sqrt_price_x96)
      × (q.tick ≡ p.tick)
      × (q.liquidity ≡ a.liquidity_after)
unfolding change_position
change_position-eq p lower upper delta h =
    let (m, _, h1) = >>=-eq-ok (tick_spacing_to_max_liquidity_per_tick (pos p.tick_spacing)) _ h in
    let (_, _, h2) = >>=-eq-ok (updated_tick p.ticks lower delta false m) _ h1 in
    let (_, _, h3) = >>=-eq-ok (updated_tick p.ticks upper delta true m) _ h2 in
    let (a, e, h4) = >>=-eq-ok (position_amounts p lower upper delta) _ h3 in
    (a, e, ground arith, ground arith, ground arith)

ordered :
    (p : ClPoolState) (lower upper delta : ℤ) {q : ClPoolState} {r : ℤ × ℤ}
    → apply_modify_liquidity p lower upper delta ≡ ok (q, r)
    → lower <ℤ upper
unfolding apply_modify_liquidity check_range
ordered p lower upper delta h = ground arith

-- A change of liquidity that succeeds moves neither the price nor the tick, and adds its amount to
-- the active liquidity exactly where the current tick lies in the range.
pub apply_modify_liquidity-active :
    (p : ClPoolState) (lower upper delta : ℤ) {q : ClPoolState} {a b : ℤ}
    → apply_modify_liquidity p lower upper delta ≡ ok (q, (a, b))
    → (q.sqrt_price_x96 ≡ p.sqrt_price_x96)
      × (q.tick ≡ p.tick)
      × (pos q.liquidity ≡ (
          if leb_ℤ lower p.tick && ltb_ℤ p.tick upper
          then pos p.liquidity +ℤ delta
          else pos p.liquidity))
unfolding apply_modify_liquidity
apply_modify_liquidity-active p lower upper delta h =
    let lt = ordered p lower upper delta h in
    let (_, _, h1) = >>=-eq-ok (check_range p lower upper delta) _ h in
    elim (Bool-cases (eqb_ℤ delta (pos 0))) [
      | inl nothing ↦ grind int_laws
      | inr some_change ↦
          let (am, e, e1, e2, e3) = change_position-eq p lower upper delta (rw some_change at h1) in
          (e1, e2, rw e3 (position_amounts-active p lower upper delta lt e))
    ]
