-- ===== src/Engine/Venue/Cpmm.antt =====
-- The constant-product pool as a venue of engine/simulation.py.
use memeval.Prelude.{◌≡◌, String, none, Result, ok, ◌>>=◌, arith, Result-cases, inl, inr}
use memeval.Prelude.Int.{ℤ, pos, ◌+ℤ◌, ◌-ℤ◌, ◌<ℤ◌}
use memeval.Venues.Cpmm.Math.{CpmmMathError}
use memeval.Venues.Cpmm.Pool.{
  CpmmPoolState, other, depth_for, max_out, apply_swap, scaled, transfer_blocked,
}
use memeval.Venues.Cpmm.Pool.Reserves.{apply_swap-product}
use memeval.Engine.Venue.{Venue, StateAfter}

-- the branch of `_capacity_check` for a constant-product pool
unfoldable pub depth_after : CpmmPoolState → String → ℤ → ℤ → Result CpmmMathError (ℤ × ℤ)
depth_after p asset_in amount_in out = do
  (rin, rout) ← depth_for p asset_in
  ok (rin +ℤ amount_in, rout -ℤ out)

pub swap_quoted :
    (p : CpmmPoolState) (asset : String) (amount : ℤ) (q : CpmmPoolState) (out : ℤ)
    → apply_swap p asset amount none ≡ ok (q, out)
    → max_out p asset amount ≡ ok out
unfolding apply_swap scaled
swap_quoted p asset amount q out h = elim (Result-cases (max_out p asset amount)) [
  | inl (best, e) ↦ ground arith
  | inr (bad, e) ↦ ground arith
]

pub swap_pays :
    (p : CpmmPoolState) (asset : String) (amount : ℤ) (q : CpmmPoolState) (out : ℤ)
    → apply_swap p asset amount none ≡ ok (q, out)
    → pos 0 <ℤ out
swap_pays p asset amount q out h = (apply_swap-product p asset amount none tt h).1

abbrev cpmm_state_after : CpmmPoolState → StateAfter
cpmm_state_after p = record {
  reserve0 = p.reserve0;
  reserve1 = p.reserve1;
  sqrt_price_x96 = none;
  tick = none;
  liquidity = none;
}

abbrev pub cpmm_venue : Venue CpmmPoolState CpmmMathError
cpmm_venue = record {
  key = λ p. p.key;
  asset0 = λ p. p.asset0;
  asset1 = λ p. p.asset1;
  halted = λ p. p.halted;
  fee_num = λ p. p.fee_num;
  fee_den = λ p. p.fee_den;
  other = other;
  depth_for = depth_for;
  max_out = max_out;
  apply_swap = λ p asset amount. apply_swap p asset amount none;
  transfer_blocked = transfer_blocked;
  depth_after = depth_after;
  state_after = cpmm_state_after;
  swap_quoted = swap_quoted;
  swap_pays = swap_pays;
}
