-- ===== src/Venues/Clmm/LiquidityMath.antt =====
-- venues/clmm/math.py, LiquidityMath and Tick.
use memeval.Prelude.{ℕ, ◌/◌, ok, raise_if, ◌>>◌, if◌then◌else◌}
use memeval.Prelude.Int.{ℤ, pos, pos_part, neg, ◌+ℤ◌, ◌-ℤ◌, ◌*ℤ◌, floor_div, ltb_ℤ, leb_ℤ}
use memeval.Venues.Clmm.FullMath.{
  Checked, check_int, check_uint, max_uint128, min_int128, max_int128, u128, i128, ls, la, ts,
}
use memeval.Venues.Clmm.TickMath.{max_tick}

unfoldable pub add_delta : ℕ → ℤ → Checked ℕ
unfolding check_int check_uint
add_delta x y = do
  check_uint x max_uint128 u128
  check_int y min_int128 max_int128 i128
  let z = pos x +ℤ y
  if ltb_ℤ y (pos 0) then raise_if (ltb_ℤ z (pos 0)) ls else raise_if (ltb_ℤ (pos max_uint128) z) la
  ok (pos_part z)

unfoldable pub tick_spacing_to_max_liquidity_per_tick : ℤ → Checked ℕ
unfolding floor_div
tick_spacing_to_max_liquidity_per_tick tick_spacing = do
  raise_if (leb_ℤ tick_spacing (pos 0)) ts
  let spacing = pos_part tick_spacing
  let min_tick = neg (pos (max_tick / spacing)) *ℤ tick_spacing
  let top_tick = pos (max_tick / spacing) *ℤ tick_spacing
  let num_ticks = floor_div (top_tick -ℤ min_tick) spacing +ℤ pos 1
  ok (max_uint128 / pos_part num_ticks)
