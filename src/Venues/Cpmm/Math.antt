-- ===== src/Venues/Cpmm/Math.antt =====
-- venues/cpmm/math.py: constant-product exact-input arithmetic in integer units.
pub mod Exact
pub mod Bounds
use memeval.Prelude.{not, ◌&&◌, ◌||◌, Result, ok, raise_if, ◌>>=◌, ◌>>◌}
use memeval.Prelude.Int.{ℤ, pos, pos_part, ◌+ℤ◌, ◌-ℤ◌, ◌*ℤ◌, floor_div, leb_ℤ, ltb_ℤ}

-- The reasons that `CpmmMathError` is raised with, here and in pool.py.
pub data CpmmMathError : Type 0 where
  insufficient_input_amount insufficient_output_amount insufficient_liquidity : CpmmMathError
  invalid_fee pool_halted asset_not_in_pool : CpmmMathError

unfoldable pub get_amount_out : ℤ → ℤ → ℤ → ℤ → ℤ → Result CpmmMathError ℤ
get_amount_out amount_in reserve_in reserve_out fee_num fee_den = do
  raise_if (leb_ℤ amount_in (pos 0)) insufficient_input_amount
  raise_if (leb_ℤ reserve_in (pos 0) || leb_ℤ reserve_out (pos 0)) insufficient_liquidity
  raise_if (not (ltb_ℤ (pos 0) fee_num && leb_ℤ fee_num fee_den)) invalid_fee
  let amount_in_with_fee = amount_in *ℤ fee_num
  let numerator = amount_in_with_fee *ℤ reserve_out
  let denominator = reserve_in *ℤ fee_den +ℤ amount_in_with_fee
  ok (floor_div numerator (pos_part denominator))

-- The denominator is positive where the fee is; the source has no check of it.
unfoldable pub get_amount_in : ℤ → ℤ → ℤ → ℤ → ℤ → Result CpmmMathError ℤ
get_amount_in amount_out reserve_in reserve_out fee_num fee_den = do
  raise_if (leb_ℤ amount_out (pos 0)) insufficient_output_amount
  raise_if (leb_ℤ reserve_in (pos 0) || leb_ℤ reserve_out (pos 0) || leb_ℤ reserve_out amount_out)
      insufficient_liquidity
  let numerator = reserve_in *ℤ amount_out *ℤ fee_den
  let denominator = (reserve_out -ℤ amount_out) *ℤ fee_num
  ok (floor_div numerator (pos_part denominator) +ℤ pos 1)
