-- ===== src/Venues/Clmm/FullMath.antt =====
-- venues/clmm/math.py, FullMath and UnsafeMath. What Solidity types as an unsigned integer is a
-- natural number here, so that of `_check_uint` the upper half is left to test.
pub mod Rounding
use memeval.Prelude.{
  ℕ, ◌+◌, ◌-◌, ◌*◌, ◌/◌, ◌%◌, ◌^◌, Bool, not, ◌||◌, Result, ok, raise_if, ◌>>=◌, ◌>>◌, ltb, ◌==◌,
  if◌then◌else◌,
}
use memeval.Prelude.Int.{ℤ, pos, neg, ltb_ℤ}

abbrev pub max_uint256 : ℕ
max_uint256 = 2 ^ 256 - 1

abbrev pub max_uint160 : ℕ
max_uint160 = 2 ^ 160 - 1

abbrev pub max_uint128 : ℕ
max_uint128 = 2 ^ 128 - 1

abbrev pub max_int128 : ℤ
max_int128 = pos (2 ^ 127 - 1)

abbrev pub min_int128 : ℤ
min_int128 = neg (pos (2 ^ 127))

abbrev pub max_int256 : ℤ
max_int256 = pos (2 ^ 255 - 1)

abbrev pub min_int256 : ℤ
min_int256 = neg (pos (2 ^ 255))

abbrev pub q96 : ℕ
q96 = 2 ^ 96

-- The codes that `ClMathError` is raised with, here and in pool.py: `tick_bound` is "T",
-- `ratio_bound` "R", `fee_bound` "F", `as_zero` "AS", and the others are spelled as in the source.
pub data ClMathError : Type 0 where
  u256 u160 u128 i128 i256 muldiv div0 tick_bound ratio_bound price liq fee_bound ls la ts :
      ClMathError
  tick_entry pool_halted tlu tlm tum lo as_zero spl asset_not_in_pool : ClMathError
  insufficient_input_amount insufficient_output_amount output_ratio_unsupported : ClMathError

abbrev pub Checked : Type 0 → Type 0
Checked A = Result ClMathError A

unfoldable pub check_uint : ℕ → ℕ → ClMathError → Checked (Unit {0})
check_uint value max_value code = raise_if (ltb max_value value) code

unfoldable pub check_int : ℤ → ℤ → ℤ → ClMathError → Checked (Unit {0})
check_int value min_value max_value code =
    raise_if (ltb_ℤ value min_value || ltb_ℤ max_value value) code

unfoldable pub mul_div : ℕ → ℕ → ℕ → Checked ℕ
unfolding check_uint
mul_div a b denominator = do
  check_uint a max_uint256 u256
  check_uint b max_uint256 u256
  check_uint denominator max_uint256 u256
  raise_if (denominator == 0) muldiv
  let result = a * b / denominator
  raise_if (ltb max_uint256 result) muldiv
  ok result

unfoldable pub mul_div_rounding_up : ℕ → ℕ → ℕ → Checked ℕ
unfolding mul_div
mul_div_rounding_up a b denominator = do
  result ← mul_div a b denominator
  if not (a * b % denominator == 0)
      then raise_if (result == max_uint256) muldiv >> ok (result + 1)
      else ok result

unfoldable pub div_rounding_up : ℕ → ℕ → Checked ℕ
unfolding check_uint
div_rounding_up x y = do
  check_uint x max_uint256 u256
  check_uint y max_uint256 u256
  raise_if (y == 0) div0
  ok (x / y + (if not (x % y == 0) then 1 else 0))
