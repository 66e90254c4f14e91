-- ===== src/Venues/Clmm/SqrtPriceMath.antt =====
-- venues/clmm/math.py, SqrtPriceMath: the price that an amount moves the pool to, and the amounts
-- between two prices.
pub mod Input
pub mod Positions
use memeval.Prelude.{
  ℕ, ◌+◌, ◌-◌, ◌*◌, ◌/◌, ◌^◌, Bool, true, false, ◌||◌, Result, ok, err, raise_if, ◌>>=◌, ◌>>◌, ltb,
  leb, ◌==◌, min, max, if◌then◌else◌,
}
use memeval.Prelude.Int.{ℤ, pos, pos_part, neg_part, neg, ltb_ℤ}
use memeval.Venues.Clmm.FullMath.{
  Checked, check_int, check_uint, mul_div, mul_div_rounding_up, div_rounding_up, max_uint256,
  max_uint160, max_uint128, min_int128, max_int128, q96, u160, u128, u256, i128, price, div0, liq,
}

-- the divisor's second form, for a product that would overflow
abbrev fallback0 : ℕ → ℕ → ℕ → Checked ℕ
fallback0 sqrt_p_x96 numerator1 amount =
    let divisor = numerator1 / sqrt_p_x96 + amount in
    raise_if (ltb max_uint256 divisor) price >> div_rounding_up numerator1 divisor

abbrev add0 : ℕ → ℕ → ℕ → Checked ℕ
add0 sqrt_p_x96 numerator1 amount =
    let product = amount * sqrt_p_x96 in
    if leb product max_uint256
    then if leb (numerator1 + product) max_uint256
      then mul_div_rounding_up numerator1 sqrt_p_x96 (numerator1 + product)
      else fallback0 sqrt_p_x96 numerator1 amount
    else fallback0 sqrt_p_x96 numerator1 amount

abbrev remove0 : ℕ → ℕ → ℕ → Checked ℕ
remove0 sqrt_p_x96 numerator1 amount =
    let product = amount * sqrt_p_x96 in
    do
      raise_if (ltb max_uint256 product || leb numerator1 product) price
      result ← mul_div_rounding_up numerator1 sqrt_p_x96 (numerator1 - product)
      raise_if (ltb max_uint160 result) price
      ok result

unfoldable pub get_next_sqrt_price_from_amount0_rounding_up : ℕ → ℕ → ℕ → Bool → Checked ℕ
unfolding check_uint
get_next_sqrt_price_from_amount0_rounding_up sqrt_p_x96 liquidity amount add = do
  check_uint sqrt_p_x96 max_uint160 u160
  check_uint liquidity max_uint128 u128
  check_uint amount max_uint256 u256
  if amount == 0
      then ok sqrt_p_x96
      else if add
      then add0 sqrt_p_x96 (liquidity * q96) amount
      else remove0 sqrt_p_x96 (liquidity * q96) amount

abbrev add1 : ℕ → ℕ → ℕ → Checked ℕ
add1 sqrt_p_x96 liquidity amount = do
  quotient ←
      if leb amount max_uint160 then ok (amount * q96 / liquidity) else mul_div amount q96 liquidity
  raise_if (ltb max_uint160 (sqrt_p_x96 + quotient)) price
  ok (sqrt_p_x96 + quotient)

abbrev remove1 : ℕ → ℕ → ℕ → Checked ℕ
remove1 sqrt_p_x96 liquidity amount = do
  quotient ←
      if leb amount max_uint160
      then div_rounding_up (amount * q96) liquidity
      else mul_div_rounding_up amount q96 liquidity
  raise_if (leb sqrt_p_x96 quotient) price
  ok (sqrt_p_x96 - quotient)

unfoldable pub get_next_sqrt_price_from_amount1_rounding_down : ℕ → ℕ → ℕ → Bool → Checked ℕ
unfolding check_uint
get_next_sqrt_price_from_amount1_rounding_down sqrt_p_x96 liquidity amount add = do
  check_uint sqrt_p_x96 max_uint160 u160
  check_uint liquidity max_uint128 u128
  check_uint amount max_uint256 u256
  raise_if (liquidity == 0) div0
  if add then add1 sqrt_p_x96 liquidity amount else remove1 sqrt_p_x96 liquidity amount

unfoldable pub get_next_sqrt_price_from_input : ℕ → ℕ → ℕ → Bool → Checked ℕ
get_next_sqrt_price_from_input sqrt_p_x96 liquidity amount_in zero_for_one = do
  raise_if (sqrt_p_x96 == 0) price
  raise_if (liquidity == 0) liq
  if zero_for_one
      then get_next_sqrt_price_from_amount0_rounding_up sqrt_p_x96 liquidity amount_in true
      else get_next_sqrt_price_from_amount1_rounding_down sqrt_p_x96 liquidity amount_in true

unfoldable pub get_next_sqrt_price_from_output : ℕ → ℕ → ℕ → Bool → Checked ℕ
get_next_sqrt_price_from_output sqrt_p_x96 liquidity amount_out zero_for_one = do
  raise_if (sqrt_p_x96 == 0) price
  raise_if (liquidity == 0) liq
  if zero_for_one
      then get_next_sqrt_price_from_amount1_rounding_down sqrt_p_x96 liquidity amount_out false
      else get_next_sqrt_price_from_amount0_rounding_up sqrt_p_x96 liquidity amount_out false

-- the body of `get_amount0_delta` at ordered prices
unfoldable pub delta0 : ℕ → ℕ → ℕ → Bool → Checked ℕ
delta0 lower upper liquidity round_up = do
  raise_if (lower == 0) price
  if round_up
      then (mul_div_rounding_up (liquidity * q96) (upper - lower) upper >>= λ q.
          div_rounding_up q lower)
      else mul_div (liquidity * q96) (upper - lower) upper >>= λ q. ok (q / lower)

unfoldable pub get_amount0_delta : ℕ → ℕ → ℕ → Bool → Checked ℕ
unfolding check_uint
get_amount0_delta a b liquidity round_up = do
  check_uint a max_uint160 u160
  check_uint b max_uint160 u160
  check_uint liquidity max_uint128 u128
  if ltb b a then delta0 b a liquidity round_up else delta0 a b liquidity round_up

-- the body of `get_amount1_delta` at ordered prices
unfoldable pub delta1 : ℕ → ℕ → ℕ → Bool → Checked ℕ
delta1 lower upper liquidity round_up =
    if round_up
    then mul_div_rounding_up liquidity (upper - lower) q96
    else mul_div liquidity (upper - lower) q96

unfoldable pub get_amount1_delta : ℕ → ℕ → ℕ → Bool → Checked ℕ
unfolding check_uint
get_amount1_delta a b liquidity round_up = do
  check_uint a max_uint160 u160
  check_uint b max_uint160 u160
  check_uint liquidity max_uint128 u128
  if ltb b a then delta1 b a liquidity round_up else delta1 a b liquidity round_up

unfoldable pub get_amount0_delta_signed : ℕ → ℕ → ℤ → Checked ℤ
unfolding check_int
get_amount0_delta_signed a b liquidity_delta = do
  check_int liquidity_delta min_int128 max_int128 i128
  if ltb_ℤ liquidity_delta (pos 0)
      then (get_amount0_delta a b (neg_part liquidity_delta) false >>= λ x. ok (neg (pos x)))
      else get_amount0_delta a b (pos_part liquidity_delta) true >>= λ x. ok (pos x)

unfoldable pub get_amount1_delta_signed : ℕ → ℕ → ℤ → Checked ℤ
unfolding check_int
get_amount1_delta_signed a b liquidity_delta = do
  check_int liquidity_delta min_int128 max_int128 i128
  if ltb_ℤ liquidity_delta (pos 0)
      then (get_amount1_delta a b (neg_part liquidity_delta) false >>= λ x. ok (neg (pos x)))
      else get_amount1_delta a b (pos_part liquidity_delta) true >>= λ x. ok (pos x)
