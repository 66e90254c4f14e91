-- ===== src/Venues/Clmm/SwapMath.antt =====
-- venues/clmm/math.py, SwapMath: one step of a swap within a range of constant liquidity. An
-- amount that remains is non-negative for an exact input and negative for an exact output.
pub mod Spend
use memeval.Prelude.{
  ℕ, ◌+◌, ◌-◌, Bool, true, false, not, ◌&&◌, Result, ok, ◌>>=◌, ◌>>◌, ltb, leb, ◌==◌, if◌then◌else◌,
}
use memeval.Prelude.Int.{ℤ, pos, pos_part, neg_part, ◌-ℤ◌, leb_ℤ}
use memeval.Venues.Clmm.FullMath.{
  Checked, check_int, check_uint, mul_div, mul_div_rounding_up, max_uint160, max_uint128,
  min_int256, max_int256, u160, u128, i256, fee_bound,
}
use memeval.Venues.Clmm.SqrtPriceMath.{
  get_amount0_delta, get_amount1_delta, get_next_sqrt_price_from_input,
  get_next_sqrt_price_from_output,
}

abbrev pub fee_denominator : ℕ
fee_denominator = 1000000

pub record Step : Type 0 where
  pub sqrt_ratio_next_x96 : ℕ
  pub amount_in : ℕ
  pub amount_out : ℕ
  pub fee_amount : ℤ

-- the input between two prices, rounded up, and the output between them, rounded down
unfoldable pub in_between : Bool → ℕ → ℕ → ℕ → Checked ℕ
in_between true current next liquidity = get_amount0_delta next current liquidity true
in_between false current next liquidity = get_amount1_delta current next liquidity true

unfoldable pub out_between : Bool → ℕ → ℕ → ℕ → Checked ℕ
out_between true current next liquidity = get_amount1_delta next current liquidity false
out_between false current next liquidity = get_amount0_delta current next liquidity false

-- the exact-input half: the next price, and the input up to the target
unfoldable pub next_exact_in : Bool → ℕ → ℕ → ℕ → ℕ → ℕ → Checked (ℕ × ℕ)
next_exact_in zero_for_one current target liquidity remaining fee_pips = do
  less_fee ← mul_div remaining (fee_denominator - fee_pips) fee_denominator
  amount_in ← in_between zero_for_one current target liquidity
  next ←
      if leb amount_in less_fee
      then ok target
      else get_next_sqrt_price_from_input current liquidity less_fee zero_for_one
  ok (next, amount_in)

-- the exact-output half: the next price, and the output up to the target
unfoldable pub next_exact_out : Bool → ℕ → ℕ → ℕ → ℕ → Checked (ℕ × ℕ)
next_exact_out zero_for_one current target liquidity wanted = do
  amount_out ← out_between zero_for_one current target liquidity
  next ←
      if leb amount_out wanted
      then ok target
      else get_next_sqrt_price_from_output current liquidity wanted zero_for_one
  ok (next, amount_out)

-- the amounts and the fee of an exact-input step to the price `next`
unfoldable pub finish_exact_in : Bool → ℕ → ℕ → ℕ → ℕ → ℕ → ℕ → ℕ → Checked Step
finish_exact_in zero_for_one current target liquidity remaining fee_pips next up_to_target = do
  amount_in ←
      if target == next then ok up_to_target else in_between zero_for_one current next liquidity
  amount_out ← out_between zero_for_one current next liquidity
  fee_amount ←
      if target == next
      then (mul_div_rounding_up amount_in fee_pips (fee_denominator - fee_pips) >>= λ fee.
          ok (pos fee))
      else ok (pos remaining -ℤ pos amount_in)
  ok (record {
    sqrt_ratio_next_x96 = next;
    amount_in = amount_in;
    amount_out = amount_out;
    fee_amount = fee_amount;
  })

unfoldable pub step_exact_in : Bool → ℕ → ℕ → ℕ → ℕ → ℕ → Checked Step
unfolding in_between out_between next_exact_in finish_exact_in
step_exact_in zero_for_one current target liquidity remaining fee_pips = do
  (next, up_to_target) ← next_exact_in zero_for_one current target liquidity remaining fee_pips
  finish_exact_in zero_for_one current target liquidity remaining fee_pips next up_to_target

unfoldable pub step_exact_out : Bool → ℕ → ℕ → ℕ → ℕ → ℕ → Checked Step
unfolding in_between out_between next_exact_out
step_exact_out zero_for_one current target liquidity wanted fee_pips = do
  (next, up_to_target) ← next_exact_out zero_for_one current target liquidity wanted
  amount_in ← in_between zero_for_one current next liquidity
  out ← if target == next then ok up_to_target else out_between zero_for_one current next liquidity
  let amount_out = (if ltb wanted out then wanted else out)
  fee ← mul_div_rounding_up amount_in fee_pips (fee_denominator - fee_pips)
  ok (record {
    sqrt_ratio_next_x96 = next;
    amount_in = amount_in;
    amount_out = amount_out;
    fee_amount = pos fee;
  })

unfoldable pub compute_swap_step : ℕ → ℕ → ℕ → ℤ → ℕ → Checked Step
unfolding check_int check_uint
compute_swap_step current target liquidity amount_remaining fee_pips = do
  check_uint current max_uint160 u160
  check_uint target max_uint160 u160
  check_uint liquidity max_uint128 u128
  check_int amount_remaining min_int256 max_int256 i256
  check_uint fee_pips (fee_denominator - 1) fee_bound
  if leb_ℤ (pos 0) amount_remaining
      then step_exact_in (leb target current) current target liquidity (pos_part amount_remaining)
          fee_pips
      else step_exact_out (leb target current) current target liquidity (neg_part amount_remaining)
          fee_pips
