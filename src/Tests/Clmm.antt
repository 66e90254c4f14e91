-- ===== src/Tests/Clmm.antt =====
-- venues/clmm on concrete prices and pools.
use memeval.Prelude.{
  Option, ℕ, ◌+◌, ◌-◌, ◌*◌, ◌/◌, ◌^◌, ◌≤◌, ◌<◌, ◌≡◌, ◌≢◌, err, refl, String, List, ◌∷◌, ◌&&◌,
  if◌then◌else◌, Result, ◌>>=◌, true, false, none, some, [], ok, ◌⊎◌, arith,
}
use memeval.Prelude.Int.{ℤ, pos, negsuc, leb_ℤ, ltb_ℤ, neg, ◌+ℤ◌, ◌≤ℤ◌, int_laws}
use memeval.Venues.Clmm.FullMath.{mul_div, mul_div_rounding_up, div_rounding_up, q96}
use memeval.Venues.Clmm.TickMath.{
  get_sqrt_ratio_at_tick, get_tick_at_sqrt_ratio, max_tick, min_sqrt_ratio, max_sqrt_ratio,
}
use memeval.Venues.Clmm.SqrtPriceMath.{get_amount0_delta_signed, get_amount1_delta_signed}
use memeval.Venues.Clmm.SqrtPriceMath.Positions.{position_no_profit}
use memeval.Venues.Clmm.SwapMath.{Step, compute_swap_step}
use memeval.Venues.Clmm.SwapMath.Spend.{compute_swap_step_spend}
use memeval.Venues.Clmm.Pool.Liquidity.{apply_modify_liquidity-active}
use memeval.Venues.Clmm.Pool.Swap.{swap}
use memeval.Venues.Clmm.Pool.Ends.{swap_ends}
use memeval.Venues.Clmm.Pool.Recorded.{RecordedSwap, Replay, exact_in, apply_recorded_swap}
use memeval.Venues.Clmm.Pool.Reports.{Reports}
use memeval.Venues.Clmm.Pool.{ClPoolState, initialize, apply_modify_liquidity}

ratio_at_zero : get_sqrt_ratio_at_tick (pos 0) ≡ ok q96
unfolding get_sqrt_ratio_at_tick neg
ratio_at_zero = refl

ratio_at_min : get_sqrt_ratio_at_tick (neg (pos max_tick)) ≡ ok min_sqrt_ratio
unfolding get_sqrt_ratio_at_tick neg
ratio_at_min = refl

ratio_at_max : get_sqrt_ratio_at_tick (pos max_tick) ≡ ok max_sqrt_ratio
unfolding get_sqrt_ratio_at_tick neg
ratio_at_max = refl

tick_at_one : get_tick_at_sqrt_ratio q96 ≡ ok (pos 0)
unfolding get_tick_at_sqrt_ratio memeval.Venues.Clmm.TickMath.tick_candidates
    memeval.Prelude.Int.◌-ℤ◌ memeval.Prelude.Int.◌*ℤ◌ ◌+ℤ◌ get_sqrt_ratio_at_tick neg
tick_at_one = refl

abbrev target : ℕ
target = q96 - q96 / 100

compute_swap_step_spend_example :
    (pos 0 ≤ℤ pos 3000000000)
    × (pos 997000000000 +ℤ pos 3000000000 ≤ℤ pos (10 ^ 12))
    × ((target ≡ 79228083523865064300074843162)
        ⊎ (pos 997000000000 +ℤ pos 3000000000 ≡ pos (10 ^ 12)))
unfolding compute_swap_step neg memeval.Venues.Clmm.SwapMath.step_exact_in mul_div
    memeval.Venues.Clmm.SqrtPriceMath.get_amount0_delta memeval.Venues.Clmm.SqrtPriceMath.delta0
    mul_div_rounding_up div_rounding_up
    memeval.Venues.Clmm.SqrtPriceMath.get_next_sqrt_price_from_input
    memeval.Venues.Clmm.SqrtPriceMath.get_next_sqrt_price_from_amount0_rounding_up
    memeval.Venues.Clmm.SqrtPriceMath.get_amount1_delta memeval.Venues.Clmm.SqrtPriceMath.delta1
    memeval.Prelude.Int.◌-ℤ◌
compute_swap_step_spend_example =
    compute_swap_step_spend q96 target (10 ^ 18) (10 ^ 12) 3000
      {s = record {
        sqrt_ratio_next_x96 = 79228083523865064300074843162;
        amount_in = 997000000000;
        amount_out = 996999005991;
        fee_amount = pos 3000000000;
      }}
      refl

position_no_profit_example : (pos 0 ≤ℤ pos 11 +ℤ neg (pos 10)) × (pos 0 ≤ℤ pos 10 +ℤ neg (pos 9))
unfolding get_amount0_delta_signed get_amount1_delta_signed neg
    memeval.Venues.Clmm.SqrtPriceMath.get_amount0_delta memeval.Venues.Clmm.SqrtPriceMath.delta0
    mul_div_rounding_up div_rounding_up memeval.Venues.Clmm.SqrtPriceMath.get_amount1_delta
    memeval.Venues.Clmm.SqrtPriceMath.delta1
position_no_profit_example = position_no_profit target q96 999 refl refl refl refl

abbrev pub wide : ClPoolState
wide = record {
  key = "p";
  asset0 = "a";
  asset1 = "b";
  fee_pips = 3000;
  tick_spacing = 60;
  sqrt_price_x96 = q96;
  tick = pos 0;
  liquidity = 0;
  ticks = [];
  halted = false;
  restrictions = [];
}

initialized : initialize "p" "a" "b" 3000 60 q96 ≡ ok wide
unfolding initialize get_tick_at_sqrt_ratio memeval.Venues.Clmm.TickMath.tick_candidates
    memeval.Prelude.Int.◌-ℤ◌ memeval.Prelude.Int.◌*ℤ◌ ◌+ℤ◌ get_sqrt_ratio_at_tick neg
initialized = refl

abbrev pub minted : ClPoolState
minted = record wide {
  liquidity = 1000;
  ticks =
      (negsuc 59, record { net = pos 1000; gross = 1000 })
      ∷ (pos 60, record { net = neg (pos 1000); gross = 1000 })
      ∷ [];
}

apply_modify_liquidity-active_example :
    (q96 ≡ q96)
    × (pos 0 ≡ pos 0)
    × (pos 1000 ≡ (
        if leb_ℤ (neg (pos 60)) (pos 0) && ltb_ℤ (pos 0) (pos 60)
        then pos 0 +ℤ pos 1000
        else pos 0))
unfolding apply_modify_liquidity memeval.Venues.Clmm.Pool.check_range neg
    memeval.Venues.Clmm.Pool.change_position
    memeval.Venues.Clmm.LiquidityMath.tick_spacing_to_max_liquidity_per_tick
    memeval.Venues.Clmm.Pool.updated_tick memeval.Venues.Clmm.LiquidityMath.add_delta
    memeval.Prelude.Dict.get ◌+ℤ◌ memeval.Prelude.Int.◌-ℤ◌ memeval.Prelude.Int.◌*ℤ◌
    memeval.Venues.Clmm.Pool.position_amounts get_sqrt_ratio_at_tick get_amount0_delta_signed
    memeval.Venues.Clmm.SqrtPriceMath.get_amount0_delta memeval.Venues.Clmm.SqrtPriceMath.delta0
    mul_div_rounding_up div_rounding_up mul_div get_amount1_delta_signed
    memeval.Venues.Clmm.SqrtPriceMath.get_amount1_delta memeval.Venues.Clmm.SqrtPriceMath.delta1
    memeval.Venues.Clmm.Pool.commit_tick memeval.Prelude.Dict.put memeval.Prelude.Int.floor_div
apply_modify_liquidity-active_example =
    apply_modify_liquidity-active wide (neg (pos 60)) (pos 60) (pos 1000) {q = minted} {a = pos 3}
      {b = pos 3} refl

swap_ends_example : swap 1774545 minted true (pos 50) none none ≢ ok none
swap_ends_example =
    swap_ends 1774545 minted true (pos 50) none none (omega arith) (omega int_laws) (omega arith)
      (omega arith) (omega arith)

abbrev nothing : Replay
nothing = record {
  mode = exact_in;
  amount0 = pos 0;
  amount1 = pos 0;
  sqrt_price_x96 = pos 0;
  liquidity = pos 0;
  tick = pos 0;
}

-- a recorded swap of two for one
abbrev recorded : RecordedSwap
recorded = record {
  amount0 = pos 2;
  amount1 = neg (pos 1);
  sqrt_after = pos 78443648539502968004850200744;
  liquidity_after = pos 1000;
  tick_after = neg (pos 199);
}

abbrev replayed : ClPoolState × Replay
replayed = elim (apply_recorded_swap 4 minted recorded none) [
  | ok (some r) ↦ r
  | ok none ↦ (wide, nothing)
  | err _ ↦ (wide, nothing)
]
