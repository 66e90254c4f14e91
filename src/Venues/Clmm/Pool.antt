-- ===== src/Venues/Clmm/Pool.antt =====
-- venues/clmm/pool.py: the pool state. A method that raises leaves the state alone: it works on
-- a copy, or raises before its first write.
pub mod Liquidity
pub mod Swap
pub mod Spend
pub mod Progress
pub mod Rounds
pub mod Ends
pub mod Trade
pub mod Recorded
pub mod Reports
use memeval.Prelude.{
  ℕ, zero, suc, ◌+◌, ◌-◌, ◌*◌, ◌/◌, ◌%◌, ◌^◌, String, Bool, true, false, not, ◌&&◌, ◌||◌, Option,
  none, some, List, [], ◌∷◌, Result, ok, err, raise_if, ◌>>=◌, ◌>>◌, ltb, leb, ◌==◌, if◌then◌else◌,
  str_eq, string_eq,
}
use memeval.Prelude.Int.{
  ℤ, pos, pos_part, neg_part, neg, ◌+ℤ◌, ◌-ℤ◌, ◌*ℤ◌, floor_div, ltb_ℤ, leb_ℤ, eqb_ℤ, int_eq,
}
use memeval.Prelude.Dict.{Dict, get, put, remove}
use memeval.Venues.Clmm.FullMath.{
  Checked, ClMathError, max_uint128, min_int128, max_int128, q96, as_zero, asset_not_in_pool,
  fee_bound, i128, insufficient_input_amount, insufficient_output_amount, lo,
  output_ratio_unsupported, pool_halted, ratio_bound, spl, tick_bound, tick_entry, tlm, tlu, tum,
  ts, u128,
}
use memeval.Venues.Clmm.TickMath.{
  max_tick, min_sqrt_ratio, max_sqrt_ratio, get_sqrt_ratio_at_tick, get_tick_at_sqrt_ratio,
}
use memeval.Venues.Clmm.SqrtPriceMath.{get_amount0_delta_signed, get_amount1_delta_signed}
use memeval.Venues.Clmm.SwapMath.{Step, compute_swap_step, fee_denominator}
use memeval.Venues.Cpmm.Pool.{Restriction, Direction, BlockReason, blocked_by}
use memeval.Venues.Clmm.LiquidityMath.{add_delta, tick_spacing_to_max_liquidity_per_tick}

-- An initialized tick: `(liquidity_net, liquidity_gross)`.
pub record TickEntry : Type 0 where
  pub net : ℤ
  pub gross : ℕ

abbrev pub Ticks : Type 0
Ticks = Dict ℤ TickEntry

-- `model` is left out: `__post_init__` accepts two, which nothing tells apart.
pub record ClPoolState : Type 0 where
  pub key : String
  pub asset0 : String
  pub asset1 : String
  pub fee_pips : ℕ
  pub tick_spacing : ℕ
  pub sqrt_price_x96 : ℕ
  pub tick : ℤ
  pub liquidity : ℕ
  pub ticks : Ticks
  pub halted : Bool
  pub restrictions : Dict String Restriction

abbrev min_tick_ℤ : ℤ
min_tick_ℤ = neg (pos max_tick)

-- the loop over the ticks in `__post_init__`
unfoldable pub check_ticks : ℕ → Ticks → Checked (Unit {0})
check_ticks spacing [] = ok tt
check_ticks spacing ((t, e) ∷ ticks) = do
  raise_if
      (not ((pos_part t + neg_part t) % spacing == 0) || ltb max_tick (pos_part t + neg_part t)) ts
  raise_if
      (e.gross == 0 || ltb max_uint128 e.gross || ltb_ℤ e.net min_int128 || ltb_ℤ max_int128 e.net)
      tick_entry
  check_ticks spacing ticks

abbrev price_in_range : ℕ → Bool
price_in_range p = leb min_sqrt_ratio p && ltb p max_sqrt_ratio

-- `__post_init__`
unfoldable pub create : ClPoolState → Checked ClPoolState
unfolding check_ticks
create p = do
  raise_if (p.tick_spacing == 0) ts
  raise_if (leb fee_denominator p.fee_pips) fee_bound
  raise_if (not (price_in_range p.sqrt_price_x96)) ratio_bound
  raise_if (ltb max_tick (pos_part p.tick + neg_part p.tick)) tick_bound
  raise_if (ltb max_uint128 p.liquidity) u128
  check_ticks p.tick_spacing p.ticks
  ok p

-- `copy`, which builds the same state anew and so checks it again
unfoldable pub copy : ClPoolState → Checked ClPoolState
unfolding create
copy p = create p

unfoldable pub initialize : String → String → String → ℕ → ℕ → ℕ → Checked ClPoolState
unfolding create
initialize key asset0 asset1 fee_pips tick_spacing sqrt_price_x96 = do
  tick ← get_tick_at_sqrt_ratio sqrt_price_x96
  create (record {
    key = key;
    asset0 = asset0;
    asset1 = asset1;
    fee_pips = fee_pips;
    tick_spacing = tick_spacing;
    sqrt_price_x96 = sqrt_price_x96;
    tick = tick;
    liquidity = 0;
    ticks = [];
    halted = false;
    restrictions = [];
  })

unfoldable pub other : ClPoolState → String → Checked String
other p asset =
    if str_eq asset p.asset0
    then ok p.asset1
    else if str_eq asset p.asset1
    then ok p.asset0
    else err asset_not_in_pool

unfoldable pub virtual_reserves : ClPoolState → ℕ × ℕ
virtual_reserves p =
    if p.liquidity == 0 || p.sqrt_price_x96 == 0
    then (0, 0)
    else (p.liquidity * q96 / p.sqrt_price_x96, p.liquidity * p.sqrt_price_x96 / q96)

unfoldable pub depth_for : ClPoolState → String → Checked (ℕ × ℕ)
unfolding virtual_reserves
depth_for p asset_in =
    let (x, y) = virtual_reserves p in
    if str_eq asset_in p.asset0
    then ok (x, y)
    else if str_eq asset_in p.asset1
    then ok (y, x)
    else err asset_not_in_pool

unfoldable pub transfer_blocked : ClPoolState → String → Direction → Option BlockReason
transfer_blocked p asset direction = elim (get p.restrictions asset) [
  | none ↦ none
  | some r ↦ blocked_by r direction
]

-- `_updated_tick`: the new entry, or none where the gross liquidity falls to zero
unfoldable pub updated_tick : Ticks → ℤ → ℤ → Bool → ℕ → Checked (Option TickEntry)
updated_tick ticks tick liquidity_delta upper max_liquidity =
    let before : TickEntry = elim (get ticks tick) [
      | none ↦ record { net = pos 0; gross = 0 }
      | some e ↦ e
    ] in
    do
      gross_after ← add_delta before.gross liquidity_delta
      raise_if (ltb max_liquidity gross_after) lo
      let net_after =
          (if upper then before.net -ℤ liquidity_delta else before.net +ℤ liquidity_delta)
      raise_if (ltb_ℤ net_after min_int128 || ltb_ℤ max_int128 net_after) i128
      ok (if gross_after == 0 then none else some (record { net = net_after; gross = gross_after }))

-- `self.ticks[t] = entry`, or `self.ticks.pop(t, None)`
unfoldable pub commit_tick : Ticks → ℤ → Option TickEntry → Ticks
commit_tick ticks t none = remove ticks t
commit_tick ticks t (some e) = put ticks t e

pub record Amounts : Type 0 where
  pub amount0 : ℤ
  pub amount1 : ℤ
  pub liquidity_after : ℕ

-- the amounts by where the current tick lies
unfoldable pub position_amounts : ClPoolState → ℤ → ℤ → ℤ → Checked Amounts
position_amounts p tick_lower tick_upper liquidity_delta = do
  sqrt_lower ← get_sqrt_ratio_at_tick tick_lower
  sqrt_upper ← get_sqrt_ratio_at_tick tick_upper
  if ltb_ℤ p.tick tick_lower
      then (get_amount0_delta_signed sqrt_lower sqrt_upper liquidity_delta >>= λ a.
          ok (record { amount0 = a; amount1 = pos 0; liquidity_after = p.liquidity }))
      else if ltb_ℤ p.tick tick_upper
      then (get_amount0_delta_signed p.sqrt_price_x96 sqrt_upper liquidity_delta >>= λ a.
          get_amount1_delta_signed sqrt_lower p.sqrt_price_x96 liquidity_delta >>= λ b.
          add_delta p.liquidity liquidity_delta >>= λ l.
          ok (record { amount0 = a; amount1 = b; liquidity_after = l }))
      else (get_amount1_delta_signed sqrt_lower sqrt_upper liquidity_delta >>= λ b.
          ok (record { amount0 = pos 0; amount1 = b; liquidity_after = p.liquidity }))

-- the checks of `apply_modify_liquidity` before anything is computed
unfoldable pub check_range : ClPoolState → ℤ → ℤ → ℤ → Checked (Unit {0})
check_range p tick_lower tick_upper liquidity_delta = do
  raise_if p.halted pool_halted
  raise_if (leb_ℤ tick_upper tick_lower) tlu
  raise_if (ltb_ℤ tick_lower min_tick_ℤ) tlm
  raise_if (ltb_ℤ (pos max_tick) tick_upper) tum
  raise_if
      (not ((pos_part tick_lower + neg_part tick_lower) % p.tick_spacing == 0)
        || not ((pos_part tick_upper + neg_part tick_upper) % p.tick_spacing == 0))
      ts
  raise_if (ltb_ℤ liquidity_delta min_int128 || ltb_ℤ max_int128 liquidity_delta) i128

unfoldable pub change_position : ClPoolState → ℤ → ℤ → ℤ → Checked (ClPoolState × (ℤ × ℤ))
change_position p tick_lower tick_upper liquidity_delta = do
  max_liquidity ← tick_spacing_to_max_liquidity_per_tick (pos p.tick_spacing)
  lower_entry ← updated_tick p.ticks tick_lower liquidity_delta false max_liquidity
  upper_entry ← updated_tick p.ticks tick_upper liquidity_delta true max_liquidity
  a ← position_amounts p tick_lower tick_upper liquidity_delta
  let ticks = commit_tick (commit_tick p.ticks tick_lower lower_entry) tick_upper upper_entry
  ok (record p { ticks = ticks; liquidity = a.liquidity_after }, (a.amount0, a.amount1))

unfoldable pub apply_modify_liquidity : ClPoolState → ℤ → ℤ → ℤ → Checked (ClPoolState × (ℤ × ℤ))
apply_modify_liquidity p tick_lower tick_upper liquidity_delta = do
  check_range p tick_lower tick_upper liquidity_delta
  if eqb_ℤ liquidity_delta (pos 0)
      then ok (p, (pos 0, pos 0))
      else change_position p tick_lower tick_upper liquidity_delta
