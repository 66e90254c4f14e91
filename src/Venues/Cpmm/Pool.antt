-- ===== src/Venues/Cpmm/Pool.antt =====
-- venues/cpmm/pool.py: the mutable pool state. A method that raises leaves the state alone, since
-- each raises before its first write.
pub mod Reserves
use memeval.Prelude.{
  ◌≡◌, String, Bool, true, false, not, ◌&&◌, ◌||◌, Option, none, some, Result, ok, err, raise_if,
  ◌>>=◌, ◌>>◌, if◌then◌else◌, str_eq, string_eq, ℕ, List, [],
}
use memeval.Prelude.Int.{ℤ, pos, pos_part, ◌+ℤ◌, ◌-ℤ◌, ◌*ℤ◌, floor_div, leb_ℤ, ltb_ℤ, eqb_ℤ}
use memeval.Prelude.Dict.{Dict, get}
use memeval.Domain.Status.{PoolModel, supported_cpmm}
use memeval.Venues.Cpmm.Math.{
  CpmmMathError, get_amount_out, insufficient_output_amount, insufficient_liquidity, pool_halted,
  asset_not_in_pool,
}

-- The fixture restrictions of an asset; an absent flag is false.
pub record Restriction : Type 0 where
  pub sell_blocked : Bool
  pub buy_blocked : Bool

pub record CpmmPoolState : Type 0 where
  pub key : String
  pub asset0 : String
  pub asset1 : String
  pub reserve0 : ℤ
  pub reserve1 : ℤ
  pub fee_num : ℤ
  pub fee_den : ℤ
  pub model : PoolModel
  pub halted : Bool
  pub restrictions : Dict String Restriction

-- The exceptions of this module besides `CpmmMathError`.
pub data PoolError : Type 0 where
  unsupported_mechanics negative_reserves negative_mint negative_burn fidelity_limit : PoolError

-- `__post_init__`
unfoldable pub create : CpmmPoolState → Result PoolError CpmmPoolState
create p = do
  raise_if (not (supported_cpmm p.model)) unsupported_mechanics
  raise_if (ltb_ℤ p.reserve0 (pos 0) || ltb_ℤ p.reserve1 (pos 0)) negative_reserves
  ok p

unfoldable pub reserves_for : CpmmPoolState → String → Result CpmmMathError (ℤ × ℤ)
reserves_for p asset_in =
    if str_eq asset_in p.asset0
    then ok (p.reserve0, p.reserve1)
    else if str_eq asset_in p.asset1
    then ok (p.reserve1, p.reserve0)
    else err asset_not_in_pool

unfoldable pub depth_for : CpmmPoolState → String → Result CpmmMathError (ℤ × ℤ)
unfolding reserves_for
depth_for p asset_in = reserves_for p asset_in

unfoldable pub other : CpmmPoolState → String → Result CpmmMathError String
other p asset =
    if str_eq asset p.asset0
    then ok p.asset1
    else if str_eq asset p.asset1
    then ok p.asset0
    else err asset_not_in_pool

unfoldable pub max_out : CpmmPoolState → String → ℤ → Result CpmmMathError ℤ
unfolding reserves_for
max_out p asset_in amount_in = do
  (rin, rout) ← reserves_for p asset_in
  get_amount_out amount_in rin rout p.fee_num p.fee_den

pub data Direction : Type 0 where
  sell buy : Direction

pub data BlockReason : Type 0 where
  fixture_sell_blocked fixture_buy_blocked : BlockReason

abbrev pub blocked_by : Restriction → Direction → Option BlockReason
blocked_by r sell = if r.sell_blocked then some fixture_sell_blocked else none
blocked_by r buy = if r.buy_blocked then some fixture_buy_blocked else none

unfoldable pub transfer_blocked : CpmmPoolState → String → Direction → Option BlockReason
transfer_blocked p asset direction = elim (get p.restrictions asset) [
  | none ↦ none
  | some r ↦ blocked_by r direction
]

-- A `Fraction` with a positive denominator; `1` is the pair with equal parts, as it is reduced.
pub record Ratio : Type 0 where
  pub numerator : ℤ
  pub denominator : ℕ

unfoldable pub scaled : ℤ → Option Ratio → ℤ
scaled out none = out
scaled out (some r) =
    if eqb_ℤ r.numerator (pos r.denominator)
    then out
    else floor_div (out *ℤ r.numerator) r.denominator

-- The writes of `apply_swap`, with the check that the reserve covers the output.
abbrev settle : CpmmPoolState → String → ℤ → ℤ → Result CpmmMathError (CpmmPoolState × ℤ)
settle p asset_in amount_in out =
    if str_eq asset_in p.asset0
    then raise_if (leb_ℤ p.reserve1 out) insufficient_liquidity
      >> ok (record p { reserve0 = p.reserve0 +ℤ amount_in; reserve1 = p.reserve1 -ℤ out }, out)
    else raise_if (leb_ℤ p.reserve0 out) insufficient_liquidity
      >> ok (record p { reserve1 = p.reserve1 +ℤ amount_in; reserve0 = p.reserve0 -ℤ out }, out)

unfoldable pub apply_swap :
    CpmmPoolState → String → ℤ → Option Ratio → Result CpmmMathError (CpmmPoolState × ℤ)
apply_swap p asset_in amount_in output_ratio = do
  raise_if p.halted pool_halted
  best ← max_out p asset_in amount_in
  let out = scaled best output_ratio
  raise_if (leb_ℤ out (pos 0)) insufficient_output_amount
  settle p asset_in amount_in out

unfoldable pub apply_mint : CpmmPoolState → ℤ → ℤ → Result PoolError CpmmPoolState
apply_mint p amount0 amount1 = do
  raise_if (ltb_ℤ amount0 (pos 0) || ltb_ℤ amount1 (pos 0)) negative_mint
  ok (record p { reserve0 = p.reserve0 +ℤ amount0; reserve1 = p.reserve1 +ℤ amount1 })

unfoldable pub apply_burn : CpmmPoolState → ℤ → ℤ → Result PoolError CpmmPoolState
apply_burn p amount0 amount1 = do
  raise_if (ltb_ℤ amount0 (pos 0) || ltb_ℤ amount1 (pos 0)) negative_burn
  raise_if (ltb_ℤ p.reserve0 amount0 || ltb_ℤ p.reserve1 amount1) fidelity_limit
  ok (record p { reserve0 = p.reserve0 -ℤ amount0; reserve1 = p.reserve1 -ℤ amount1 })

unfoldable pub reconcile_sync : CpmmPoolState → ℤ → ℤ → ℤ × ℤ
reconcile_sync p reserve0 reserve1 = (p.reserve0 -ℤ reserve0, p.reserve1 -ℤ reserve1)

unfoldable pub apply_adjust : CpmmPoolState → ℤ → ℤ → Result PoolError CpmmPoolState
apply_adjust p delta0 delta1 = do
  raise_if (ltb_ℤ (p.reserve0 +ℤ delta0) (pos 0) || ltb_ℤ (p.reserve1 +ℤ delta1) (pos 0))
      fidelity_limit
  ok (record p { reserve0 = p.reserve0 +ℤ delta0; reserve1 = p.reserve1 +ℤ delta1 })

unfoldable pub anchor_to_sync : CpmmPoolState → ℤ → ℤ → CpmmPoolState × (ℤ × ℤ)
unfolding reconcile_sync
anchor_to_sync p reserve0 reserve1 =
    (record p { reserve0 = reserve0; reserve1 = reserve1 }, reconcile_sync p reserve0 reserve1)

pub data DeltaClass : Type 0 where
  match explained material : DeltaClass

unfoldable pub classify_checkpoint_delta : ℤ → ℤ → Bool → DeltaClass
classify_checkpoint_delta d0 d1 is_explained =
    if eqb_ℤ d0 (pos 0) && eqb_ℤ d1 (pos 0)
    then match
    else if is_explained
    then explained
    else material
