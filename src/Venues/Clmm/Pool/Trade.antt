-- ===== src/Venues/Clmm/Pool/Trade.antt =====
-- venues/clmm/pool.py: the anchors to recorded states, and the swaps that the broker and the external
-- flow run on a copy. `none` is a swap whose loop has not ended on the fuel.
use memeval.Prelude.{
  ℕ, ◌≡◌, inl, inr, Result-cases, arith, >>=-eq-ok, String, Bool, true, not, ◌&&◌, ◌||◌, Option,
  none, some, ok, raise_if, ◌>>=◌, ◌>>◌, if◌then◌else◌, str_eq,
}
use memeval.Prelude.Int.{ℤ, pos, pos_part, neg, ◌+ℤ◌, ◌-ℤ◌, ltb_ℤ, leb_ℤ, eqb_ℤ}
use memeval.Venues.Clmm.FullMath.{
  Checked, max_uint128, asset_not_in_pool, insufficient_input_amount, insufficient_output_amount,
  output_ratio_unsupported, ratio_bound,
}
use memeval.Venues.Clmm.TickMath.{min_sqrt_ratio, max_sqrt_ratio, get_tick_at_sqrt_ratio}
use memeval.Venues.Cpmm.Pool.{Ratio}
use memeval.Venues.Clmm.Pool.{ClPoolState, other, copy, create, check_ticks}
use memeval.Venues.Clmm.Pool.Swap.{SwapResult, swap}

-- `not (MIN_SQRT_RATIO <= sqrt < MAX_SQRT_RATIO) or liq < 0 or liq > MAX_UINT128`
abbrev pub out_of_range : ℤ → ℤ → Bool
out_of_range sqrt liquidity =
    ltb_ℤ sqrt (pos min_sqrt_ratio)
    || leb_ℤ (pos max_sqrt_ratio) sqrt
    || ltb_ℤ liquidity (pos 0)
    || ltb_ℤ (pos max_uint128) liquidity

unfoldable pub anchor_to_recorded : ClPoolState → ℤ → ℤ → ℤ → Checked (ClPoolState × (ℤ × (ℤ × ℤ)))
anchor_to_recorded p sqrt_after liquidity_after tick_after = do
  raise_if (out_of_range sqrt_after liquidity_after) ratio_bound
  ok (
    record p {
      sqrt_price_x96 = pos_part sqrt_after;
      liquidity = pos_part liquidity_after;
      tick = tick_after;
    },
    (
      pos p.sqrt_price_x96 -ℤ sqrt_after,
      (pos p.liquidity -ℤ liquidity_after, p.tick -ℤ tick_after),
    ),
  )

unfoldable pub apply_state_delta : ClPoolState → ℤ → ℤ → Checked ClPoolState
apply_state_delta p d_sqrt d_liq = do
  let sqrt = pos p.sqrt_price_x96 +ℤ d_sqrt
  let liq = pos p.liquidity +ℤ d_liq
  raise_if (out_of_range sqrt liq) ratio_bound
  tick ← get_tick_at_sqrt_ratio (pos_part sqrt)
  ok (record p { sqrt_price_x96 = pos_part sqrt; liquidity = pos_part liq; tick = tick })

-- what a swap takes in and gives out, by its direction
abbrev pub taken : Bool → SwapResult → ℤ
taken zero_for_one r = if zero_for_one then r.amount0 else r.amount1

abbrev pub given : Bool → SwapResult → ℤ
given zero_for_one r = neg (if zero_for_one then r.amount1 else r.amount0)

pub record ClSwapQuote : Type 0 where
  pub asset_in : String
  pub asset_out : String
  pub amount_in : ℤ
  pub amount_out : ℤ
  pub sqrt_price_after_x96 : ℕ
  pub tick_after : ℤ
  pub liquidity_after : ℕ
  pub fee_pips : ℕ

abbrev quote_of : ClPoolState → String → String → SwapResult → ClSwapQuote
quote_of p asset_in asset_out r =
    let zero_for_one = str_eq asset_in p.asset0 in
    record {
      asset_in = asset_in;
      asset_out = asset_out;
      amount_in = taken zero_for_one r;
      amount_out = given zero_for_one r;
      sqrt_price_after_x96 = r.sqrt_price_after_x96;
      tick_after = r.tick_after;
      liquidity_after = r.liquidity_after;
      fee_pips = p.fee_pips;
    }

-- `trial = self.copy()`, and a swap on it
unfoldable pub trial_swap :
    ℕ → ClPoolState → Bool → ℤ → Option ℕ → Checked (Option (ClPoolState × SwapResult))
trial_swap fuel p zero_for_one amount_specified fee_pips =
    copy p >>= λ trial. swap fuel trial zero_for_one amount_specified none fee_pips

copy-eq : (p : ClPoolState) {q : ClPoolState} → copy p ≡ ok q → p ≡ q
unfolding copy create
copy-eq p h = elim (Result-cases (check_ticks p.tick_spacing p.ticks)) [
  | inl (_, fine) ↦ ground arith
  | inr (_, bad) ↦ ground arith
]

-- A copy that is made is the state itself, so a swap on it is one on the state.
pub trial_swap-swap :
    (fuel : ℕ) (p : ClPoolState) (zero_for_one : Bool) (amount : ℤ) (fee : Option ℕ)
    {ended : Option (ClPoolState × SwapResult)}
    → trial_swap fuel p zero_for_one amount fee ≡ ok ended
    → swap fuel p zero_for_one amount none fee ≡ ok ended
unfolding trial_swap
trial_swap-swap fuel p zero_for_one amount fee h =
    let (trial, made, ran) = >>=-eq-ok (copy p) _ h in rw (copy-eq p made) ran

unfoldable pub quote : ℕ → ClPoolState → String → ℤ → Checked (Option ClSwapQuote)
quote fuel p asset_in amount_in = do
  raise_if (leb_ℤ amount_in (pos 0)) insufficient_input_amount
  asset_out ← other p asset_in
  ended ← trial_swap fuel p (str_eq asset_in p.asset0) amount_in none
  ok (elim ended [ none ↦ none | some (_, r) ↦ some (quote_of p asset_in asset_out r) ])

unfoldable pub max_out : ℕ → ClPoolState → String → ℤ → Checked (Option ℤ)
unfolding quote
max_out fuel p asset_in amount_in = do
  q ← quote fuel p asset_in amount_in
  ok (elim q [ none ↦ none | some q ↦ some q.amount_out ])

abbrev is_one : Option Ratio → Bool
is_one none = true
is_one (some r) = eqb_ℤ r.numerator (pos r.denominator)

abbrev settle_swap : Bool → Option (ClPoolState × SwapResult) → Checked (Option (ClPoolState × ℤ))
settle_swap zero_for_one none = ok none
settle_swap zero_for_one (some (q, r)) =
    raise_if (leb_ℤ (given zero_for_one r) (pos 0)) insufficient_output_amount
    >> ok (some (q, given zero_for_one r))

unfoldable pub apply_swap :
    ℕ → ClPoolState → String → ℤ → Option Ratio → Checked (Option (ClPoolState × ℤ))
apply_swap fuel p asset_in amount_in output_ratio = do
  raise_if (not (is_one output_ratio)) output_ratio_unsupported
  raise_if (leb_ℤ amount_in (pos 0)) insufficient_input_amount
  let zero_for_one = str_eq asset_in p.asset0
  raise_if (not zero_for_one && not (str_eq asset_in p.asset1)) asset_not_in_pool
  ended ← trial_swap fuel p zero_for_one amount_in none
  settle_swap zero_for_one ended

abbrev settle_intent :
    Bool → Bool → Option (ClPoolState × SwapResult) → Checked (Option (ClPoolState × (ℤ × ℤ)))
settle_intent zero_for_one allow_zero_output none = ok none
settle_intent zero_for_one allow_zero_output (some (q, r)) =
    let out = given zero_for_one r in
    do
      raise_if (leb_ℤ (taken zero_for_one r) (pos 0)) insufficient_input_amount
      raise_if (ltb_ℤ out (pos 0) || eqb_ℤ out (pos 0) && not allow_zero_output)
          insufficient_output_amount
      ok (some (q, (taken zero_for_one r, out)))

unfoldable pub apply_intent :
    ℕ → ClPoolState → Bool → ℤ → Option ℕ → Bool → Checked (Option (ClPoolState × (ℤ × ℤ)))
apply_intent fuel p zero_for_one amount_specified fee_pips allow_zero_output = do
  ended ← trial_swap fuel p zero_for_one amount_specified fee_pips
  settle_intent zero_for_one allow_zero_output ended
