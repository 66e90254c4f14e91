-- ===== src/Venues/Clmm/Pool/Swap.antt =====
-- venues/clmm/pool.py, the swap loop. The loop runs on fuel: `none` is a loop that has not ended.
use memeval.Prelude.{
  ℕ, zero, suc, ◌+◌, ◌-◌, Bool, true, false, not, ◌&&◌, Option, none, some, List, [], ◌∷◌, ok,
  raise_if, ◌>>=◌, ◌>>◌, ltb, leb, ◌==◌, if◌then◌else◌,
}
use memeval.Prelude.Int.{ℤ, pos, neg, ◌+ℤ◌, ◌-ℤ◌, ◌*ℤ◌, floor_div, ltb_ℤ, leb_ℤ, eqb_ℤ, int_eq}
use memeval.Prelude.Dict.{get}
use memeval.Venues.Clmm.FullMath.{Checked, as_zero, fee_bound, pool_halted, spl}
use memeval.Venues.Clmm.TickMath.{
  max_tick, min_sqrt_ratio, max_sqrt_ratio, get_sqrt_ratio_at_tick, get_tick_at_sqrt_ratio,
}
use memeval.Venues.Clmm.SwapMath.{Step, compute_swap_step, fee_denominator}
use memeval.Venues.Clmm.LiquidityMath.{add_delta}
use memeval.Venues.Clmm.Pool.{Ticks, ClPoolState}

-- `sorted(self.ticks)`
unfoldable pub insert_tick : ℤ → List ℤ → List ℤ
insert_tick t [] = t ∷ []
insert_tick t (x ∷ xs) = let rest = insert_tick t xs in if leb_ℤ t x then t ∷ x ∷ xs else x ∷ rest

unfoldable pub sorted_ticks : Ticks → List ℤ
unfolding insert_tick
sorted_ticks [] = []
sorted_ticks ((t, _) ∷ ticks) = insert_tick t (sorted_ticks ticks)

-- the last of the sorted ticks that is at most `t`, found by `bisect_right`
unfoldable pub last_at_most : List ℤ → ℤ → Option ℤ → Option ℤ
last_at_most [] t best = best
last_at_most (x ∷ xs) t best =
    let rest = last_at_most xs t (some x) in if leb_ℤ x t then rest else best

-- the first of the sorted ticks that is at least `t`, found by `bisect_left`
unfoldable pub first_at_least : List ℤ → ℤ → Option ℤ
first_at_least [] t = none
first_at_least (x ∷ xs) t = let rest = first_at_least xs t in if ltb_ℤ x t then rest else some x

abbrev bit_pos : ℤ → ℤ
bit_pos compressed = compressed -ℤ floor_div compressed 256 *ℤ pos 256

unfoldable pub next_initialized_tick : ClPoolState → ℤ → Bool → List ℤ → ℤ × Bool
unfolding last_at_most first_at_least
next_initialized_tick p tick zero_for_one sorted =
    let spacing = pos p.tick_spacing in
    let compressed = floor_div tick p.tick_spacing in
    let word_start = (compressed -ℤ bit_pos compressed) *ℤ spacing in
    let up = compressed +ℤ pos 1 in
    let word_end = (up +ℤ (pos 255 -ℤ bit_pos up)) *ℤ spacing in
    let below : ℤ × Bool = elim (last_at_most sorted (compressed *ℤ spacing) none) [
      | none ↦ (word_start, false)
      | some t ↦ if leb_ℤ word_start t then (t, true) else (word_start, false)
    ] in
    let above : ℤ × Bool = elim (first_at_least sorted (up *ℤ spacing)) [
      | none ↦ (word_end, false)
      | some t ↦ if leb_ℤ t word_end then (t, true) else (word_end, false)
    ] in
    if zero_for_one then below else above

pub record SwapState : Type 0 where
  pub remaining : ℤ
  pub calculated : ℤ
  pub sqrt_price : ℕ
  pub tick : ℤ
  pub liquidity : ℕ

abbrev pub clamp_tick : ℤ → ℤ
clamp_tick t =
    if ltb_ℤ t (neg (pos max_tick))
    then neg (pos max_tick)
    else if ltb_ℤ (pos max_tick) t
    then pos max_tick
    else t

-- the target: the next tick's price, or the limit where that lies before it
unfoldable pub target_price : Bool → ℕ → ℕ → ℕ
target_price zero_for_one next limit =
    if zero_for_one
    then if ltb next limit then limit else next
    else if ltb limit next
    then limit
    else next

-- the amounts after a step
unfoldable pub settle_step : Bool → SwapState → Step → SwapState
settle_step exact_input s step =
    let paid = pos step.amount_in +ℤ step.fee_amount in
    if exact_input
    then record s {
      remaining = s.remaining -ℤ paid;
      calculated = s.calculated -ℤ pos step.amount_out;
      sqrt_price = step.sqrt_ratio_next_x96;
    }
    else record s {
      remaining = s.remaining +ℤ pos step.amount_out;
      calculated = s.calculated +ℤ paid;
      sqrt_price = step.sqrt_ratio_next_x96;
    }

-- The net liquidity of a tick that is initialized, and so has an entry.
abbrev net_at : Ticks → ℤ → ℤ
net_at ticks t = elim (get ticks t) [ none ↦ pos 0 | some e ↦ e.net ]

-- the tick and the liquidity after a step that ends at the price of `tick_next`, or elsewhere
unfoldable pub move_tick : ClPoolState → Bool → ℤ → Bool → ℕ → ℕ → SwapState → Checked SwapState
move_tick p zero_for_one tick_next initialized sqrt_price_next sqrt_price_start s =
    let net = net_at p.ticks tick_next in
    if s.sqrt_price == sqrt_price_next
    then (if initialized
        then add_delta s.liquidity (if zero_for_one then neg net else net)
        else ok s.liquidity)
      >>= (λ l. ok (record s {
        liquidity = l;
        tick = if zero_for_one then tick_next -ℤ pos 1 else tick_next;
      }))
    else if s.sqrt_price == sqrt_price_start
    then ok s
    else (get_tick_at_sqrt_ratio s.sqrt_price >>= (λ t. ok (record s { tick = t })))

-- one round of the loop
unfoldable pub swap_round :
    ClPoolState → Bool → Bool → ℕ → ℕ → List ℤ → SwapState → Checked SwapState
unfolding next_initialized_tick target_price settle_step move_tick
swap_round p zero_for_one exact_input limit fee sorted s = do
  let found = next_initialized_tick p s.tick zero_for_one sorted
  let tick_next = clamp_tick found.0
  sqrt_price_next ← get_sqrt_ratio_at_tick tick_next
  step ←
      compute_swap_step s.sqrt_price (target_price zero_for_one sqrt_price_next limit) s.liquidity
        s.remaining fee
  move_tick p zero_for_one tick_next found.1 sqrt_price_next s.sqrt_price
      (settle_step exact_input s step)

-- `while amount_remaining != 0 and sqrt_price != sqrt_price_limit_x96`
unfoldable pub running : ℕ → SwapState → Bool
running limit s = not (eqb_ℤ s.remaining (pos 0)) && not (s.sqrt_price == limit)

unfoldable pub swap_loop :
    ℕ → ClPoolState → Bool → Bool → ℕ → ℕ → List ℤ → SwapState → Checked (Option SwapState)
unfolding running swap_round
swap_loop zero p zfo exact_input limit fee sorted s =
    if running limit s then ok none else ok (some s)
swap_loop (suc n) p zfo exact_input limit fee sorted s =
    let rest =
      swap_round p zfo exact_input limit fee sorted s
      >>= (λ s'. swap_loop n p zfo exact_input limit fee sorted s') in
    if running limit s then rest else ok (some s)

pub record SwapResult : Type 0 where
  pub amount0 : ℤ
  pub amount1 : ℤ
  pub sqrt_price_after_x96 : ℕ
  pub liquidity_after : ℕ
  pub tick_after : ℤ

abbrev pub default_limit : Bool → ℕ
default_limit zero_for_one = if zero_for_one then min_sqrt_ratio + 1 else max_sqrt_ratio - 1

-- the checks of `swap`
unfoldable pub check_swap : ClPoolState → Bool → ℤ → ℕ → ℕ → Checked (Unit {0})
check_swap p zero_for_one amount_specified limit fee = do
  raise_if p.halted pool_halted
  raise_if (eqb_ℤ amount_specified (pos 0)) as_zero
  raise_if (leb fee_denominator fee) fee_bound
  raise_if
      (if zero_for_one
        then not (ltb min_sqrt_ratio limit && ltb limit p.sqrt_price_x96)
        else not (ltb p.sqrt_price_x96 limit && ltb limit max_sqrt_ratio))
      spl

abbrev pub finish_swap : ClPoolState → Bool → ℤ → SwapState → ClPoolState × SwapResult
finish_swap p zero_for_one amount_specified s =
    let exact_input = ltb_ℤ (pos 0) amount_specified in
    let taken = amount_specified -ℤ s.remaining in
    let first = (if zero_for_one then exact_input else not exact_input) in
    (
      record p { sqrt_price_x96 = s.sqrt_price; tick = s.tick; liquidity = s.liquidity },
      record {
        amount0 = if first then taken else s.calculated;
        amount1 = if first then s.calculated else taken;
        sqrt_price_after_x96 = s.sqrt_price;
        liquidity_after = s.liquidity;
        tick_after = s.tick;
      },
    )

unfoldable pub swap :
    ℕ → ClPoolState → Bool → ℤ → Option ℕ → Option ℕ → Checked (Option (ClPoolState × SwapResult))
unfolding check_swap swap_loop sorted_ticks
swap fuel p zero_for_one amount_specified price_limit fee_pips =
    let fee : ℕ = elim fee_pips [ none ↦ p.fee_pips | some f ↦ f ] in
    let limit : ℕ = elim price_limit [ none ↦ default_limit zero_for_one | some l ↦ l ] in
    let start : SwapState = record {
      remaining = amount_specified;
      calculated = pos 0;
      sqrt_price = p.sqrt_price_x96;
      tick = p.tick;
      liquidity = p.liquidity;
    } in
    do
      check_swap p zero_for_one amount_specified limit fee
      ended ←
          swap_loop fuel p zero_for_one (ltb_ℤ (pos 0) amount_specified) limit fee
            (sorted_ticks p.ticks) start
      ok (elim ended [
        | none ↦ none
        | some s ↦ some (finish_swap p zero_for_one amount_specified s)
      ])
