-- ===== src/Venues/Clmm/Pool/Rounds.antt =====
-- venues/clmm/pool.py: a round of the swap loop of an exact input ends the loop or moves on.
use memeval.Prelude.{
  ℕ, ◌≤◌, ◌<◌, ◌≡◌, ◌≢◌, refl, sym, ◌∙◌, inl, inr, Bool, true, false, List, ok, arith, >>=-eq-ok,
  if◌then◌else◌,
}
use memeval.Prelude.Int.{ℤ, pos, neg, ◌+ℤ◌, ◌-ℤ◌, ◌≤ℤ◌, ◌<ℤ◌, int_laws}
use memeval.Venues.Clmm.TickMath.{max_tick, min_sqrt_ratio, max_sqrt_ratio, get_sqrt_ratio_at_tick}
use memeval.Venues.Clmm.SwapMath.{Step, compute_swap_step}
use memeval.Venues.Clmm.SwapMath.Spend.{compute_swap_step_spend}
use memeval.Venues.Clmm.Pool.{ClPoolState}
use memeval.Venues.Clmm.Pool.Swap.{
  SwapState, clamp_tick, next_initialized_tick, settle_step, move_tick, swap_round, running,
  target_price,
}
use memeval.Venues.Clmm.Pool.Spend.{move_tick-remaining, nonneg_pos}
use memeval.Venues.Clmm.Pool.Progress.{next_initialized_tick-down, next_initialized_tick-up}

ratio_low : get_sqrt_ratio_at_tick (neg (pos max_tick)) ≡ ok min_sqrt_ratio
unfolding get_sqrt_ratio_at_tick neg
ratio_low = refl

ratio_high : get_sqrt_ratio_at_tick (pos max_tick) ≡ ok max_sqrt_ratio
unfolding get_sqrt_ratio_at_tick neg
ratio_high = refl

move_tick-price :
    (p : ClPoolState) (zfo : Bool) (t : ℤ) (i : Bool) (next start : ℕ) (s : SwapState)
    {s' : SwapState}
    → move_tick p zfo t i next start s ≡ ok s'
    → s'.sqrt_price ≡ s.sqrt_price
unfolding move_tick
move_tick-price p zfo t i next start s h = grind arith

move_tick-tick :
    (p : ClPoolState) (zfo : Bool) (t : ℤ) (i : Bool) (next start : ℕ) (s : SwapState)
    {s' : SwapState}
    → s.sqrt_price ≡ next
    → move_tick p zfo t i next start s ≡ ok s'
    → s'.tick ≡ (if zfo then t -ℤ pos 1 else t)
unfolding move_tick
move_tick-tick p zfo t i next start s e h = grind arith

-- How many ticks lie ahead, in the direction of the swap.
abbrev pub ahead : Bool → ℤ → ℤ
ahead zfo tick = if zfo then tick +ℤ pos max_tick else pos max_tick -ℤ tick

-- The limit lies strictly inside the range of prices, in the direction of the swap.
abbrev pub IsInside : Bool → ℕ → Type 0
IsInside true limit = min_sqrt_ratio < limit
IsInside false limit = limit < max_sqrt_ratio

clamp_low :
    (x : ℤ)
    → clamp_tick x ≢ neg (pos max_tick)
    → (clamp_tick x ≤ℤ x) × (neg (pos max_tick) <ℤ clamp_tick x)
clamp_low x h = grind int_laws

clamp_high :
    (x : ℤ) → clamp_tick x ≢ pos max_tick → (x ≤ℤ clamp_tick x) × (clamp_tick x <ℤ pos max_tick)
clamp_high x h = grind int_laws

target-down :
    (next limit x : ℕ) → target_price true next limit ≡ x → x ≢ limit → (x ≡ next) × (limit ≤ next)
unfolding target_price
target-down next limit x h other = ground arith

target-up :
    (next limit x : ℕ) → target_price false next limit ≡ x → x ≢ limit → (x ≡ next) × (next ≤ limit)
unfolding target_price
target-up next limit x h other = ground arith

running-parts :
    (limit : ℕ) (s : SwapState)
    → running limit s ≡ true
    → (s.remaining ≢ pos 0) × (s.sqrt_price ≢ limit)
unfolding running
running-parts limit s h = ground arith

same-ratio :
    {a b : ℕ} (t u : ℤ)
    → get_sqrt_ratio_at_tick t ≡ ok a
    → get_sqrt_ratio_at_tick u ≡ ok b
    → t ≡ u
    → a ≡ b
same-ratio t u h g e = ground arith

settle_step-all :
    (s : SwapState) (step : Step) (r : ℕ)
    → s.remaining ≡ pos r
    → pos step.amount_in +ℤ step.fee_amount ≡ pos r
    → (settle_step true s step).remaining ≡ pos 0
unfolding settle_step
settle_step-all s step r e all = rw (e, all) (omega int_laws)

target-next :
    (zfo : Bool) (next limit x : ℕ)
    → target_price zfo next limit ≡ x
    → x ≢ limit
    → (x ≡ next) × (if zfo then limit ≤ next else next ≤ limit)
target-next true = target-down
target-next false = target-up

-- A round that reaches the next tick moves on by a tick at least.
reach-ahead :
    (p : ClPoolState) (zfo : Bool) (limit next : ℕ) (sorted : List ℤ) (tick tick' : ℤ)
    → 0 < p.tick_spacing
    → IsInside zfo limit
    → get_sqrt_ratio_at_tick (clamp_tick (next_initialized_tick p tick zfo sorted).0) ≡ ok next
    → (if zfo then limit ≤ next else next ≤ limit)
    → tick' ≡ (
        if zfo
        then clamp_tick (next_initialized_tick p tick zfo sorted).0 -ℤ pos 1
        else clamp_tick (next_initialized_tick p tick zfo sorted).0)
    → (ahead zfo tick' <ℤ ahead zfo tick) × (pos 0 <ℤ ahead zfo tick)
reach-ahead p true limit next sorted tick tick' h inside at beyond moved =
    let found = (next_initialized_tick p tick true sorted).0 in
    let low =
      clamp_low found
        (λ e. let least = same-ratio _ _ at ratio_low e in omega (arith, least, inside, beyond)) in
    let down = next_initialized_tick-down p tick sorted h in
    rw moved (omega (int_laws, low, down), omega (int_laws, low, down))
reach-ahead p false limit next sorted tick tick' h inside at beyond moved =
    let found = (next_initialized_tick p tick false sorted).0 in
    let high =
      clamp_high found
        (λ e. let most = same-ratio _ _ at ratio_high e in omega (arith, most, inside, beyond)) in
    let up = next_initialized_tick-up p tick sorted h in
    rw moved (omega (int_laws, high, up), omega (int_laws, high, up))

pub swap_round-ahead :
    (p : ClPoolState) (zfo : Bool) (limit fee : ℕ) (sorted : List ℤ) (s : SwapState)
    {s' : SwapState}
    → 0 < p.tick_spacing
    → IsInside zfo limit
    → pos 0 ≤ℤ s.remaining
    → swap_round p zfo true limit fee sorted s ≡ ok s'
    → running limit s' ≡ true
    → (ahead zfo s'.tick <ℤ ahead zfo s.tick) × (pos 0 <ℤ ahead zfo s.tick)
unfolding swap_round settle_step
swap_round-ahead p zfo limit fee sorted s {s'} h inside nn ran more =
    let (next, at, h1) = >>=-eq-ok (get_sqrt_ratio_at_tick _) _ ran in
    let (step, stepped, h2) =
      >>=-eq-ok
        (compute_swap_step s.sqrt_price (target_price zfo next limit) s.liquidity s.remaining fee) _
        h1 in
    let (r, e) = nonneg_pos s.remaining nn in
    let spend =
      compute_swap_step_spend s.sqrt_price (target_price zfo next limit) s.liquidity r fee
        (rw e at stepped) in
    let (left, price) = running-parts limit s' more in
    let same_left = move_tick-remaining p zfo _ _ next s.sqrt_price (settle_step true s step) h2 in
    let same_price = move_tick-price p zfo _ _ next s.sqrt_price (settle_step true s step) h2 in
    elim spend.2 [
      | inr all ↦ absurd (left (same_left ∙ settle_step-all s step r e all))
      | inl reached ↦
          let (here, beyond) =
            target-next zfo next limit s'.sqrt_price (reached ∙ sym same_price) price in
          let moved =
            move_tick-tick p zfo _ _ next s.sqrt_price (settle_step true s step)
              (sym same_price ∙ here) h2 in
          reach-ahead p zfo limit next sorted s.tick s'.tick h inside at beyond moved
    ]
