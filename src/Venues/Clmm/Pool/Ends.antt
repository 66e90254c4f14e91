-- ===== src/Venues/Clmm/Pool/Ends.antt =====
-- venues/clmm/pool.py: the swap loop of an exact input ends.
use memeval.Prelude.{
  ℕ, zero, suc, ◌*◌, ◌<◌, ◌≡◌, ◌≢◌, refl, inl, inr, Bool, true, false, Bool-cases, Option, none,
  some, List, Result, ok, Result-cases, arith, >>=-eq-ok,
}
use memeval.Prelude.Int.{ℤ, pos, neg, ◌≤ℤ◌, ◌<ℤ◌, int_laws, ltb_ℤ}
use memeval.Venues.Clmm.FullMath.{ClMathError}
use memeval.Venues.Clmm.TickMath.{max_tick}
use memeval.Venues.Clmm.Pool.{ClPoolState}
use memeval.Venues.Clmm.Pool.Swap.{
  SwapState, swap_round, running, swap_loop, check_swap, default_limit, SwapResult, finish_swap,
  swap, sorted_ticks,
}
use memeval.Venues.Clmm.Pool.Spend.{swap_round-remaining, nonneg_pos}
use memeval.Venues.Clmm.Pool.Rounds.{ahead, IsInside, swap_round-ahead}

swap_loop-done :
    (n : ℕ) (p : ClPoolState) (zfo : Bool) (limit fee : ℕ) (sorted : List ℤ) (s : SwapState)
    → running limit s ≡ false
    → swap_loop n p zfo true limit fee sorted s ≡ ok (some s)
unfolding swap_loop
swap_loop-done zero p zfo limit fee sorted s over = rw over refl
swap_loop-done (suc n) p zfo limit fee sorted s over = rw over refl

-- With as many rounds as ticks lie ahead, the loop of an exact input ends or raises an error.
pub swap_loop_ends :
    (n : ℕ) (p : ClPoolState) (zfo : Bool) (limit fee : ℕ) (sorted : List ℤ) (s : SwapState)
    → 0 < p.tick_spacing
    → IsInside zfo limit
    → pos 0 ≤ℤ s.remaining
    → 0 < n
    → ahead zfo s.tick <ℤ pos n
    → swap_loop n p zfo true limit fee sorted s ≢ ok none
unfolding swap_loop
swap_loop_ends zero p zfo limit fee sorted s h inside nn some_fuel more = omega (arith, some_fuel)
swap_loop_ends (suc n) p zfo limit fee sorted s h inside nn some_fuel more =
    elim (Bool-cases (running limit s)) [
      | inr over ↦ λ stuck. ground arith
      | inl on ↦ elim (Result-cases (swap_round p zfo true limit fee sorted s)) [
        | inr (e, failed) ↦ λ stuck. ground arith
        | inl (mid, round) ↦ λ stuck.
            let rest : swap_loop n p zfo true limit fee sorted mid ≡ ok none =
              rw (on, round, swap_loop) at stuck in
            elim (Bool-cases (running limit mid)) [
              | inr over ↦
                  let done = swap_loop-done n p zfo limit fee sorted mid over in ground arith
              | inl again ↦
                  let (r, e) = nonneg_pos s.remaining nn in
                  let left = (swap_round-remaining p zfo limit fee sorted s r e round).0 in
                  let (closer, room) =
                    swap_round-ahead p zfo limit fee sorted s h inside nn round again in
                  swap_loop_ends n p zfo limit fee sorted mid h inside left
                    (omega (arith, room, more)) (omega (arith, closer, more)) rest
            ]
      ]
    ]

check_swap-IsInside :
    (p : ClPoolState) (zfo : Bool) (amount : ℤ) (limit fee : ℕ)
    → check_swap p zfo amount limit fee ≡ ok tt
    → IsInside zfo limit
unfolding check_swap
check_swap-IsInside p true amount limit fee h = ground arith
check_swap-IsInside p false amount limit fee h = ground arith

not_ended :
    (p : ClPoolState) (zfo : Bool) (amount : ℤ) (ended : Option SwapState)
    → Path
        (Result ClMathError (Option (ClPoolState × SwapResult)))
        (ok (elim ended [ none ↦ none | some s ↦ some (finish_swap p zfo amount s) ]))
        (ok none)
    → ended ≡ none
not_ended p zfo amount none h = refl
not_ended p zfo amount (some s) h = ground arith

within :
    (zfo : Bool) (tick : ℤ) (n : ℕ)
    → neg (pos max_tick) ≤ℤ tick
    → tick ≤ℤ pos max_tick
    → 2 * max_tick < n
    → ahead zfo tick <ℤ pos n
within true tick n low high enough = omega (int_laws, low, high, enough)
within false tick n low high enough = omega (int_laws, low, high, enough)

-- On a pool with a positive spacing whose tick is in range, every swap of an exact input ends or raises an
-- error within as many rounds as there are ticks, whatever its limit and its fee.
pub swap_ends :
    (n : ℕ) (p : ClPoolState) (zfo : Bool) (amount : ℤ) (limit fee : Option ℕ)
    → 0 < p.tick_spacing
    → neg (pos max_tick) ≤ℤ p.tick
    → p.tick ≤ℤ pos max_tick
    → pos 0 <ℤ amount
    → 2 * max_tick < n
    → swap n p zfo amount limit fee ≢ ok none
unfolding swap
swap_ends n p zfo amount limit fee h low high input enough stuck =
    let f : ℕ = elim fee [ none ↦ p.fee_pips | some x ↦ x ] in
    let l : ℕ = elim limit [ none ↦ default_limit zfo | some x ↦ x ] in
    let start : SwapState = record {
      remaining = amount;
      calculated = pos 0;
      sqrt_price = p.sqrt_price_x96;
      tick = p.tick;
      liquidity = p.liquidity;
    } in
    let exact : ltb_ℤ (pos 0) amount ≡ true = ground arith in
    let (_, checked, looped) = >>=-eq-ok (check_swap p zfo amount l f) _ stuck in
    let (ended, ran, last) =
      >>=-eq-ok (swap_loop n p zfo (ltb_ℤ (pos 0) amount) l f (sorted_ticks p.ticks) start) _
        looped in
    let open_end : ended ≡ none = not_ended p zfo amount ended last in
    swap_loop_ends n p zfo l f (sorted_ticks p.ticks) start h
      (check_swap-IsInside p zfo amount l f checked) (omega (arith, input)) (omega (arith, enough))
      (within zfo p.tick n low high enough) (rw (exact, open_end) at ran)
