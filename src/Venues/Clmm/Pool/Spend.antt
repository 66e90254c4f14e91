-- ===== src/Venues/Clmm/Pool/Spend.antt =====
-- venues/clmm/pool.py: what the swap loop takes.
use memeval.Prelude.{
  ℕ, zero, suc, ◌≡◌, refl, Bool, true, some, List, ok, arith, Bool-cases, >>=-eq-ok, inl, inr,
}
use memeval.Prelude.Int.{ℤ, pos, negsuc, ◌+ℤ◌, ◌≤ℤ◌, int_laws}
use memeval.Venues.Clmm.TickMath.{get_sqrt_ratio_at_tick}
use memeval.Venues.Clmm.SwapMath.{Step, compute_swap_step}
use memeval.Venues.Clmm.SwapMath.Spend.{compute_swap_step_spend}
use memeval.Venues.Clmm.Pool.{ClPoolState}
use memeval.Venues.Clmm.Pool.Swap.{
  SwapState, settle_step, move_tick, swap_round, running, swap_loop, target_price,
}

pub move_tick-remaining :
    (p : ClPoolState) (zfo : Bool) (t : ℤ) (i : Bool) (next start : ℕ) (s : SwapState)
    {s' : SwapState}
    → move_tick p zfo t i next start s ≡ ok s'
    → s'.remaining ≡ s.remaining
unfolding move_tick
move_tick-remaining p zfo t i next start s h = grind arith

pub nonneg_pos : (x : ℤ) → pos 0 ≤ℤ x → (r : ℕ) × (x ≡ pos r)
nonneg_pos (pos r) h = (r, refl)
nonneg_pos (negsuc r) h = absurd (omega arith)

settle_step-remaining :
    (s : SwapState) (step : Step) (r : ℕ)
    → s.remaining ≡ pos r
    → pos 0 ≤ℤ step.fee_amount
    → pos step.amount_in +ℤ step.fee_amount ≤ℤ pos r
    → (pos 0 ≤ℤ (settle_step true s step).remaining)
      × ((settle_step true s step).remaining ≤ℤ pos r)
unfolding settle_step
settle_step-remaining s step r e f h = rw e (omega (int_laws, f, h), omega (int_laws, f, h))

-- A round of an exact input takes no more than remains.
pub swap_round-remaining :
    (p : ClPoolState) (zfo : Bool) (limit fee : ℕ) (sorted : List ℤ) (s : SwapState) (r : ℕ)
    {s' : SwapState}
    → s.remaining ≡ pos r
    → swap_round p zfo true limit fee sorted s ≡ ok s'
    → (pos 0 ≤ℤ s'.remaining) × (s'.remaining ≤ℤ pos r)
unfolding swap_round settle_step
swap_round-remaining p zfo limit fee sorted s r {s'} e h =
    let (next, _, h1) = >>=-eq-ok (get_sqrt_ratio_at_tick _) _ h in
    let (step, ran, h2) =
      >>=-eq-ok
        (compute_swap_step s.sqrt_price (target_price zfo next limit) s.liquidity s.remaining fee) _
        h1 in
    let spend =
      compute_swap_step_spend s.sqrt_price (target_price zfo next limit) s.liquidity r fee
        (rw e at ran) in
    let moved : s'.remaining ≡ (settle_step true s step).remaining =
      move_tick-remaining p zfo _ _ next s.sqrt_price (settle_step true s step) h2 in
    rw moved (settle_step-remaining s step r e spend.0 spend.1)

-- However many rounds it takes, a loop of an exact input that ends has taken an amount between
-- nothing and what remained at its start.
pub swap_loop-remaining :
    (n : ℕ) (p : ClPoolState) (zfo : Bool) (limit fee : ℕ) (sorted : List ℤ) (s : SwapState)
    {s' : SwapState}
    → pos 0 ≤ℤ s.remaining
    → swap_loop n p zfo true limit fee sorted s ≡ ok (some s')
    → (pos 0 ≤ℤ s'.remaining) × (s'.remaining ≤ℤ s.remaining)
unfolding swap_loop
swap_loop-remaining zero p zfo limit fee sorted s {s'} nn h =
    let same : s ≡ s' = ground arith in rw (← same) (nn, omega arith)
swap_loop-remaining (suc n) p zfo limit fee sorted s {s'} nn h =
    elim (Bool-cases (running limit s)) [
      | inr over ↦ let same : s ≡ s' = ground arith in rw (← same) (nn, omega arith)
      | inl more ↦
          let (mid, round, rest) =
            >>=-eq-ok (swap_round p zfo true limit fee sorted s)
              (λ x. swap_loop n p zfo true limit fee sorted x) (rw (more, swap_loop) at h) in
          let (r, e) = nonneg_pos s.remaining nn in
          let first = swap_round-remaining p zfo limit fee sorted s r e round in
          let later = swap_loop-remaining n p zfo limit fee sorted mid first.0 rest in
          (later.0, rw e (omega (arith, later.1, first.1)))
    ]
