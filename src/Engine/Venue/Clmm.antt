-- ===== src/Engine/Venue/Clmm.antt =====
-- The concentrated-liquidity pool as a venue of engine/simulation.py. A swap has as many rounds as its loop
-- can need, one for each tick and one more; a loop that did not end would be `unfinished`.
use memeval.Prelude.{
  ℕ, ◌+◌, ◌*◌, ◌≡◌, String, Option, none, some, Result, ok, err, ◌>>=◌, map_err, arith,
  Result-cases, inl, inr, str_eq,
}
use memeval.Prelude.Int.{ℤ, pos, ◌-ℤ◌, ◌<ℤ◌}
use memeval.Venues.Clmm.FullMath.{Checked, ClMathError}
use memeval.Venues.Clmm.TickMath.{max_tick}
use memeval.Venues.Clmm.SwapMath.{fee_denominator}
use memeval.Venues.Clmm.Pool.{
  ClPoolState, copy, other, depth_for, virtual_reserves, transfer_blocked,
}
use memeval.Venues.Clmm.Pool.Trade.{quote, max_out, apply_swap, trial_swap}
use memeval.Engine.Venue.{Venue, StateAfter}

pub data ClVenueError : Type 0 where
  math : ClMathError → ClVenueError
  unfinished : ClVenueError

abbrev pub all_rounds : ℕ
all_rounds = 2 * max_tick + 1

abbrev finished : {A : Type 0} → Checked (Option A) → Result ClVenueError A
finished (err e) = err (math e)
finished (ok none) = err unfinished
finished (ok (some a)) = ok a

abbrev as_depth : ℕ × ℕ → ℤ × ℤ
as_depth (x, y) = (pos x, pos y)

unfoldable pub cl_depth_for : ClPoolState → String → Result ClVenueError (ℤ × ℤ)
cl_depth_for p asset = map_err math (depth_for p asset) >>= λ d. ok (as_depth d)

unfoldable pub cl_max_out : ClPoolState → String → ℤ → Result ClVenueError ℤ
cl_max_out p asset amount = finished (max_out all_rounds p asset amount)

unfoldable pub cl_apply_swap : ClPoolState → String → ℤ → Result ClVenueError (ClPoolState × ℤ)
cl_apply_swap p asset amount = finished (apply_swap all_rounds p asset amount none)

-- the branch of `_capacity_check` for a concentrated-liquidity pool: the depth after the swap on a copy
unfoldable pub cl_depth_after : ClPoolState → String → ℤ → ℤ → Result ClVenueError (ℤ × ℤ)
unfolding cl_apply_swap cl_depth_for
cl_depth_after p asset_in amount_in out = do
  copied ← map_err math (copy p)
  (trial, _) ← cl_apply_swap copied asset_in amount_in
  cl_depth_for trial asset_in

swap_settled :
    (n : ℕ) (p : ClPoolState) (asset : String) (amount : ℤ) (q : ClPoolState) (out : ℤ)
    → apply_swap n p asset amount none ≡ ok (some (q, out))
    → (max_out n p asset amount ≡ ok (some out)) × (pos 0 <ℤ out)
unfolding apply_swap max_out quote other
swap_settled n p asset amount q out h =
    elim (Result-cases (trial_swap n p (str_eq asset p.asset0) amount none)) [
      | inl (none, e) ↦ ground arith
      | inl (some r, e) ↦ ground arith
      | inr (bad, e) ↦ ground arith
    ]

pub cl_swap_settled :
    (p : ClPoolState) (asset : String) (amount : ℤ) (q : ClPoolState) (out : ℤ)
    → cl_apply_swap p asset amount ≡ ok (q, out)
    → (cl_max_out p asset amount ≡ ok out) × (pos 0 <ℤ out)
unfolding cl_apply_swap cl_max_out
cl_swap_settled p asset amount q out h =
    elim (Result-cases (apply_swap all_rounds p asset amount none)) [
      | inl (none, e) ↦ ground arith
      | inl (some (q', out'), e) ↦
          let settled = swap_settled all_rounds p asset amount q' out' e in
          let same : out' ≡ out = ground arith in rw settled.0 (ground arith, rw same at settled.1)
      | inr (bad, e) ↦ ground arith
    ]

abbrev cl_state_after : ClPoolState → StateAfter
cl_state_after p =
    let (x, y) = virtual_reserves p in
    record {
      reserve0 = pos x;
      reserve1 = pos y;
      sqrt_price_x96 = some p.sqrt_price_x96;
      tick = some p.tick;
      liquidity = some p.liquidity;
    }

abbrev pub clmm_venue : Venue ClPoolState ClVenueError
clmm_venue = record {
  key = λ p. p.key;
  asset0 = λ p. p.asset0;
  asset1 = λ p. p.asset1;
  halted = λ p. p.halted;
  fee_num = λ p. pos fee_denominator -ℤ pos p.fee_pips;
  fee_den = λ p. pos fee_denominator;
  other = λ p asset. map_err math (other p asset);
  depth_for = cl_depth_for;
  max_out = cl_max_out;
  apply_swap = cl_apply_swap;
  transfer_blocked = transfer_blocked;
  depth_after = cl_depth_after;
  state_after = cl_state_after;
  swap_quoted = λ p asset amount q out h. (cl_swap_settled p asset amount q out h).0;
  swap_pays = λ p asset amount q out h. (cl_swap_settled p asset amount q out h).1;
}
