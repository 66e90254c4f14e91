-- ===== src/Engine/Venue/Mixed.antt =====
-- engine/simulation.py: `PoolState`, a pool of either venue, and `MathError`, an error of either.
use memeval.Prelude.{
  ◌≡◌, refl, Option, String, Bool, Result, ok, map_err, map_err-ok, ◌>>=◌, >>=-eq-ok, ok-injective,
  ap,
}
use memeval.Prelude.Int.{ℤ, pos, ◌<ℤ◌}
use memeval.Venues.Cpmm.Math.{CpmmMathError}
use memeval.Venues.Cpmm.Pool.{CpmmPoolState, Direction, BlockReason}
use memeval.Venues.Clmm.Pool.{ClPoolState}
use memeval.Engine.Venue.{Venue, StateAfter}
use memeval.Engine.Venue.Cpmm.{cpmm_venue}
use memeval.Engine.Venue.Clmm.{ClVenueError, clmm_venue}

pub data PoolState : Type 0 where
  cpmm : CpmmPoolState → PoolState
  cl : ClPoolState → PoolState

pub data VenueError : Type 0 where
  cpmm_error : CpmmMathError → VenueError
  cl_error : ClVenueError → VenueError

abbrev pub key_of : PoolState → String
key_of (cpmm p) = p.key
key_of (cl p) = p.key

abbrev pub asset0_of : PoolState → String
asset0_of (cpmm p) = p.asset0
asset0_of (cl p) = p.asset0

abbrev pub asset1_of : PoolState → String
asset1_of (cpmm p) = p.asset1
asset1_of (cl p) = p.asset1

abbrev pub is_halted : PoolState → Bool
is_halted (cpmm p) = p.halted
is_halted (cl p) = p.halted

abbrev pub fee_num_of : PoolState → ℤ
fee_num_of (cpmm p) = cpmm_venue.fee_num p
fee_num_of (cl p) = clmm_venue.fee_num p

abbrev pub fee_den_of : PoolState → ℤ
fee_den_of (cpmm p) = cpmm_venue.fee_den p
fee_den_of (cl p) = clmm_venue.fee_den p

unfoldable pub other_of : PoolState → String → Result VenueError String
other_of (cpmm p) asset = map_err cpmm_error (cpmm_venue.other p asset)
other_of (cl p) asset = map_err cl_error (clmm_venue.other p asset)

unfoldable pub pool_depth_for : PoolState → String → Result VenueError (ℤ × ℤ)
pool_depth_for (cpmm p) asset = map_err cpmm_error (cpmm_venue.depth_for p asset)
pool_depth_for (cl p) asset = map_err cl_error (clmm_venue.depth_for p asset)

unfoldable pub pool_max_out : PoolState → String → ℤ → Result VenueError ℤ
pool_max_out (cpmm p) asset amount = map_err cpmm_error (cpmm_venue.max_out p asset amount)
pool_max_out (cl p) asset amount = map_err cl_error (clmm_venue.max_out p asset amount)

unfoldable pub pool_apply_swap : PoolState → String → ℤ → Result VenueError (PoolState × ℤ)
pool_apply_swap (cpmm p) asset amount =
    map_err cpmm_error (cpmm_venue.apply_swap p asset amount) >>= λ (q, out). ok (cpmm q, out)
pool_apply_swap (cl p) asset amount =
    map_err cl_error (clmm_venue.apply_swap p asset amount) >>= λ (q, out). ok (cl q, out)

unfoldable pub pool_transfer_blocked : PoolState → String → Direction → Option BlockReason
pool_transfer_blocked (cpmm p) asset direction = cpmm_venue.transfer_blocked p asset direction
pool_transfer_blocked (cl p) asset direction = clmm_venue.transfer_blocked p asset direction

-- the two branches of `_capacity_check`
unfoldable pub pool_depth_after : PoolState → String → ℤ → ℤ → Result VenueError (ℤ × ℤ)
pool_depth_after (cpmm p) asset amount out =
    map_err cpmm_error (cpmm_venue.depth_after p asset amount out)
pool_depth_after (cl p) asset amount out =
    map_err cl_error (clmm_venue.depth_after p asset amount out)

-- `_state_after`
unfoldable pub pool_state_after : PoolState → StateAfter
pool_state_after (cpmm p) = cpmm_venue.state_after p
pool_state_after (cl p) = clmm_venue.state_after p

pub pool_swap_settled :
    (p : PoolState) (asset : String) (amount : ℤ) (q : PoolState) (out : ℤ)
    → pool_apply_swap p asset amount ≡ ok (q, out)
    → (pool_max_out p asset amount ≡ ok out) × (pos 0 <ℤ out)
unfolding pool_apply_swap pool_max_out
pool_swap_settled (cpmm p) asset amount q out h =
    let swapped : Result VenueError (CpmmPoolState × ℤ) =
      map_err cpmm_error (cpmm_venue.apply_swap p asset amount) in
    let ((q', out'), ran, same) = >>=-eq-ok swapped _ h in
    let ran' = map_err-ok {F = VenueError} cpmm_error (cpmm_venue.apply_swap p asset amount) ran in
    let e : out' ≡ out = ap (λ (x : PoolState × ℤ). x.1) (ok-injective same) in
    rw (← e) (
      rw (cpmm_venue.swap_quoted p asset amount q' out' ran') refl,
      cpmm_venue.swap_pays p asset amount q' out' ran',
    )
pool_swap_settled (cl p) asset amount q out h =
    let swapped : Result VenueError (ClPoolState × ℤ) =
      map_err cl_error (clmm_venue.apply_swap p asset amount) in
    let ((q', out'), ran, same) = >>=-eq-ok swapped _ h in
    let ran' = map_err-ok {F = VenueError} cl_error (clmm_venue.apply_swap p asset amount) ran in
    let e : out' ≡ out = ap (λ (x : PoolState × ℤ). x.1) (ok-injective same) in
    rw (← e) (
      rw (clmm_venue.swap_quoted p asset amount q' out' ran') refl,
      clmm_venue.swap_pays p asset amount q' out' ran',
    )

abbrev pub pool_venue : Venue PoolState VenueError
pool_venue = record {
  key = key_of;
  asset0 = asset0_of;
  asset1 = asset1_of;
  halted = is_halted;
  fee_num = fee_num_of;
  fee_den = fee_den_of;
  other = other_of;
  depth_for = pool_depth_for;
  max_out = pool_max_out;
  apply_swap = pool_apply_swap;
  transfer_blocked = pool_transfer_blocked;
  depth_after = pool_depth_after;
  state_after = pool_state_after;
  swap_quoted = λ p asset amount q out h. (pool_swap_settled p asset amount q out h).0;
  swap_pays = λ p asset amount q out h. (pool_swap_settled p asset amount q out h).1;
}
