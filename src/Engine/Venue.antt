-- ===== src/Engine/Venue.antt =====
-- The surface that engine/simulation.py uses of a pool of either venue.
pub mod Cpmm
pub mod Clmm
pub mod Mixed
use memeval.Prelude.{ℕ, ◌≡◌, String, Bool, Option, Result, ok}
use memeval.Prelude.Int.{ℤ, pos, ◌<ℤ◌}
use memeval.Venues.Cpmm.Pool.{Direction, BlockReason}

-- What `_state_after` reports; the last three are those of a concentrated-liquidity pool.
pub record StateAfter : Type 0 where
  pub reserve0 : ℤ
  pub reserve1 : ℤ
  pub sqrt_price_x96 : Option ℕ
  pub tick : Option ℤ
  pub liquidity : Option ℕ

-- `depth_after` is the depth that `_capacity_check` expects a trade to leave.
pub record Venue (Pool E : Type 0) : Type 0 where
  pub key : Pool → String
  pub asset0 : Pool → String
  pub asset1 : Pool → String
  pub halted : Pool → Bool
  pub fee_num : Pool → ℤ
  pub fee_den : Pool → ℤ
  pub other : Pool → String → Result E String
  pub depth_for : Pool → String → Result E (ℤ × ℤ)
  pub max_out : Pool → String → ℤ → Result E ℤ
  pub apply_swap : Pool → String → ℤ → Result E (Pool × ℤ)
  pub transfer_blocked : Pool → String → Direction → Option BlockReason
  pub depth_after : Pool → String → ℤ → ℤ → Result E (ℤ × ℤ)
  pub state_after : Pool → StateAfter
  -- A swap that succeeds pays out the quoted amount, and something.
  pub swap_quoted :
      (p : Pool) (asset : String) (amount : ℤ) (q : Pool) (out : ℤ)
      → apply_swap p asset amount ≡ ok (q, out)
      → max_out p asset amount ≡ ok out
  pub swap_pays :
      (p : Pool) (asset : String) (amount : ℤ) (q : Pool) (out : ℤ)
      → apply_swap p asset amount ≡ ok (q, out)
      → pos 0 <ℤ out
