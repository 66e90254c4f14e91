-- ===== src/Tests/Market.antt =====
-- engine/simulation.py on a concrete market.
use memeval.Prelude.{◌∷◌, ℕ, refl, String, true, false, none, some, [], ok, ◌+◌, arith}
use memeval.Prelude.Int.{ℤ, pos, ◌+ℤ◌, ◌-ℤ◌, ◌≤ℤ◌, int_laws}
use memeval.Domain.Status.{fixture_cpmm}
use memeval.Venues.Cpmm.Pool.{CpmmPoolState}
use memeval.Engine.Tape.Order.{IsKeyOrdered, IsTimeOrdered, to_relative-IsOrdered}
use memeval.Engine.Tape.{TapeEvent, to_relative, Kind, RelEvent, swap, burn}
use memeval.Observations.Store.{no_observations}
use memeval.Engine.External.{Market, apply_external}
use memeval.Engine.External.Reserves.{apply_external-IsSound}
use memeval.Engine.External.Funds.{IsSound, IsRecorded}
use memeval.Engine.External.Divergence.{IsFrozen, apply_external-IsFrozen}

abbrev weth_meme : ℤ → ℤ → CpmmPoolState
weth_meme x y = record {
  key = "p";
  asset0 = "weth";
  asset1 = "meme";
  reserve0 = x;
  reserve1 = y;
  fee_num = pos 997;
  fee_den = pos 1000;
  model = fixture_cpmm;
  halted = false;
  restrictions = [];
}

abbrev opened : Market
opened = record {
  pool = weth_meme (pos 900) (pos 1100);
  ref = weth_meme (pos 1000) (pos 1000);
  failed = false;
  fidelity_flags = [];
  state_version = 0;
  trade_seq = 0;
  obs = no_observations "p";
  explained_count = 0;
  material_count = 0;
  reconciliation_mismatches = [];
}

abbrev event : Kind → RelEvent
event kind = record {
  seq = pos 1;
  block = pos 7;
  log_index = pos 0;
  time_ms = pos 2000;
  kind = kind;
  pool = "p";
  tx = none;
  wallet = none;
  asset_in = some "weth";
  amount_in = some (pos 100);
  amount_out_recorded = none;
  amount0 = some (pos 950);
  amount1 = some (pos 10);
  reserve0 = none;
  reserve1 = none;
  payload = [];
  payload_asset = none;
  available_ms = none;
  availability_basis = "";
  sqrt_price_x96 = none;
  tick = none;
  tick_lower = none;
  tick_upper = none;
  liquidity_delta = none;
  sqrt_price_x96_after = none;
  liquidity_after = none;
  tick_after = none;
  fee_pips = none;
}

opened-IsSound : IsSound opened
opened-IsSound = record {
  private_funded = record { funded0 = omega int_laws; funded1 = omega int_laws };
  reference_funded = record { funded0 = omega int_laws; funded1 = omega int_laws };
}

event-IsRecorded : IsRecorded (event swap)
event-IsRecorded = record { recorded_out = tt; recorded0 = tt; recorded1 = tt }

abbrev traded : Market
traded = record opened {
  pool = weth_meme (pos 1000) (pos 991);
  ref = weth_meme (pos 1100) (pos 910);
  state_version = 1;
}

apply_external-IsSound_example : IsSound traded
unfolding apply_external memeval.Venues.Cpmm.Pool.max_out memeval.Venues.Cpmm.Math.get_amount_out
    memeval.Venues.Cpmm.Pool.apply_swap memeval.Venues.Cpmm.Pool.scaled
    memeval.Prelude.Int.floor_div memeval.Prelude.Int.◌*ℤ◌ ◌+ℤ◌ ◌-ℤ◌
apply_external-IsSound_example =
    apply_external-IsSound (pos 0) (event swap) opened event-IsRecorded opened-IsSound refl

-- a burn that the private state cannot honour
abbrev overdrawn : Market
overdrawn = record opened { failed = true }

apply_external-IsFrozen_example :
    IsFrozen overdrawn (record overdrawn { ref = weth_meme (pos 50) (pos 990) })
unfolding apply_external memeval.Venues.Cpmm.Pool.apply_burn
apply_external-IsFrozen_example = apply_external-IsFrozen (pos 0) (event burn) overdrawn refl refl

abbrev row : ℤ → ℤ → TapeEvent
row block utc = record {
  event = record (event swap) { block = block };
  time_utc_ms = utc;
  available_utc_ms = none;
}

abbrev tape_at : ℤ → ℤ → RelEvent
tape_at block time = record (event swap) { block = block; time_ms = time; available_ms = none }

to_relative-IsOrdered_example :
    IsKeyOrdered (tape_at (pos 3) (pos 5) ∷ tape_at (pos 4) (pos 7) ∷ [])
    × IsTimeOrdered (tape_at (pos 3) (pos 5) ∷ tape_at (pos 4) (pos 7) ∷ [])
unfolding to_relative memeval.Engine.Tape.key_leb ◌-ℤ◌
to_relative-IsOrdered_example =
    to_relative-IsOrdered (row (pos 4) (pos 107) ∷ row (pos 3) (pos 105) ∷ []) (pos 100)
      {tape = tape_at (pos 3) (pos 5) ∷ tape_at (pos 4) (pos 7) ∷ []} refl
