-- ===== src/Engine/Markets.antt =====
-- engine/simulation.py, `_apply_external` on the pools of both kinds. `Markets` is the part of the
-- simulation that an event reads or writes. The events of a constant-product pool go to its market
-- (Engine/External); those of a concentrated-liquidity pool are handled here.
pub mod Liquidity
pub mod Swaps
pub mod Events
pub mod Anchored
use memeval.Prelude.{
  ℕ, zero, suc, ◌+◌, String, Bool, true, false, not, ◌&&◌, ◌||◌, Option, none, some, List, [], ◌∷◌,
  ◌++◌, map, Result, ok, err, map_err, ◌>>=◌, if◌then◌else◌, str_eq, string_eq,
}
use memeval.Prelude.Int.{ℤ, pos, pos_part, neg, ◌+ℤ◌, ltb_ℤ, eqb_ℤ}
use memeval.Prelude.Dict.{Dict, get, get_or, put, contains}
use memeval.Observations.Store.{TradeObs, PoolObservations, external, append, no_observations}
use memeval.Venues.Clmm.FullMath.{Checked, ClMathError, ratio_bound}
use memeval.Venues.Clmm.TickMath.{get_tick_at_sqrt_ratio}
use memeval.Venues.Clmm.Pool.{ClPoolState, create, apply_modify_liquidity}
use memeval.Venues.Clmm.Pool.Recorded.{
  Mode, exact_in, exact_out, anchored_degenerate, RecordedSwap, Replay, apply_recorded_swap,
}
use memeval.Venues.Clmm.Pool.Trade.{anchor_to_recorded, apply_state_delta, apply_intent}
use memeval.Engine.Tape.{
  Kind, RelEvent, swap, mint, burn, adjust, sync, cl_init, cl_modify, cl_swap, halt, unhalt,
  restriction, discovery,
}
use memeval.Engine.External.{
  FidelityFlag, FlagCode, Market, SimError, apply_external, restricted, reference_swap_invalid,
  external_swap_failed, environment_fidelity_limit, cl_already_initialized, reference_init_invalid,
  reference_modify_invalid,
}
use memeval.Engine.Venue.Clmm.{all_rounds}
use memeval.Engine.Venue.Mixed.{PoolState, cpmm, cl, VenueError, other_of, pool_state_after}
use memeval.Engine.Simulation.{PoolMeta}
use memeval.Engine.Simulation.Routes.{cl_supported, has_failed}
use memeval.Engine.Scheduler.{ClMismatch, Reconciliation, of_reserves, of_swap, RestrictionEvent}

pub record Markets : Type 0 where
  pub pools : Dict String PoolState
  pub ref_pools : Dict String PoolState
  pub pool_meta : Dict String PoolMeta
  pub availability_delay_ms : ℤ
  pub fidelity_failed : List String
  pub state_version : ℕ
  pub trade_seq : ℕ
  pub obs : Dict String PoolObservations
  pub fidelity_flags : List FidelityFlag
  pub explained_count : ℕ
  pub material_count : ℕ
  pub reconciliation_mismatches : List Reconciliation
  pub external_zero_output_swaps : ℕ
  pub restriction_events : List RestrictionEvent

-- The exceptions that leave the handler; `swap_unfinished` is a replay whose loop has not ended in as
-- many rounds as an exact input can need.
pub data EventError : Type 0 where
  of_market : SimError → EventError
  of_cl : ClMathError → EventError
  of_venue : VenueError → EventError
  assertion swap_unfinished : EventError

abbrev pub add_flag : Markets → RelEvent → FlagCode → Markets
add_flag m ev c = record m {
  fidelity_flags =
      m.fidelity_flags ++ record { time_ms = ev.time_ms; pool = ev.pool; code = c } ∷ [];
}

abbrev pub set_pool : Markets → String → PoolState → Markets
set_pool m key p = record m { pools = put m.pools key p; state_version = m.state_version + 1 }

abbrev pub set_ref : Markets → String → PoolState → Markets
set_ref m key p = record m { ref_pools = put m.ref_pools key p }

abbrev add_key : List String → String → List String
add_key keys key = if has_failed keys key then keys else keys ++ key ∷ []

-- `self.fidelity_failed[ev.pool] = …` with its flag
abbrev pub fail_pool : Markets → RelEvent → Markets
fail_pool m ev =
    add_flag (record m { fidelity_failed = add_key m.fidelity_failed ev.pool }) ev
      environment_fidelity_limit

-- the constant-product market of a key, if its pool and its reference are of that kind
abbrev cpmm_market : Markets → String → PoolState → PoolState → Option Market
cpmm_market m key (cpmm p) (cpmm r) = some (record {
  pool = p;
  ref = r;
  failed = has_failed m.fidelity_failed key;
  fidelity_flags = m.fidelity_flags;
  state_version = m.state_version;
  trade_seq = m.trade_seq;
  obs = get_or m.obs key (no_observations key);
  explained_count = m.explained_count;
  material_count = m.material_count;
  reconciliation_mismatches = [];
})
cpmm_market m key _ _ = none

unfoldable pub market_of : Markets → String → Option Market
market_of m key = elim (get m.pools key) [
  | none ↦ none
  | some p ↦ elim (get m.ref_pools key) [ none ↦ none | some r ↦ cpmm_market m key p r ]
]

unfoldable pub put_market : Markets → String → Market → Markets
put_market m key k = record m {
  pools = put m.pools key (cpmm k.pool);
  ref_pools = put m.ref_pools key (cpmm k.ref);
  fidelity_failed = if k.failed then add_key m.fidelity_failed key else m.fidelity_failed;
  state_version = k.state_version;
  trade_seq = k.trade_seq;
  obs = put m.obs key k.obs;
  fidelity_flags = k.fidelity_flags;
  explained_count = k.explained_count;
  material_count = k.material_count;
  reconciliation_mismatches =
      m.reconciliation_mismatches ++ map of_reserves k.reconciliation_mismatches;
}

unfoldable pub on_cpmm : Markets → RelEvent → Result EventError Markets
unfolding market_of put_market
on_cpmm m ev = elim (market_of m ev.pool) [
  | none ↦ ok m
  | some k ↦
      (map_err of_market (apply_external m.availability_delay_ms ev k) >>= λ k'.
      ok (put_market m ev.pool k'))
]

-- the concentrated-liquidity state of a key
abbrev pub cl_of : Option PoolState → Option ClPoolState
cl_of (some (cl p)) = some p
cl_of _ = none
