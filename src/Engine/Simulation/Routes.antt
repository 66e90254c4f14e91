-- ===== src/Engine/Simulation/Routes.antt =====
-- engine/simulation.py: `_tradable_pool`, `_launch_window_reason` and `_capacity_check`, which quoting,
-- submission and inclusion share.
use memeval.Prelude.{
  ◌^◌, String, Bool, true, false, not, ◌&&◌, ◌||◌, Option, none, some, List, [], ◌∷◌, Result, ok,
  err, raise_if, ◌>>=◌, ◌>>◌, if◌then◌else◌, str_eq, string_eq,
}
use memeval.Prelude.Int.{ℤ, pos, neg, ◌+ℤ◌, ◌-ℤ◌, ◌*ℤ◌, ltb_ℤ, leb_ℤ}
use memeval.Prelude.Dict.{get, get_or}
use memeval.Domain.Status.{
  PoolModel, uniswap_v3_cl, uniswap_v4_cl, supported_cpmm, ErrorCode, not_yet_discovered,
  environment_fidelity_limit, unsupported_capability, missing_data, no_route,
}
use memeval.Broker.Orders.{CapacityReason, no_liquidity, input_limit, displacement_limit}
use memeval.Venues.Cpmm.Pool.{BlockReason, sell, buy}
use memeval.Engine.Venue.{Venue}
use memeval.Engine.Simulation.{PoolMeta, Params, Simulation, BrokerError, rejected}

-- INF
abbrev pub inf : ℤ
inf = pos (2 ^ 62)

-- HOOKED_LAUNCH_WINDOW_MS
abbrev pub hooked_launch_window_ms : ℤ
hooked_launch_window_ms = pos 120000

-- SUPPORTED_CLMM_MODELS
abbrev supported_clmm : PoolModel → Bool
supported_clmm uniswap_v3_cl = true
supported_clmm uniswap_v4_cl = true
supported_clmm _ = false

abbrev pub cl_supported : PoolMeta → Bool
cl_supported meta = meta.supported_by_clmm && supported_clmm meta.model

unfoldable pub cpmm_supported : PoolMeta → Bool
cpmm_supported meta = meta.supported_by_cpmm && supported_cpmm meta.model

-- key in self.fidelity_failed
unfoldable pub has_failed : List String → String → Bool
has_failed [] key = false
has_failed (k ∷ ks) key = str_eq k key || has_failed ks key

-- whether `_launch_window_reason` gives a reason
unfoldable pub in_launch_window : {Pool : Type 0} → Simulation Pool → String → ℤ → Bool
in_launch_window s key t = elim (get s.pool_meta key) [
  | none ↦ false
  | some meta ↦ elim (get s.cl_init_ms key) [
    | none ↦ false
    | some init ↦ meta.hooks && ltb_ℤ t (init +ℤ hooked_launch_window_ms)
  ]
]

-- the rejection of a pool that has no state yet
abbrev unavailable : {Pool : Type 0} → Simulation Pool → String → PoolMeta → ErrorCode
unavailable s key meta =
    if not (cpmm_supported meta) && not (cl_supported meta)
    then unsupported_capability
    else if ltb_ℤ s.now_ms (get_or s.cl_init_ms key (neg inf))
    then not_yet_discovered
    else missing_data

module _ {Pool E : Type 0} (v : Venue Pool E) where
  unfoldable pub tradable_pool : Simulation Pool → String → Result (BrokerError E) Pool
  unfolding cpmm_supported has_failed in_launch_window
  tradable_pool s key = elim (get s.pool_meta key) [
    | none ↦ err (rejected not_yet_discovered)
    | some meta ↦ do
      raise_if (ltb_ℤ s.now_ms (get_or s.pool_discovery_ms key inf)) (rejected not_yet_discovered)
      raise_if (has_failed s.fidelity_failed key) (rejected environment_fidelity_limit)
      elim (get s.pools key) [
        | none ↦ err (rejected (unavailable s key meta))
        | some p ↦ do
          raise_if (v.halted p) (rejected no_route)
          raise_if (in_launch_window s key s.now_ms) (rejected no_route)
          ok p
      ]
  ]

  -- asset not in (pool.asset0, pool.asset1)
  abbrev pub has_asset : Pool → String → Bool
  has_asset p asset = str_eq asset (v.asset0 p) || str_eq asset (v.asset1 p)

  -- `pool.transfer_blocked(asset_in, "sell") or pool.transfer_blocked(asset_out, "buy")`
  unfoldable pub trade_blocked : Pool → String → String → Option BlockReason
  trade_blocked p asset_in asset_out = elim (v.transfer_blocked p asset_in sell) [
    | some r ↦ some r
    | none ↦ v.transfer_blocked p asset_out buy
  ]

  -- `abs(new - refv) * 10_000 > refv * bps`, for a reference that holds something
  abbrev pub displaced : ℤ → ℤ → ℤ → Bool
  displaced bps new refv =
      ltb_ℤ (pos 0) refv
      && (ltb_ℤ (refv *ℤ bps) ((new -ℤ refv) *ℤ pos 10000)
          || ltb_ℤ (refv *ℤ bps) ((refv -ℤ new) *ℤ pos 10000))

  -- the comparison with the state that no agent has touched
  abbrev against_reference :
      Params → Pool → Option Pool → String → ℤ → ℤ → Result E (Option CapacityReason)
  against_reference params p none asset_in amount_in out = ok none
  against_reference params p (some ref) asset_in amount_in out = do
    (new_in, new_out) ← v.depth_after p asset_in amount_in out
    (ref_in, ref_out) ← v.depth_for ref asset_in
    let bps = params.max_cumulative_displacement_bps
    ok (
        if displaced bps new_in ref_in || displaced bps new_out ref_out
        then some displacement_limit
        else none)

  unfoldable pub capacity_check :
      Simulation Pool → Pool → String → ℤ → ℤ → Result E (Option CapacityReason)
  capacity_check s p asset_in amount_in out = do
    (rin, rout) ← v.depth_for p asset_in
    if leb_ℤ rin (pos 0) || leb_ℤ rout (pos 0)
        then ok (some no_liquidity)
        else if ltb_ℤ (rin *ℤ s.params.max_input_bps_of_reserve) (amount_in *ℤ pos 10000)
        then ok (some input_limit)
        else against_reference s.params p (get s.ref_pools (v.key p)) asset_in amount_in out
