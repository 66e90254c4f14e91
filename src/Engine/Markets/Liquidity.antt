-- ===== src/Engine/Markets/Liquidity.antt =====
-- engine/simulation.py: _apply_cl_init, the branch of `cl_modify`, and _record_trade for a pool of either kind.
use memeval.Prelude.{
  ℕ, zero, suc, ◌+◌, String, false, not, Option, none, some, [], Result, ok, err, map_err, ◌>>=◌,
  if◌then◌else◌, string_eq,
}
use memeval.Prelude.Int.{ℤ, pos, pos_part, ◌+ℤ◌, ltb_ℤ}
use memeval.Prelude.Dict.{get, get_or, put, contains}
use memeval.Observations.Store.{TradeObs, external, append, no_observations}
use memeval.Venues.Clmm.FullMath.{Checked, ratio_bound}
use memeval.Venues.Clmm.TickMath.{get_tick_at_sqrt_ratio}
use memeval.Venues.Clmm.Pool.{ClPoolState, create, apply_modify_liquidity}
use memeval.Engine.Tape.{RelEvent}
use memeval.Engine.External.{
  cl_already_initialized, reference_init_invalid, reference_modify_invalid,
}
use memeval.Engine.Venue.Mixed.{PoolState, cl, other_of, pool_state_after}
use memeval.Engine.Simulation.{PoolMeta}
use memeval.Engine.Simulation.Routes.{cl_supported, has_failed}
use memeval.Engine.Markets.{
  Markets, EventError, of_cl, of_venue, assertion, add_flag, set_pool, set_ref, fail_pool, cl_of,
}

-- a recorded price, which the checks of the pool refuse if it is negative
abbrev as_price : ℤ → Checked ℕ
as_price x = if ltb_ℤ x (pos 0) then err ratio_bound else ok (pos_part x)

abbrev fee_or_zero : Option ℕ → ℕ
fee_or_zero none = 0
fee_or_zero (some n) = n

-- `int(meta.tick_spacing or 1)`
abbrev spacing_of : Option ℕ → ℕ
spacing_of none = 1
spacing_of (some zero) = 1
spacing_of (some (suc n)) = suc n

unfoldable pub record_pool_trade :
    Markets → RelEvent → PoolState → String → ℤ → ℤ → Result EventError Markets
record_pool_trade m ev p asset_in amount_in out = do
  asset_out ← map_err of_venue (other_of p asset_in)
  let after = pool_state_after p
  let seen : TradeObs = record {
    seq = m.trade_seq + 1;
    pool = ev.pool;
    event_ms = ev.time_ms;
    available_ms = elim ev.available_ms [
      | none ↦ ev.time_ms +ℤ m.availability_delay_ms
      | some t ↦ t
    ];
    block = ev.block;
    log_index = ev.log_index;
    tx = ev.tx;
    wallet = ev.wallet;
    asset_in = asset_in;
    asset_out = asset_out;
    amount_in = amount_in;
    amount_out = out;
    origin = external;
    order_id = none;
    reserve0_after = after.reserve0;
    reserve1_after = after.reserve1;
    sqrt_price_x96_after = after.sqrt_price_x96;
    tick_after = after.tick;
    liquidity_after = after.liquidity;
  }
  let before = get_or m.obs ev.pool (no_observations ev.pool)
  ok (record m { trade_seq = m.trade_seq + 1; obs = put m.obs ev.pool (append before seen) })

-- the tick of the event, or of its price
unfoldable pub first_tick : Option ℤ → ℤ → Checked ℤ
first_tick (some t) price = ok t
first_tick none price = as_price price >>= get_tick_at_sqrt_ratio

unfoldable pub opening_state : PoolMeta → String → ℤ → ℤ → Checked ClPoolState
opening_state meta key price tick = do
  sqrt ← as_price price
  create (record {
    key = key;
    asset0 = meta.asset0;
    asset1 = meta.asset1;
    fee_pips = fee_or_zero meta.fee_pips;
    tick_spacing = spacing_of meta.tick_spacing;
    sqrt_price_x96 = sqrt;
    tick = tick;
    liquidity = 0;
    ticks = [];
    halted = false;
    restrictions = [];
  })

unfoldable pub open_pool : Markets → RelEvent → PoolMeta → ℤ → Result EventError Markets
unfolding first_tick opening_state
open_pool m ev meta price =
    if contains m.pools ev.pool
    then ok (add_flag m ev cl_already_initialized)
    else (map_err of_cl (first_tick ev.tick price) >>= λ tick.
        elim (opening_state meta ev.pool price tick) [
          | err _ ↦ ok (add_flag m ev reference_init_invalid)
          | ok p ↦ ok (set_pool (set_ref m ev.pool (cl p)) ev.pool (cl p))
        ])

unfoldable pub apply_cl_init : Markets → RelEvent → Result EventError Markets
unfolding open_pool
apply_cl_init m ev = elim (get m.pool_meta ev.pool) [
  | none ↦ ok m
  | some meta ↦
      if not (cl_supported meta)
      then ok m
      else elim ev.sqrt_price_x96 [ none ↦ ok m | some price ↦ open_pool m ev meta price ]
]

-- the private half of a change of liquidity
unfoldable pub modify_private : Markets → RelEvent → ClPoolState → ℤ → ℤ → ℤ → Markets
modify_private m ev p lower upper delta =
    if has_failed m.fidelity_failed ev.pool
    then m
    else elim (apply_modify_liquidity p lower upper delta) [
      | ok (q, _) ↦ set_pool m ev.pool (cl q)
      | err _ ↦ fail_pool m ev
    ]

unfoldable pub modify_both :
    Markets → RelEvent → ClPoolState → ℤ → ℤ → ℤ → Result EventError Markets
unfolding modify_private
modify_both m ev ref lower upper delta = elim (cl_of (get m.pools ev.pool)) [
  | none ↦ err assertion
  | some p ↦ elim (apply_modify_liquidity ref lower upper delta) [
    | ok (r, _) ↦ ok (modify_private (set_ref m ev.pool (cl r)) ev p lower upper delta)
    | err _ ↦ ok (modify_private (add_flag m ev reference_modify_invalid) ev p lower upper delta)
  ]
]

-- the three fields of the event, if it has them all
abbrev pub all_three : Option ℤ → Option ℤ → Option ℤ → Option (ℤ × (ℤ × ℤ))
all_three (some a) (some b) (some c) = some (a, (b, c))
all_three _ _ _ = none

unfoldable pub apply_cl_modify : Markets → RelEvent → Result EventError Markets
unfolding modify_both
apply_cl_modify m ev = elim (cl_of (get m.ref_pools ev.pool)) [
  | none ↦ ok m
  | some ref ↦ elim (all_three ev.tick_lower ev.tick_upper ev.liquidity_delta) [
    | none ↦ ok m
    | some (lower, (upper, delta)) ↦ modify_both m ev ref lower upper delta
  ]
]
