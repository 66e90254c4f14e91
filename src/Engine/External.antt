-- ===== src/Engine/External.antt =====
-- engine/simulation.py, `_apply_external`: what a recorded event does to the two states of one
-- constant-product market. A market is the part of the simulation that is kept for the event's pool,
-- with the counters that all pools share.
pub mod Funds
pub mod Reserves
pub mod Divergence
use memeval.Prelude.{
  ℕ, ◌+◌, String, Bool, true, false, not, ◌&&◌, Option, none, some, List, [], ◌∷◌, ◌++◌, Result, ok,
  err, ◌>>=◌, map_err, if◌then◌else◌, str_eq, string_eq,
}
use memeval.Prelude.Int.{ℤ, pos, pos_part, neg, ◌+ℤ◌, ◌-ℤ◌, ltb_ℤ, eqb_ℤ}
use memeval.Prelude.Dict.{Dict, get, get_or, put}
use memeval.Venues.Cpmm.Math.{CpmmMathError}
use memeval.Venues.Cpmm.Pool.{
  CpmmPoolState, Restriction, PoolError, Ratio, DeltaClass, negative_burn, fidelity_limit, match,
  explained, material, max_out, other, apply_swap, apply_mint, apply_burn, apply_adjust,
  anchor_to_sync, classify_checkpoint_delta,
}
use memeval.Observations.Store.{TradeObs, PoolObservations, external, append}
use memeval.Engine.Tape.{
  Kind, RelEvent, swap, mint, burn, adjust, sync, cl_init, cl_modify, cl_swap, halt, unhalt,
  restriction, discovery,
}

pub data FlagCode : Type 0 where
  reference_swap_invalid recorded_output_exceeds_model external_swap_failed : FlagCode
  reference_burn_overdraw reference_adjust_overdraw environment_fidelity_limit : FlagCode
  cl_already_initialized reference_init_invalid reference_modify_invalid : FlagCode

pub record FidelityFlag : Type 0 where
  pub time_ms : ℤ
  pub pool : String
  pub code : FlagCode

pub record Mismatch : Type 0 where
  pub seq : ℤ
  pub pool : String
  pub block : ℤ
  pub delta0 : ℤ
  pub delta1 : ℤ

-- `failed` is the entry of `fidelity_failed` for this pool.
pub record Market : Type 0 where
  pub pool : CpmmPoolState
  pub ref : CpmmPoolState
  pub failed : Bool
  pub fidelity_flags : List FidelityFlag
  pub state_version : ℕ
  pub trade_seq : ℕ
  pub obs : PoolObservations
  pub explained_count : ℕ
  pub material_count : ℕ
  pub reconciliation_mismatches : List Mismatch

-- The exceptions that leave the handler.
pub data SimError : Type 0 where
  math : CpmmMathError → SimError
  state : PoolError → SimError

abbrev pub flag : Market → RelEvent → FlagCode → Market
flag m ev c = record m {
  fidelity_flags =
      m.fidelity_flags ++ record { time_ms = ev.time_ms; pool = ev.pool; code = c } ∷ [];
}

abbrev pub bump : Market → Market
bump m = record m { state_version = m.state_version + 1 }

unfoldable pub record_trade : ℤ → RelEvent → Market → String → ℤ → ℤ → Result SimError Market
record_trade delay ev m asset_in amount_in out = do
  asset_out ← map_err math (other m.pool asset_in)
  let seen : TradeObs = record {
    seq = m.trade_seq + 1;
    pool = ev.pool;
    event_ms = ev.time_ms;
    available_ms = elim ev.available_ms [ none ↦ ev.time_ms +ℤ delay | some t ↦ t ];
    block = ev.block;
    log_index = ev.log_index;
    tx = ev.tx;
    wallet = ev.wallet;
    asset_in = asset_in;
    asset_out = asset_out;
    amount_in = amount_in;
    amount_out = out;
    origin = external;
    order_id = none;
    reserve0_after = m.pool.reserve0;
    reserve1_after = m.pool.reserve1;
    sqrt_price_x96_after = none;
    tick_after = none;
    liquidity_after = none;
  }
  ok (record m { trade_seq = m.trade_seq + 1; obs = append m.obs seen })

unfoldable pub apply_recorded_to_ref : CpmmPoolState → String → ℤ → ℤ → CpmmPoolState
apply_recorded_to_ref ref asset_in amount_in out =
    if str_eq asset_in ref.asset0
    then record ref { reserve0 = ref.reserve0 +ℤ amount_in; reserve1 = ref.reserve1 -ℤ out }
    else record ref { reserve1 = ref.reserve1 +ℤ amount_in; reserve0 = ref.reserve0 -ℤ out }

-- the private half of a swap: fixed intent, recomputed output
unfoldable pub swap_private :
    ℤ → RelEvent → Market → String → ℤ → Option Ratio → Result SimError Market
unfolding record_trade
swap_private delay ev m asset_in amount_in ratio =
    if m.failed then ok m else elim (apply_swap m.pool asset_in amount_in ratio) [
      | err e ↦ ok (flag m ev external_swap_failed)
      | ok (q, out) ↦ elim ev.available_ms [
        | none ↦ ok (bump (record m { pool = q }))
        | some _ ↦ record_trade delay ev (bump (record m { pool = q })) asset_in amount_in out
      ]
    ]

-- the recorded output, which is at most the model's on the reference state
abbrev pub clamped : Option ℤ → ℤ → ℤ
clamped none ref_max = ref_max
clamped (some r) ref_max = if ltb_ℤ ref_max r then ref_max else r

abbrev exceeds : Option ℤ → ℤ → Bool
exceeds none ref_max = false
exceeds (some r) ref_max = ltb_ℤ ref_max r

abbrev pub ratio_of : ℤ → ℤ → Option Ratio
ratio_of out ref_max =
    if not (eqb_ℤ ref_max (pos 0)) && not (eqb_ℤ out ref_max)
    then some (record { numerator = out; denominator = pos_part ref_max })
    else none

-- the market after the reference half of a swap
abbrev pub swap_reference : RelEvent → Market → String → ℤ → ℤ → Market
swap_reference ev m asset_in amount_in ref_max =
    let flagged =
      if exceeds ev.amount_out_recorded ref_max
      then flag m ev recorded_output_exceeds_model
      else m in
    record flagged {
      ref = apply_recorded_to_ref m.ref asset_in amount_in (clamped ev.amount_out_recorded ref_max);
    }

unfoldable pub external_swap : ℤ → RelEvent → Market → Result SimError Market
unfolding apply_recorded_to_ref swap_private
external_swap delay ev m = elim ev.asset_in [
  | none ↦ ok m
  | some asset_in ↦ elim ev.amount_in [
    | none ↦ ok m
    | some amount_in ↦ elim (max_out m.ref asset_in amount_in) [
      | err e ↦ ok (flag m ev reference_swap_invalid)
      | ok ref_max ↦
          swap_private delay ev (swap_reference ev m asset_in amount_in ref_max) asset_in amount_in
            (ratio_of (clamped ev.amount_out_recorded ref_max) ref_max)
    ]
  ]
]

abbrev pub or_zero : Option ℤ → ℤ
or_zero none = pos 0
or_zero (some x) = x

unfoldable pub external_mint : RelEvent → Market → Result SimError Market
external_mint ev m = do
  r ← map_err state (apply_mint m.ref (or_zero ev.amount0) (or_zero ev.amount1))
  if m.failed
      then ok (record m { ref = r })
      else (map_err state (apply_mint m.pool (or_zero ev.amount0) (or_zero ev.amount1)) >>= λ q.
          ok (bump (record m { ref = r; pool = q })))

-- The market after `FidelityLimit` on the private state.
abbrev pub fail : RelEvent → Market → Market
fail ev m = flag (record m { failed = true }) ev environment_fidelity_limit

unfoldable pub burn_private : RelEvent → Market → ℤ → ℤ → Result SimError Market
burn_private ev m a b = if m.failed then ok m else elim (apply_burn m.pool a b) [
  | ok q ↦ ok (bump (record m { pool = q }))
  | err fidelity_limit ↦ ok (fail ev m)
  | err e ↦ err (state e)
]

unfoldable pub external_burn : RelEvent → Market → Result SimError Market
unfolding burn_private
external_burn ev m =
    let a = or_zero ev.amount0 in
    let b = or_zero ev.amount1 in
    elim (apply_burn m.ref a b) [
      | ok r ↦ burn_private ev (record m { ref = r }) a b
      | err fidelity_limit ↦ burn_private ev (flag m ev reference_burn_overdraw) a b
      | err e ↦ err (state e)
    ]

-- `apply_adjust` raises `FidelityLimit` only.
unfoldable pub adjust_private : RelEvent → Market → ℤ → ℤ → Market
adjust_private ev m d0 d1 =
    if m.failed
    then m
    else if eqb_ℤ d0 (pos 0) && eqb_ℤ d1 (pos 0)
    then m
    else elim (apply_adjust m.pool d0 d1) [
      | ok q ↦ bump (record m { pool = q })
      | err e ↦ fail ev m
    ]

unfoldable pub external_adjust : RelEvent → Market → Market
unfolding adjust_private
external_adjust ev m =
    let d0 = or_zero ev.amount0 in
    let d1 = or_zero ev.amount1 in
    elim (apply_adjust m.ref d0 d1) [
      | ok r ↦ adjust_private ev (record m { ref = r }) d0 d1
      | err e ↦ adjust_private ev (flag m ev reference_adjust_overdraw) d0 d1
    ]

-- what follows a checkpoint, by the class of its difference
unfoldable pub follow_sync : DeltaClass → RelEvent → ℤ → ℤ → Market → Market
unfolding adjust_private
follow_sync match ev d0 d1 m = m
follow_sync explained ev d0 d1 m =
    adjust_private ev (record m { explained_count = m.explained_count + 1 }) (neg d0) (neg d1)
follow_sync material ev d0 d1 m =
    let mismatch : Mismatch = record {
      seq = ev.seq;
      pool = ev.pool;
      block = ev.block;
      delta0 = d0;
      delta1 = d1;
    } in
    adjust_private ev
      (record m {
        material_count = m.material_count + 1;
        reconciliation_mismatches = m.reconciliation_mismatches ++ mismatch ∷ [];
      })
      (neg d0) (neg d1)

unfoldable pub sync_to : RelEvent → Market → ℤ → ℤ → Market
unfolding follow_sync
sync_to ev m reserve0 reserve1 =
    let (r, (d0, d1)) = anchor_to_sync m.ref reserve0 reserve1 in
    follow_sync (classify_checkpoint_delta d0 d1 (get_or ev.payload "orphan" false)) ev d0 d1
      (record m { ref = r })

unfoldable pub external_sync : RelEvent → Market → Market
unfolding sync_to
external_sync ev m = elim ev.reserve0 [
  | none ↦ m
  | some r0 ↦ elim ev.reserve1 [ none ↦ m | some r1 ↦ sync_to ev m r0 r1 ]
]

abbrev pub set_halted : Bool → Market → Market
set_halted h m =
    bump (record m { pool = record m.pool { halted = h }; ref = record m.ref { halted = h } })

abbrev set_flag : Option Bool → Bool → Bool
set_flag none old = old
set_flag (some new) old = new

-- `restrictions.setdefault(asset, {}).update(…)` with the payload's flags
abbrev pub restricted : RelEvent → String → Dict String Restriction → Dict String Restriction
restricted ev asset restrictions =
    let old : Restriction =
      get_or restrictions asset (record { sell_blocked = false; buy_blocked = false }) in
    put restrictions asset (record {
      sell_blocked = set_flag (get ev.payload "sell_blocked") old.sell_blocked;
      buy_blocked = set_flag (get ev.payload "buy_blocked") old.buy_blocked;
    })

-- The list of restriction events is kept outside a market.
unfoldable pub external_restriction : RelEvent → Market → Market
external_restriction ev m = elim ev.payload_asset [
  | none ↦ m
  | some asset ↦
      if str_eq asset ""
      then m
      else bump (record m {
        pool = record m.pool { restrictions = restricted ev asset m.pool.restrictions };
        ref = record m.ref { restrictions = restricted ev asset m.ref.restrictions };
      })
]

-- the branches of `_apply_external`; the events of concentrated liquidity leave this market alone
unfoldable pub apply_kind : Kind → ℤ → RelEvent → Market → Result SimError Market
unfolding external_swap external_mint external_burn external_adjust external_sync
    external_restriction
apply_kind swap delay ev m = external_swap delay ev m
apply_kind mint delay ev m = external_mint ev m
apply_kind burn delay ev m = external_burn ev m
apply_kind adjust delay ev m = ok (external_adjust ev m)
apply_kind sync delay ev m = ok (external_sync ev m)
apply_kind halt delay ev m = ok (set_halted true m)
apply_kind unhalt delay ev m = ok (set_halted false m)
apply_kind restriction delay ev m = ok (external_restriction ev m)
apply_kind cl_init delay ev m = ok m
apply_kind cl_modify delay ev m = ok m
apply_kind cl_swap delay ev m = ok m
apply_kind discovery delay ev m = ok m

unfoldable pub apply_external : ℤ → RelEvent → Market → Result SimError Market
unfolding apply_kind
apply_external delay ev m = apply_kind ev.kind delay ev m
