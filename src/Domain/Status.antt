-- ===== src/Domain/Status.antt =====
-- domain/status.py: the status vocabularies as enumerations, and the sets that the code tests.
use memeval.Prelude.{Bool, true, false}

pub data DataOrigin : Type 0 where
  generated_fixture captured_observations historical_reconstruction report_excerpt : DataOrigin
  mixed : DataOrigin

pub data AvailabilityBasis : Type 0 where
  recorded_receipt reconstructed_with_delay_model fixture_delay_model : AvailabilityBasis
  unknown : AvailabilityBasis

pub data ExecutionModel : Type 0 where
  cpmm_fixed_flow_v1 diagnostic_no_execution : ExecutionModel

pub data TokenBehavior : Type 0 where
  known_fixture_rules historically_supported assumed_standard_transfer unknown : TokenBehavior

pub data Isolation : Type 0 where
  trusted_external_client restricted_local_runner : Isolation

pub data UseStatus : Type 0 where
  demo research qualified_for_named_suite diagnostic_only rejected withdrawn : UseStatus

pub data PredictiveValidity : Type 0 where
  not_established : PredictiveValidity

pub data PoolModel : Type 0 where
  uniswap_v2_plain fixture_cpmm uniswap_v3 uniswap_v4_hooked uniswap_v3_cl : PoolModel
  uniswap_v4_cl bonding_curve unknown : PoolModel

pub data RunState : Type 0 where
  queued running paused completed agent_failed environment_failed budget_exhausted : RunState
  aborted : RunState

pub data OrderState : Type 0 where
  received rejected accepted_and_reserved pending_inclusion : OrderState
  filled_pending_confirmation confirmed reverted expired model_capacity_rejected : OrderState

pub data ErrorCode : Type 0 where
  not_yet_discovered outside_coverage unsupported_capability missing_data stale_data : ErrorCode
  no_route insufficient_funds quote_expired slippage_limit rate_limited : ErrorCode
  invalid_order invalid_request episode_ended environment_fidelity_limit : ErrorCode
  model_capacity_limit idempotency_conflict budget_exhausted run_paused unauthorized : ErrorCode
  session_finished : ErrorCode

pub data Completeness : Type 0 where
  complete partial unknown empty_verified : Completeness

pub data CoverageState : Type 0 where
  pending completed_and_checked partial missing failed : CoverageState

pub data ValuationClass : Type 0 where
  cash priced_liquidatable no_route unpriced_missing_data : ValuationClass

pub data GateStatus : Type 0 where
  passed failed not_applicable warning : GateStatus

pub data ValidationStatus : Type 0 where
  tested not_tested failed assumed : ValidationStatus

-- SUPPORTED_CPMM_MODELS
unfoldable pub supported_cpmm : PoolModel → Bool
supported_cpmm uniswap_v2_plain = true
supported_cpmm fixture_cpmm = true
supported_cpmm _ = false

-- TERMINAL_RUN_STATES
unfoldable pub terminal_run : RunState → Bool
terminal_run RunState.queued = false
terminal_run RunState.running = false
terminal_run RunState.paused = false
terminal_run _ = true

-- TERMINAL_ORDER_STATES
unfoldable pub terminal_order : OrderState → Bool
terminal_order OrderState.rejected = true
terminal_order OrderState.confirmed = true
terminal_order OrderState.reverted = true
terminal_order OrderState.expired = true
terminal_order OrderState.model_capacity_rejected = true
terminal_order _ = false
