-- ===== src/Engine/Simulation.antt =====
-- engine/simulation.py, class Simulation: the state that the broker works on. An `Order` object is
-- shared by four containers of the source: here `orders` is the store, under the order's sequence
-- number, and the other three hold such numbers. Quotes are kept under their numbers as well.
pub mod Routes
pub mod Quoting
pub mod Numbering
pub mod Submission
pub mod Valuation
pub mod Inclusion
pub mod Backing
pub mod Lifecycle
use memeval.Prelude.{ℕ, String, Bool, Option, List}
use memeval.Prelude.Int.{ℤ}
use memeval.Prelude.Dict.{Dict}
use memeval.Domain.Status.{PoolModel, ErrorCode}
use memeval.Broker.Ledger.{Ledger, LedgerError}
use memeval.Broker.Orders.{Order, Quote}
use memeval.Engine.Blocks.{BlockSchedule, BlockScheduleError}
use memeval.Observations.Store.{PoolObservations}

-- What the broker reads of a pool's record in the pack. `hooks` and `created` tell whether the
-- field is set.
pub record PoolMeta : Type 0 where
  pub key : String
  pub asset0 : String
  pub asset1 : String
  pub supported_by_cpmm : Bool
  pub supported_by_clmm : Bool
  pub model : PoolModel
  pub fee_pips : Option ℕ
  pub tick_spacing : Option ℕ
  pub hooks : Bool

-- The execution parameters; the two of the capacity profile are basis points.
pub record Params : Type 0 where
  pub quote_ttl_ms : ℤ
  pub submit_latency_ms : ℤ
  pub availability_delay_ms : ℤ
  pub confirm_blocks : ℤ
  pub max_input_bps_of_reserve : ℤ
  pub max_cumulative_displacement_bps : ℤ

pub data PointSource : Type 0 where
  grid ledger_event : PointSource

pub record EquityPoint : Type 0 where
  pub time_ms : ℤ
  pub complete : Bool
  pub equity : Option ℤ
  pub cash : ℤ
  pub priced : ℤ
  pub no_route_assets : List String
  pub unpriced_assets : List String
  pub source : PointSource

-- `gas_cost`, which the source reads from a text without a test of its sign, is taken not to be negative.
pub record Simulation (Pool : Type 0) : Type 0 where
  pub params : Params
  pub schedule : BlockSchedule
  pub numeraire : String
  pub gas_cost : ℕ
  pub now_ms : ℤ
  pub end_ms : ℤ
  pub finished : Bool
  pub pools : Dict String Pool
  pub ref_pools : Dict String Pool
  pub pool_meta : Dict String PoolMeta
  pub pool_discovery_ms : Dict String ℤ
  pub cl_init_ms : Dict String ℤ
  pub fidelity_failed : List String
  pub state_version : ℕ
  pub ledger : Ledger
  pub orders : Dict ℕ Order
  pub orders_by_key : Dict String ℕ
  pub order_seq : ℕ
  pub quotes : Dict ℕ Quote
  pub quote_seq : ℕ
  pub inclusions : Dict ℤ (List ℕ)
  pub confirmations : Dict ℤ (List ℕ)
  pub trade_seq : ℕ
  pub obs : Dict String PoolObservations
  pub equity_points : List EquityPoint

-- What leaves a broker call: `SubmitRejected` with its code, an error of the venue, of the ledger or
-- of the schedule that nothing catches, or a failed assertion.
pub data BrokerError (E : Type 0) : Type 0 where
  rejected : ErrorCode → BrokerError E
  venue_error : E → BrokerError E
  ledger_error : LedgerError → BrokerError E
  schedule_error : BlockScheduleError → BrokerError E
  assertion_error : BrokerError E
