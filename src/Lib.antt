-- ===== src/Lib.antt =====
-- A model of the market replay engine: the ledger and the venues that simulated trades run on, the
-- broker, the recorded events and the time loop.
--
-- Parts, each with the file of the repository it models:
-- - Domain/Status: the status vocabularies of src/market_replay/domain/status.py.
-- - Broker/Ledger: the append-only ledger of src/market_replay/broker/ledger.py. Each trade moves
--   funds between the participant's accounts, the pools and the cost sinks by one `post`. The
--   account strings are constructors; `is_agent` is the test of the prefix.
-- - Venues/Cpmm/Math and Venues/Cpmm/Pool: the constant-product formulas and the pool state of
--   src/market_replay/venues/cpmm/math.py and pool.py.
-- - Venues/Clmm: the concentrated-liquidity venue of src/market_replay/venues/clmm. FullMath,
--   TickMath, SqrtPriceMath, SwapMath and LiquidityMath are the sections of math.py, and Pool is
--   pool.py: the state, the changes of liquidity, the swap loop, the swaps on a copy and the replay
--   of recorded swaps.
-- - Broker/Orders: the order of src/market_replay/broker/orders.py, and in Settlement the methods
--   _release, _revert and _confirm of src/market_replay/engine/simulation.py, which post to the
--   ledger.
-- - Engine/Venue and Engine/Simulation: the broker of src/market_replay/engine/simulation.py. Venue
--   is the surface it uses of a pool, with the two pools in Venue/Cpmm and Venue/Clmm; Routes,
--   Quoting, Numbering, Submission, Valuation and Inclusion are the methods quote, submit,
--   value_portfolio and _include with their helpers. Backing and Lifecycle hold what the calls keep:
--   the ledger against the store of orders, and the life of an order over any sequence of calls.
-- - Observations: the trades with their times of availability, the coverage and the candles of
--   src/market_replay/observations/store.py, which the external flow and the broker append to.
-- - Engine/Blocks: the block schedules of src/market_replay/engine/blocks.py.
-- - Engine/Tape and Engine/External: the recorded event and to_relative of
--   src/market_replay/engine/tape.py, and _apply_external of src/market_replay/engine/simulation.py
--   for a constant-product market, which drives the reference and the private state of its pool.
-- - Engine/Venue/Mixed and Engine/Markets: PoolState, a pool of either venue, and _apply_external
--   over all pools of a simulation. Liquidity has _apply_cl_init and the changes of liquidity, Swaps
--   has _apply_cl_swap; Events sends an event to its handler, and gives the flow that the time loop
--   takes.
-- - Engine/Scheduler: the time loop of src/market_replay/engine/simulation.py over the broker and
--   over an interface `Flow` for the handler of recorded events. Loop has process_until,
--   _process_time, _process_tape_until, _tail_end_ms and finish. For its proofs, Queues, Work and
--   Due have what a call leaves of the queues, the work and the next event, Rounds has a round of
--   the loop, Returns has the loops on enough fuel, Follows has the blocks of the queues, and Ends,
--   Finish, Splits and Sound have the loop itself. Observable is unresolved_orders, discovered_pools
--   and next_observable_event_ms, and Hidden what that query does not depend on. A queue holds the
--   number of an order, where the source has the order object, which the store of orders holds too.
-- - Prelude: raised errors as results, integers with Python's floor division, and dictionaries as
--   association lists. Tests: concrete runs.
--
-- A method that changes its object returns the new state. An exception is the error of a result,
-- with one constructor for each code that is raised; the texts of messages are left out. Python's
-- integers are ℤ here, or ℕ where the source checks an unsigned range; the bounds of Solidity's
-- words are the source's own checks. Fuel is in `bit_length_on`, which halves a number of less than
-- 2 ^ 192 at most 192 times; in `swap_loop`, where a round for each tick and one more is enough for
-- an exact input, and where a replay as an exact output takes what it is given, the same number in
-- Engine/Markets; in `digits`, which prints a number on the number itself; in `bars`, which has as
-- many rounds as milliseconds in the period; and in the time loop, which has one round more than
-- there is work left: recorded events, blocks in the two queues, and points of the reporting grid.
-- Each round takes some of that work, since the next event is one of them, and a positive reporting
-- interval makes the grid run out. The hash of an order's payload, which is json and hashlib, is a
-- parameter. The gas cost of a pack, which the source reads from a text without a test of its sign, is
-- taken not to be negative.
--
-- Not modelled: the reading of a pack into a simulation, and the hash of its state; the session that
-- drives a simulation; the collectors, the datasets, the evaluation, the runners and the service,
-- which are chiefly I/O.
pub mod Prelude
pub mod Domain
pub mod Broker
pub mod Venues
pub mod Engine
pub mod Observations
pub mod Tests
