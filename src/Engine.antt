-- ===== src/Engine.antt =====
-- engine: the block schedules, the tape, the recorded events, the broker and the time loop.
pub mod Blocks
pub mod Tape
pub mod External
pub mod Venue
pub mod Simulation
pub mod Scheduler
pub mod Markets
