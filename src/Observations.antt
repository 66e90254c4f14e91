-- ===== src/Observations.antt =====
-- observations: what an agent may see of the trades.
pub mod Store
pub mod Candles
