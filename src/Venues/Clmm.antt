-- ===== src/Venues/Clmm.antt =====
-- venues/clmm/: the concentrated-liquidity venue. The libraries of math.py have a module each.
pub mod FullMath
pub mod TickMath
pub mod SqrtPriceMath
pub mod SwapMath
pub mod LiquidityMath
pub mod Pool
