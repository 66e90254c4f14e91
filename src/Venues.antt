-- ===== src/Venues.antt =====
-- venues/: the two kinds of pool.
pub mod Cpmm
pub mod Clmm
