-- ===== src/Venues/Cpmm.antt =====
-- venues/cpmm/: the constant-product venue.
pub mod Math
pub mod Pool
