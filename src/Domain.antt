-- ===== src/Domain.antt =====
-- domain/: the vocabularies that the other packages share.
pub mod Status
