-- ===== src/Broker.antt =====
-- broker/: the ledger and the order records.
pub mod Ledger
pub mod Orders
