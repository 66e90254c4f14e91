-- ===== src/Tests.antt =====
-- Concrete runs of the definitions and of the theorems.
mod Ledger
mod Cpmm
mod Clmm
mod Market
mod Orders
mod Broker
mod Scheduler
mod Observable
mod Markets
mod Observations
