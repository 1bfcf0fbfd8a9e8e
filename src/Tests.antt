-- ===== src/Tests.antt =====
-- Runs of the processor, and the theorems at concrete inputs.
pub mod Warehouse
pub mod Messages
mod Runs
mod Witnesses
mod Traffic
pub mod Rounds
mod Gates
mod Orders
mod Observed
mod Lag
mod Published
mod Ledger
mod Migrations
mod Stock
mod Schemas
