-- ===== src/Processor.antt =====
-- consumer_service/app/application/processor.py
pub mod Checks
pub mod Rows
pub mod Totals
pub mod Capacity
pub mod Handlers
pub mod Orders
pub mod Process
