-- ===== src/Inventory.antt =====
-- The invariant of the stored inventory, and that processing an event keeps it.
pub mod Coherence
pub mod Changes
pub mod Grouping
pub mod Zones
pub mod Fits
pub mod Deltas
pub mod Totals
pub mod Batch
pub mod Consistency
pub mod Ensures
pub mod Handlers
pub mod Moves
pub mod Items
pub mod OrderRows
pub mod Orders
pub mod Process
pub mod Exact
pub mod Stock
pub mod Settles
pub mod Outcomes
pub mod Levels
pub mod Effects
pub mod Shifts
pub mod RowShifts
pub mod MoveShifts
pub mod OrderLines
pub mod OrderMoves
pub mod OrderShifts
pub mod Refinement
pub mod Lifecycle
