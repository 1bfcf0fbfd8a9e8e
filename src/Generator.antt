-- ===== src/Generator.antt =====
-- wms_service/app/application/generator.py: the synthetic traffic, from the draw of an operation
-- to the record that is published.
pub mod State
pub mod Draws
pub mod Stock
pub mod Apply
pub mod Build
pub mod Pick
pub mod Run
pub mod Logic
pub mod Chance
pub mod Positions
pub mod Held
pub mod ZoneTotals
pub mod Applied
pub mod Lines
pub mod Shapes
pub mod OrderSteps
pub mod OrderEvents
pub mod Picked
pub mod Built
pub mod Received
pub mod Ordered
pub mod Total
pub mod Published
pub mod Machine
pub mod Capacity
pub mod RoundTrip
