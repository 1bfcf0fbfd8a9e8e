-- ===== src/Tests/Stock.antt =====
-- The theorems on the stock and the orders at concrete inputs.
use smart_warehouse_platform.Prelude.{pos, ◌≡◌, refl}
use smart_warehouse_platform.Domain.Result.{ok}
use smart_warehouse_platform.Processor.Handlers.{applied_result}
use smart_warehouse_platform.Processor.Process.{process}
use smart_warehouse_platform.Inventory.Coherence.{IsCoherent}
use smart_warehouse_platform.Inventory.Process.{process-IsConsistent}
use smart_warehouse_platform.Inventory.Refinement.{HasEffect, process-HasEffect}
use smart_warehouse_platform.Inventory.Lifecycle.{OrdersAreKeyed, KeepsOrders, process-KeepsOrders}
use smart_warehouse_platform.Repository.Schema.{Tables}
use smart_warehouse_platform.Tests.Warehouse.{
  memory_session, empty_tables, empty-IsConsistent, after, run, received, ordered, completed,
}

abbrev stocked : Tables
stocked = after received empty_tables

abbrev reserved_tables : Tables
reserved_tables = after ordered stocked

received_applied :
    process memory_session (pos 7) received empty_tables ≡ ok (applied_result, stocked)
unfolding run
received_applied = refl

ordered_applied :
    process memory_session (pos 7) ordered stocked ≡ ok (applied_result, reserved_tables)
unfolding run
ordered_applied = refl

completed_applied :
    process memory_session (pos 7) completed reserved_tables
    ≡ ok (applied_result, after completed reserved_tables)
unfolding run
completed_applied = refl

stocked-IsCoherent : IsCoherent stocked
stocked-IsCoherent =
    (process-IsConsistent memory_session (pos 7) received empty_tables applied_result stocked
      empty-IsConsistent received_applied).coherent

process-HasEffect_example :
    HasEffect memory_session (pos 7) ordered stocked (applied_result, reserved_tables)
process-HasEffect_example =
    process-HasEffect memory_session (pos 7) ordered stocked applied_result reserved_tables
      stocked-IsCoherent ordered_applied

empty-OrdersAreKeyed : OrdersAreKeyed empty_tables
empty-OrdersAreKeyed order_id order found = absurd (cc)

stocked-OrdersAreKeyed : OrdersAreKeyed stocked
stocked-OrdersAreKeyed =
    (process-KeepsOrders memory_session (pos 7) received empty_tables applied_result stocked
      empty-OrdersAreKeyed received_applied).0

reserved-OrdersAreKeyed : OrdersAreKeyed reserved_tables
reserved-OrdersAreKeyed =
    (process-KeepsOrders memory_session (pos 7) ordered stocked applied_result reserved_tables
      stocked-OrdersAreKeyed ordered_applied).0

process-KeepsOrders_example :
    KeepsOrders memory_session
      (pos 7)
      completed
      reserved_tables
      reserved-OrdersAreKeyed
      (applied_result, after completed reserved_tables)
process-KeepsOrders_example =
    process-KeepsOrders memory_session (pos 7) completed reserved_tables applied_result
      (after completed reserved_tables) reserved-OrdersAreKeyed completed_applied
