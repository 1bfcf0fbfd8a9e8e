-- ===== src/Tests/Witnesses.antt =====
-- The theorems at concrete inputs that meet their hypotheses.
use smart_warehouse_platform.Prelude.{
  pos, ◌+ℤ◌, ◌≡◌, ◌↔◌, ◌⊎◌, inl, inr, refl, true, List, [], ◌∷◌, arith, keys, union,
}
use smart_warehouse_platform.Prelude.Eq.{string_eq}
use smart_warehouse_platform.Domain.Value.{null}
use smart_warehouse_platform.Domain.Models.{InventoryState, ProductTotalsState, total_quantity}
use smart_warehouse_platform.Domain.Result.{ok}
use smart_warehouse_platform.Repository.{is_event_processed}
use smart_warehouse_platform.Repository.Partition.{sum_by}
use smart_warehouse_platform.Processor.Rows.{rows_by_zone}
use smart_warehouse_platform.Processor.Totals.{build_totals}
use smart_warehouse_platform.Processor.Capacity.{replaced_total, validate_zone_capacities}
use smart_warehouse_platform.Processor.Handlers.{applied_result}
use smart_warehouse_platform.Processor.Process.{process}
use smart_warehouse_platform.Inventory.Coherence.{IsCoherent, put_rows}
use smart_warehouse_platform.Inventory.Changes.{Changes}
use smart_warehouse_platform.Inventory.Consistency.{IsConsistent}
use smart_warehouse_platform.Inventory.Process.{process-IsConsistent}
use smart_warehouse_platform.Inventory.Outcomes.{IsOutcome, process-IsOutcome}
use smart_warehouse_platform.Inventory.Exact.{
  replaced_total-put_rows, validate_zone_capacities_iff, ZonesFit, build_totals-succeeds,
}
use smart_warehouse_platform.Worker.State.{handled}
use smart_warehouse_platform.Worker.{handle_event, handle_messages, finish, commit_message}
use smart_warehouse_platform.Worker.Ends.{IsHandling}
use smart_warehouse_platform.Worker.Handled.{handle_event-IsHandling}
use smart_warehouse_platform.Worker.Recorded.{
  handle_event-commits, handle_messages-once, handle_messages-IsConsistent,
}
use smart_warehouse_platform.Inventory.Stock.{process-KeepsStock}
use smart_warehouse_platform.Inventory.Totals.{stored_available, stored_reserved}
use smart_warehouse_platform.Tests.Warehouse.{
  memory_session, empty_tables, empty-IsConsistent, after, run, received, moved,
}
use smart_warehouse_platform.Tests.Messages.{
  memory_services, empty_world, world_after, dumps, receipt_message, shipment_message,
}

received_applied :
    process memory_session (pos 7) received empty_tables
    ≡ ok (applied_result, after received empty_tables)
unfolding run
received_applied = refl

process-IsConsistent_example : IsConsistent (after received empty_tables)
process-IsConsistent_example =
    process-IsConsistent memory_session (pos 7) received empty_tables applied_result
      (after received empty_tables) empty-IsConsistent received_applied

process-IsOutcome_example :
    IsOutcome memory_session
      (pos 7)
      received
      empty_tables
      applied_result
      (after received empty_tables)
process-IsOutcome_example =
    process-IsOutcome memory_session (pos 7) received empty_tables applied_result
      (after received empty_tables) received_applied

received_handled :
    handle_event memory_services (pos 7) received empty_world
    ≡ (handled applied_result, world_after received empty_world)
unfolding run handle_event finish commit_message
received_handled = refl

handle_event-IsHandling_example :
    IsHandling memory_services
      (pos 7)
      received
      empty_world
      (handle_event memory_services (pos 7) received empty_world)
handle_event-IsHandling_example =
    handle_event-IsHandling memory_services (pos 7) received empty_world

handle_event-commits_example :
    ((world_after received empty_world).commits ≡ [])
    ⊎ (((world_after received empty_world).commits ≡ received.metadata ∷ [])
        × (is_event_processed (world_after received empty_world).tables "e1" ≡ true))
handle_event-commits_example = handle_event-commits memory_services (pos 7) received empty_world

handle_messages-once_example :
    let before =
      handle_messages dumps memory_services
        ((pos 8, shipment_message) ∷ [])
        (world_after received empty_world) in
    let again = (handle_event memory_services (pos 9) received before).1 in
    (again.tables ≡ before.tables) × (again.dlq ≡ before.dlq)
handle_messages-once_example =
    handle_messages-once dumps memory_services (pos 7) received empty_world applied_result
      (world_after received empty_world) ((pos 8, shipment_message) ∷ []) (pos 9) received
      received_handled refl

handle_messages-IsConsistent_example :
    IsConsistent
      (handle_messages dumps memory_services
        ((pos 7, receipt_message) ∷ (pos 8, shipment_message) ∷ [])
        empty_world).tables
handle_messages-IsConsistent_example =
    handle_messages-IsConsistent dumps memory_services
      ((pos 7, receipt_message) ∷ (pos 8, shipment_message) ∷ []) empty_world empty-IsConsistent

-- A first delivery to a zone: the row before it, and the row after it.
abbrev row_before : InventoryState
row_before = record {
  product_id = "SKU-1";
  zone_id = "ZONE-A";
  available_quantity = pos 0;
  reserved_quantity = pos 0;
  last_event_ts = pos 0;
  supplier_id = null;
  updated_at = pos 7;
}

abbrev row_after : InventoryState
row_after = record row_before { available_quantity = pos 5; last_event_ts = pos 100 }

delivery-Changes : Changes empty_tables (row_before ∷ []) (row_after ∷ [])
delivery-Changes = (refl, inr (refl, refl, refl), (omega arith, omega arith), tt, tt)

replaced_total-put_rows_example :
    replaced_total empty_tables
      (rows_by_zone (row_after ∷ []))
      (rows_by_zone (row_before ∷ []))
      "ZONE-A"
    ≡ sum_by total_quantity ((put_rows (row_after ∷ []) empty_tables).inventory_by_zone "ZONE-A")
replaced_total-put_rows_example =
    replaced_total-put_rows empty_tables "ZONE-A" (row_before ∷ []) (row_after ∷ [])
      empty-IsConsistent.coherent delivery-Changes

validate_zone_capacities_iff_example :
    (validate_zone_capacities empty_tables
        (rows_by_zone (row_after ∷ []))
        (rows_by_zone (row_before ∷ []))
      ≡ ok tt)
    ↔ ZonesFit empty_tables
        (λ z. sum_by total_quantity ((put_rows (row_after ∷ []) empty_tables).inventory_by_zone z))
        (union (keys (rows_by_zone (row_after ∷ []))) (keys (rows_by_zone (row_before ∷ []))))
validate_zone_capacities_iff_example =
    validate_zone_capacities_iff empty_tables (row_before ∷ []) (row_after ∷ [])
      empty-IsConsistent.coherent delivery-Changes

build_totals-succeeds_example :
    (totals : List ProductTotalsState) × (build_totals
        (pos 7)
        empty_tables
        (pos 100)
        (row_before ∷ [])
        (row_after ∷ [])
      ≡ ok totals)
build_totals-succeeds_example =
    build_totals-succeeds (pos 7) empty_tables (pos 100) (row_before ∷ []) (row_after ∷ [])
      empty-IsConsistent delivery-Changes

received-IsCoherent : IsCoherent (after received empty_tables)
received-IsCoherent =
    (process-IsConsistent memory_session (pos 7) received empty_tables applied_result
      (after received empty_tables) empty-IsConsistent received_applied).coherent

moved_applied :
    process memory_session (pos 7) moved (after received empty_tables)
    ≡ ok (applied_result, after moved (after received empty_tables))
unfolding run
moved_applied = refl

process-KeepsStock_example :
    stored_available
        ((after moved (after received empty_tables)).inventory_totals_by_product "SKU-1")
      +ℤ stored_reserved
          ((after moved (after received empty_tables)).inventory_totals_by_product "SKU-1")
    ≡ stored_available ((after received empty_tables).inventory_totals_by_product "SKU-1")
      +ℤ stored_reserved ((after received empty_tables).inventory_totals_by_product "SKU-1")
process-KeepsStock_example =
    process-KeepsStock memory_session (pos 7) moved (after received empty_tables) applied_result
      (after moved (after received empty_tables)) received-IsCoherent (inl refl) moved_applied
      "SKU-1"
