-- ===== src/Tests/Warehouse.antt =====
-- A warehouse for the tests, after consumer_service/tests/unit/test_event_processor.py: a session
-- in memory, three zones, and one product.
use smart_warehouse_platform.Prelude.{
  refl, String, ℤ, pos, ◌+ℤ◌, ◌-ℤ◌, ◌≡◌, List, [], Option, none, some, arith, if◌then◌else◌,
}
use smart_warehouse_platform.Prelude.Eq.{◌==◌, string_eq}
use smart_warehouse_platform.Domain.Value.{int, text, array, nil, cons, Fields, end, field}
use smart_warehouse_platform.Domain.Models.{ZoneInfo, EventContext}
use smart_warehouse_platform.Repository.Schema.{Tables, Statement}
use smart_warehouse_platform.Repository.Cql.{Session, run_batch, find_row}
use smart_warehouse_platform.Domain.Result.{Result, ok, ProcessResult}
use smart_warehouse_platform.Repository.{apply_state_change}
use smart_warehouse_platform.Processor.Checks.{
  require_positive, require_non_negative, require_text, is_blank, is_stale,
}
use smart_warehouse_platform.Processor.Rows.{
  get_inventory, normalize_items, group_items, rows_by_zone,
}
use smart_warehouse_platform.Processor.Totals.{build_totals}
use smart_warehouse_platform.Processor.Capacity.{validate_zone_capacities}
use smart_warehouse_platform.Processor.Handlers.{
  process_product_received, process_product_shipped, process_product_moved,
  process_product_reserved, process_product_released, process_inventory_counted,
}
use smart_warehouse_platform.Processor.Orders.{process_order_created, process_order_completed}
use smart_warehouse_platform.Processor.Process.{process}
use smart_warehouse_platform.Inventory.Consistency.{IsConsistent}

-- Every batch succeeds.
abbrev pub memory_execute : Tables → List Statement → Option Tables
memory_execute t batch = some (run_batch batch t)

pub memory_execute_runs :
    (t : Tables) (batch : List Statement) (t' : Tables)
    → memory_execute t batch ≡ some t'
    → t' ≡ run_batch batch t
memory_execute_runs t batch t' h = ground arith

abbrev pub memory_session : Session
memory_session = record { execute = memory_execute; execute_runs = memory_execute_runs }

abbrev pub zone : String → ZoneInfo
zone name = record { zone_id = name; zone_name = name; capacity = pos 1000 }

abbrev pub zones : String → Option ZoneInfo
zones name =
    if name == "ZONE-A"
    then some (zone "ZONE-A")
    else if name == "ZONE-B"
    then some (zone "ZONE-B")
    else none

abbrev pub empty_tables : Tables
empty_tables = record {
  zones_by_id = zones;
  inventory_by_product_zone = λ p z. none;
  inventory_by_product = λ p. [];
  inventory_by_zone = λ z. [];
  inventory_totals_by_product = λ p. none;
  orders_by_id = λ o. none;
  processed_events_by_id = λ i. none;
  event_history_by_day = λ d. [];
}

abbrev pub context : String → String → ℤ → Fields → EventContext
context event_id event_type occurred_at event = record {
  event = event;
  raw_json = "{}";
  event_id = event_id;
  event_type = event_type;
  occurred_at = occurred_at;
  schema_variant = "v2";
  metadata = record { partition = pos 0; offset = pos 1 };
}

abbrev pub received : EventContext
received = context "e1" "PRODUCT_RECEIVED" (pos 100) (
    field "product_id" (text "SKU-1")
      (field "zone_id" (text "ZONE-A") (field "quantity" (int (pos 100)) end)))

abbrev pub shipped : EventContext
shipped = context "e2" "PRODUCT_SHIPPED" (pos 200) (
    field "product_id" (text "SKU-1")
      (field "zone_id" (text "ZONE-A") (field "quantity" (int (pos 30)) end)))

abbrev pub moved : EventContext
moved = context "e3" "PRODUCT_MOVED" (pos 300) (
    field "product_id" (text "SKU-1") (
      field "from_zone_id" (text "ZONE-A")
        (field "to_zone_id" (text "ZONE-B") (field "quantity" (int (pos 9)) end))))

abbrev pub ordered : EventContext
ordered = context "e4" "ORDER_CREATED" (pos 400) (
    field "order_id" (text "ORDER-1") (
      field "items"
        (array (
          cons
            (field "product_id" (text "SKU-1")
              (field "zone_id" (text "ZONE-A") (field "quantity" (int (pos 15)) end)))
            nil))
        end))

abbrev pub completed : EventContext
completed = context "e5" "ORDER_COMPLETED" (pos 500) (field "order_id" (text "ORDER-1") end)

-- `process` in this warehouse. A test that unfolds this sees through all that a run calls.
unfoldable pub run : EventContext → Tables → Result (ProcessResult × Tables)
unfolding process process_product_received process_product_shipped process_product_moved
    process_product_reserved process_product_released process_inventory_counted
    process_order_created process_order_completed require_positive require_non_negative require_text
    is_blank is_stale get_inventory normalize_items group_items rows_by_zone
    validate_zone_capacities build_totals apply_state_change run_batch ◌+ℤ◌ ◌-ℤ◌
run = process memory_session (pos 7)

-- What `process` leaves, at the instant 7.
abbrev pub tables_of : Result (ProcessResult × Tables) → Tables
tables_of (ok r) = r.1
tables_of _ = empty_tables

abbrev pub after : EventContext → Tables → Tables
after c t = tables_of (process memory_session (pos 7) c t)

pub empty-IsConsistent : IsConsistent empty_tables
unfolding find_row
empty-IsConsistent = record {
  coherent = record {
    placed = λ p z r e. absurd (cc);
    stock = λ p z r e. absurd (cc);
    product_view = λ p z. refl;
    zone_view = λ p z. refl;
    product_distinct = λ p. tt;
    zone_distinct = λ z. tt;
  };
  available_total = λ p. refl;
  reserved_total = λ p. refl;
  within_capacity = λ z zone e. ground (arith);
}
