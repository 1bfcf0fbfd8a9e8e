-- ===== src/Repository.antt =====
-- consumer_service/app/infrastructure/cassandra_repository.py: the reads, and the one write.
pub mod Schema
pub mod Open
pub mod Cql
pub mod Partition
use smart_warehouse_platform.Prelude.{
  String, ℤ, floor_div, Bool, true, false, List, [], ◌∷◌, ◌++◌, map, Option, none, some,
}
use smart_warehouse_platform.Domain.Models.{
  Instant, InventoryKey, InventoryState, ProductTotalsState, ZoneInfo, OrderState, EventContext,
}
use smart_warehouse_platform.Domain.Result.{ErrorCode, Message, Result, ok, crashed}
use smart_warehouse_platform.Repository.Schema.{
  Tables, Statement, ProcessedEvent, HistoryRow, upsert_product_zone, upsert_by_product,
  upsert_by_zone, upsert_total, upsert_order, insert_processed, insert_history,
}
use smart_warehouse_platform.Repository.Cql.{Session}

abbrev pub get_zone : Tables → String → Option ZoneInfo
get_zone t zone_id = t.zones_by_id zone_id

abbrev pub get_inventory : Tables → InventoryKey → Option InventoryState
get_inventory t key = t.inventory_by_product_zone key.product_id key.zone_id

abbrev pub get_zone_inventory : Tables → String → List InventoryState
get_zone_inventory t zone_id = t.inventory_by_zone zone_id

abbrev pub get_product_total : Tables → String → Option ProductTotalsState
get_product_total t product_id = t.inventory_totals_by_product product_id

abbrev pub get_order : Tables → String → Option OrderState
get_order t order_id = t.orders_by_id order_id

abbrev pub is_event_processed : Tables → String → Bool
is_event_processed t event_id = elim (t.processed_events_by_id event_id) [
  | none ↦ false
  | some _ ↦ true
]

abbrev pub get_event_history_for_date : Tables → ℤ → List HistoryRow
get_event_history_for_date t target_date = t.event_history_by_day target_date

-- `datetime.fromtimestamp(ms / 1000, UTC).date()`, in days since the epoch.
abbrev pub date_of_ms : ℤ → ℤ
date_of_ms ms = floor_div ms 86_400_000

unfoldable pub row_statements : List InventoryState → List Statement
row_statements [] = []
row_statements (row ∷ rows) =
    upsert_product_zone row ∷ upsert_by_product row ∷ upsert_by_zone row ∷ row_statements rows

unfoldable pub order_statements : Option OrderState → List Statement
order_statements none = []
order_statements (some order) = upsert_order order ∷ []

unfoldable pub processed_row : EventContext → Instant → ProcessedEvent
processed_row context processed_at = record {
  event_id = context.event_id;
  event_type = context.event_type;
  processed_at = processed_at;
  kafka_partition = context.metadata.partition;
  kafka_offset = context.metadata.offset;
  schema_variant = context.schema_variant;
}

unfoldable pub history_row :
    EventContext → Instant → String → Option ErrorCode → Option Message → HistoryRow
history_row context processed_at outcome error_code error_reason = record {
  event_date = date_of_ms context.occurred_at;
  processed_at = processed_at;
  event_id = context.event_id;
  event_type = context.event_type;
  outcome = outcome;
  error_reason = error_reason;
  error_code = error_code;
  schema_variant = context.schema_variant;
  kafka_partition = context.metadata.partition;
  kafka_offset = context.metadata.offset;
  raw_payload = context.raw_json;
  occurred_at_ms = some context.occurred_at;
}

-- The statements that `apply_state_change` adds to its batch, in order.
unfoldable pub change_batch :
    List InventoryState
    → List ProductTotalsState
    → Option OrderState
    → EventContext
    → Instant
    → String
    → Option ErrorCode
    → Option Message
    → List Statement
unfolding row_statements order_statements processed_row history_row
change_batch rows totals order context processed_at outcome error_code error_reason =
    row_statements rows
    ++ (map upsert_total totals
        ++ (order_statements order
            ++ (insert_processed (processed_row context processed_at)
                ∷ insert_history (history_row context processed_at outcome error_code error_reason)
                ∷ [])))

abbrev pub or_crash {ℓ} : {A : Type ℓ} → Option A → Result A
or_crash none = crashed
or_crash (some a) = ok a

unfoldable pub apply_state_change :
    Session
    → Instant
    → List InventoryState
    → List ProductTotalsState
    → Option OrderState
    → EventContext
    → String
    → Option ErrorCode
    → Option Message
    → Tables
    → Result Tables
unfolding change_batch
apply_state_change session now rows totals order context outcome error_code error_reason t =
    or_crash (
      session.execute t
        (change_batch rows totals order context now outcome error_code error_reason))
