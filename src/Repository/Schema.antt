-- ===== src/Repository/Schema.antt =====
-- The tables of cassandra/migrations as quorum reads show them, and the statements that
-- consumer_service/app/infrastructure/cassandra_repository.py prepares for its batches.
use smart_warehouse_platform.Prelude.{String, ℤ, List, Option}
use smart_warehouse_platform.Domain.Models.{
  Instant, InventoryState, ProductTotalsState, ZoneInfo, OrderState,
}
use smart_warehouse_platform.Domain.Result.{ErrorCode, Message}

pub record ProcessedEvent : Type 0 where
  pub event_id : String
  pub event_type : String
  pub processed_at : Instant
  pub kafka_partition : ℤ
  pub kafka_offset : ℤ
  pub schema_variant : String

pub record HistoryRow : Type 0 where
  -- days since the epoch
  pub event_date : ℤ
  pub processed_at : Instant
  pub event_id : String
  pub event_type : String
  pub outcome : String
  pub error_reason : Option Message
  pub error_code : Option ErrorCode
  pub schema_variant : String
  pub kafka_partition : ℤ
  pub kafka_offset : ℤ
  pub raw_payload : String
  -- none in a row from before migration 003
  pub occurred_at_ms : Option ℤ

-- A table with a clustering column gives each partition's rows in order.
pub record Tables : Type 0 where
  pub zones_by_id : String → Option ZoneInfo
  pub inventory_by_product_zone : String → String → Option InventoryState
  pub inventory_by_product : String → List InventoryState
  pub inventory_by_zone : String → List InventoryState
  pub inventory_totals_by_product : String → Option ProductTotalsState
  pub orders_by_id : String → Option OrderState
  pub processed_events_by_id : String → Option ProcessedEvent
  pub event_history_by_day : ℤ → List HistoryRow

-- The INSERT statements with the values bound to them.
pub data Statement : Type 0 where
  upsert_product_zone upsert_by_product upsert_by_zone : InventoryState → Statement
  upsert_total : ProductTotalsState → Statement
  upsert_order : OrderState → Statement
  insert_processed : ProcessedEvent → Statement
  insert_history : HistoryRow → Statement
