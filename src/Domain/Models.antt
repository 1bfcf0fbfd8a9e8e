-- ===== src/Domain/Models.antt =====
-- The dataclasses of consumer_service/app/domain/models.py.
use smart_warehouse_platform.Prelude.{String, ℤ, ◌+ℤ◌, ◌≡◌, ◌↔◌, Bool, ◌&&◌, List, arith}
use smart_warehouse_platform.Prelude.Eq.{Eq, ◌==◌, string_eq}
use text.Mathlib.TextEquality.{eq_iff}
use smart_warehouse_platform.Domain.Value.{Value, Fields}

-- A `datetime`, as its distance from the epoch. Only the clock makes them, and no code compares
-- them.
abbrev pub Instant : Type 0
Instant = ℤ

pub record InventoryKey : Type 0 where
  pub product_id : String
  pub zone_id : String

abbrev key_beq : InventoryKey → InventoryKey → Bool
key_beq a b = a.product_id == b.product_id && a.zone_id == b.zone_id

pub key_beq_iff : (a b : InventoryKey) → (key_beq a b ≡ Bool.true) ↔ (a ≡ b)
key_beq_iff a b = ground (arith, eq_iff a.product_id b.product_id, eq_iff a.zone_id b.zone_id)

instance abbrev pub key_eq : Eq InventoryKey
key_eq = record { beq = key_beq; beq_iff = key_beq_iff }

pub record InventoryState : Type 0 where
  pub product_id : String
  pub zone_id : String
  pub available_quantity : ℤ
  pub reserved_quantity : ℤ
  pub last_event_ts : ℤ
  pub supplier_id : Value
  pub updated_at : Instant

-- `row.total_quantity`
unfoldable pub total_quantity : InventoryState → ℤ
total_quantity row = row.available_quantity +ℤ row.reserved_quantity

-- The tuple `(row.product_id, row.zone_id)`, which is also the row's `InventoryKey`.
abbrev pub composite_key : InventoryState → InventoryKey
composite_key row = record { product_id = row.product_id; zone_id = row.zone_id }

pub record ProductTotalsState : Type 0 where
  pub product_id : String
  pub total_available_quantity : ℤ
  pub total_reserved_quantity : ℤ
  pub last_aggregated_event_ts : ℤ
  pub updated_at : Instant

pub record ZoneInfo : Type 0 where
  pub zone_id : String
  pub zone_name : String
  pub capacity : ℤ

pub record OrderItemData : Type 0 where
  pub product_id : String
  pub zone_id : String
  pub quantity : ℤ

pub record OrderState : Type 0 where
  pub order_id : String
  pub status : String
  pub items : List OrderItemData
  pub created_at : Instant
  pub updated_at : Instant
  pub last_event_ts : ℤ

pub record KafkaMetadata : Type 0 where
  pub partition : ℤ
  pub offset : ℤ

pub record EventContext : Type 0 where
  pub event : Fields
  pub raw_json : String
  pub event_id : String
  pub event_type : String
  pub occurred_at : ℤ
  pub schema_variant : String
  pub metadata : KafkaMetadata
