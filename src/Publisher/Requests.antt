-- ===== src/Publisher/Requests.antt =====
-- The request models of wms_service/app/api/schemas.py, with the declared bounds of their texts.
use smart_warehouse_platform.Prelude.{String, ℤ, List, Option}

pub record OrderItemRequest : Type 0 where
  pub product_id : String
  pub zone_id : String
  pub quantity : ℤ

-- The `event_type` of each subclass is the literal that `event_type` below gives it.
pub record BaseEventRequest : Type 0 where
  pub event_id : String
  pub occurred_at : ℤ

pub record ProductReceivedRequest : Type 0 where
  pub base : BaseEventRequest
  pub product_id : String
  pub zone_id : String
  pub quantity : ℤ
  pub supplier_id : Option String
  pub schema_version : String

-- Also `ProductReservedRequest` and `ProductReleasedRequest`, which have the same fields.
pub record ProductShippedRequest : Type 0 where
  pub base : BaseEventRequest
  pub product_id : String
  pub zone_id : String
  pub quantity : ℤ

pub record ProductMovedRequest : Type 0 where
  pub base : BaseEventRequest
  pub product_id : String
  pub from_zone_id : String
  pub to_zone_id : String
  pub quantity : ℤ

pub record InventoryCountedRequest : Type 0 where
  pub base : BaseEventRequest
  pub product_id : String
  pub zone_id : String
  pub counted_quantity : ℤ

pub record OrderCreatedRequest : Type 0 where
  pub base : BaseEventRequest
  pub order_id : String
  pub items : List OrderItemRequest

pub record OrderCompletedRequest : Type 0 where
  pub base : BaseEventRequest
  pub order_id : String

-- The union that `event_type` discriminates.
pub data WarehouseEventRequest : Type 0 where
  product_received : ProductReceivedRequest → WarehouseEventRequest
  product_shipped product_reserved product_released : ProductShippedRequest → WarehouseEventRequest
  product_moved : ProductMovedRequest → WarehouseEventRequest
  inventory_counted : InventoryCountedRequest → WarehouseEventRequest
  order_created : OrderCreatedRequest → WarehouseEventRequest
  order_completed : OrderCompletedRequest → WarehouseEventRequest

abbrev pub event_type : WarehouseEventRequest → String
event_type (product_received r) = "PRODUCT_RECEIVED"
event_type (product_shipped r) = "PRODUCT_SHIPPED"
event_type (product_reserved r) = "PRODUCT_RESERVED"
event_type (product_released r) = "PRODUCT_RELEASED"
event_type (product_moved r) = "PRODUCT_MOVED"
event_type (inventory_counted r) = "INVENTORY_COUNTED"
event_type (order_created r) = "ORDER_CREATED"
event_type (order_completed r) = "ORDER_COMPLETED"

abbrev pub base_of : WarehouseEventRequest → BaseEventRequest
base_of (product_received r) = r.base
base_of (product_shipped r) = r.base
base_of (product_reserved r) = r.base
base_of (product_released r) = r.base
base_of (product_moved r) = r.base
base_of (inventory_counted r) = r.base
base_of (order_created r) = r.base
base_of (order_completed r) = r.base
