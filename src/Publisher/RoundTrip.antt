-- ===== src/Publisher/RoundTrip.antt =====
-- What the consumer reads of the records that the publisher writes.
use smart_warehouse_platform.Prelude.{
  arith, String, ℤ, pos, ◌≤ℤ◌, ◌≡◌, refl, false, List, [], ◌∷◌, Bool-cases, ◌⊎◌, inl, inr,
}
use smart_warehouse_platform.Prelude.Eq.{◌==◌, string_eq}
use smart_warehouse_platform.Domain.Value.{text, Fields, get}
use smart_warehouse_platform.Domain.Models.{OrderItemData}
use smart_warehouse_platform.Domain.Result.{ok}
use smart_warehouse_platform.Processor.Checks.{is_blank, require_text, require_positive}
use smart_warehouse_platform.Processor.Rows.{normalize_items, normalize_from}
use smart_warehouse_platform.Worker.{build_context}
use smart_warehouse_platform.Publisher.Requests.{
  OrderItemRequest, OrderCreatedRequest, WarehouseEventRequest, product_received, product_shipped,
  product_reserved, product_released, product_moved, inventory_counted, order_created,
  order_completed, event_type, base_of,
}
use smart_warehouse_platform.Publisher.{dump_items, schema_version_of, to_envelope}

-- `Literal["v1", "v2"]`
abbrev pub IsVersion : String → Type 0
IsVersion v = (v ≡ "v1") ⊎ (v ≡ "v2")

-- The worker's context of a published request has the request's id, type and time, and the schema
-- variant that it was published with, if that is `v1` or `v2`.
pub build_context-to_envelope :
    (dumps : Fields → String) (request : WarehouseEventRequest) (partition offset : ℤ)
    → IsVersion (schema_version_of request)
    → build_context dumps (to_envelope request).event partition offset
      ≡ ok (record {
        event = (to_envelope request).event;
        raw_json = dumps (to_envelope request).event;
        event_id = (base_of request).event_id;
        event_type = event_type request;
        occurred_at = (base_of request).occurred_at;
        schema_variant = schema_version_of request;
        metadata = record { partition = partition; offset = offset };
      })
unfolding build_context to_envelope
build_context-to_envelope dumps (product_received r) partition offset (inl e) = rw e refl
build_context-to_envelope dumps (product_received r) partition offset (inr e) = rw e refl
build_context-to_envelope dumps (product_shipped r) partition offset v = refl
build_context-to_envelope dumps (product_reserved r) partition offset v = refl
build_context-to_envelope dumps (product_released r) partition offset v = refl
build_context-to_envelope dumps (product_moved r) partition offset v = refl
build_context-to_envelope dumps (inventory_counted r) partition offset v = refl
build_context-to_envelope dumps (order_created r) partition offset v = refl
build_context-to_envelope dumps (order_completed r) partition offset v = refl

pub event_id-to_envelope :
    (request : WarehouseEventRequest)
    → get "event_id" (to_envelope request).event ≡ text (base_of request).event_id
unfolding to_envelope
event_id-to_envelope (product_received r) = ground arith
event_id-to_envelope (product_shipped r) = refl
event_id-to_envelope (product_reserved r) = refl
event_id-to_envelope (product_released r) = refl
event_id-to_envelope (product_moved r) = refl
event_id-to_envelope (inventory_counted r) = refl
event_id-to_envelope (order_created r) = refl
event_id-to_envelope (order_completed r) = refl

-- The consumer asks that a line's ids are not blank and its quantity is positive.
abbrev pub AreOrderable : List OrderItemRequest → Type 0
AreOrderable [] = Unit
AreOrderable (item ∷ items) =
    (is_blank item.product_id ≡ false)
    × (is_blank item.zone_id ≡ false)
    × (pos 1 ≤ℤ item.quantity)
    × AreOrderable items

abbrev pub order_items : List OrderItemRequest → List OrderItemData
order_items [] = []
order_items (item ∷ items) =
    record { product_id = item.product_id; zone_id = item.zone_id; quantity = item.quantity }
    ∷ order_items items

normalize_from-dump_items :
    (items : List OrderItemRequest)
    → AreOrderable items
    → normalize_from (dump_items items) ≡ ok (order_items items)
unfolding normalize_from require_text require_positive
normalize_from-dump_items [] h = refl
normalize_from-dump_items (item ∷ items) h = ground (arith, normalize_from-dump_items items h.3, h)

-- The consumer reads back the items of a published order, in order, if there are any, all their ids
-- have a character that is no space, and all quantities are positive.
pub normalize_items-to_envelope :
    (r : OrderCreatedRequest) (item : OrderItemRequest) (rest : List OrderItemRequest)
    → r.items ≡ item ∷ rest
    → AreOrderable r.items
    → normalize_items (get "items" (to_envelope (order_created r)).event) ≡ ok (order_items r.items)
unfolding normalize_items to_envelope
normalize_items-to_envelope r item rest e h =
    rw e (normalize_from-dump_items (item ∷ rest) (rw e at h))

-- What a request is about: its product, or its order.
abbrev pub subject_of : WarehouseEventRequest → String
subject_of (product_received r) = r.product_id
subject_of (product_shipped r) = r.product_id
subject_of (product_reserved r) = r.product_id
subject_of (product_released r) = r.product_id
subject_of (product_moved r) = r.product_id
subject_of (inventory_counted r) = r.product_id
subject_of (order_created r) = r.order_id
subject_of (order_completed r) = r.order_id

-- Requests about the same product, or the same order, are produced under the same key: the routing
-- key of a request is that id, if it is not empty.
pub routing_key-to_envelope :
    (request : WarehouseEventRequest)
    → (subject_of request == "") ≡ false
    → (to_envelope request).routing_key ≡ text (subject_of request)
unfolding to_envelope
routing_key-to_envelope (product_received r) h = elim (Bool-cases (r.schema_version == "v1")) [
  | inl e ↦ ground (arith, e, h)
  | inr e ↦ ground (arith, e, h)
]
routing_key-to_envelope (product_shipped r) h = ground (arith, h)
routing_key-to_envelope (product_reserved r) h = ground (arith, h)
routing_key-to_envelope (product_released r) h = ground (arith, h)
routing_key-to_envelope (product_moved r) h = ground (arith, h)
routing_key-to_envelope (inventory_counted r) h = ground (arith, h)
routing_key-to_envelope (order_created r) h = ground (arith, h)
routing_key-to_envelope (order_completed r) h = ground (arith, h)
