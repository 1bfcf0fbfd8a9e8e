-- ===== src/Publisher/Conforms.antt =====
-- The records of requests against the Avro schemas that they are produced with.
use smart_warehouse_platform.Prelude.{
  String, ◌≡◌, refl, Bool, true, ◌&&◌, List, [], ◌∷◌, Option, none, some, inl, inr, arith,
}
use smart_warehouse_platform.Prelude.Eq.{string_eq}
use smart_warehouse_platform.Publisher.Requests.{
  OrderItemRequest, WarehouseEventRequest, product_received, product_shipped, product_reserved,
  product_released, product_moved, inventory_counted, order_created, order_completed, base_of,
}
use smart_warehouse_platform.Publisher.{text_or_none, to_envelope, dump_items, schema_version_of}
use smart_warehouse_platform.Publisher.RoundTrip.{IsVersion}
use smart_warehouse_platform.Publisher.Schemas.{
  conforms, schema_named, is_int, is_long, are_records, order_item, has_type, optional, string_type,
}

abbrev pub quantities_are_ints : List OrderItemRequest → Bool
quantities_are_ints [] = true
quantities_are_ints (item ∷ items) = is_int item.quantity && quantities_are_ints items

-- The numbers of a request that Avro bounds.
abbrev pub numbers_fit : WarehouseEventRequest → Bool
numbers_fit (product_received r) = is_int r.quantity
numbers_fit (product_shipped r) = is_int r.quantity
numbers_fit (product_reserved r) = is_int r.quantity
numbers_fit (product_released r) = is_int r.quantity
numbers_fit (product_moved r) = is_int r.quantity
numbers_fit (inventory_counted r) = is_int r.counted_quantity
numbers_fit (order_created r) = quantities_are_ints r.items
numbers_fit (order_completed r) = true

has_type-text_or_none :
    (s : Option String) → has_type (optional string_type) (text_or_none s) ≡ true
has_type-text_or_none none = refl
has_type-text_or_none (some s) = refl

are_records-dump_items :
    (items : List OrderItemRequest)
    → are_records order_item (dump_items items) ≡ quantities_are_ints items
are_records-dump_items [] = refl
are_records-dump_items (item ∷ items) = ground (arith, are_records-dump_items items)

-- The record of a request conforms to the Avro schema that it is produced with exactly if its time is
-- a 64-bit integer and its quantities are 32-bit integers.
pub conforms-to_envelope :
    (request : WarehouseEventRequest)
    → IsVersion (schema_version_of request)
    → conforms (schema_named (to_envelope request).schema_version) (to_envelope request).event
      ≡ is_long (base_of request).occurred_at && numbers_fit request
unfolding to_envelope
conforms-to_envelope (product_received r) (inl e) = rw e (ground arith)
conforms-to_envelope (product_received r) (inr e) =
    rw e (rw (has_type-text_or_none r.supplier_id) (ground arith))
conforms-to_envelope (product_shipped r) v = ground arith
conforms-to_envelope (product_reserved r) v = ground arith
conforms-to_envelope (product_released r) v = ground arith
conforms-to_envelope (product_moved r) v = ground arith
conforms-to_envelope (inventory_counted r) v = ground arith
conforms-to_envelope (order_created r) v = ground (arith, are_records-dump_items r.items)
conforms-to_envelope (order_completed r) v = ground arith
