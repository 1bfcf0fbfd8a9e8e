-- ===== src/Generator/Shapes.antt =====
-- The records of the generator against the Avro schemas that `_publish` chooses for them.
use smart_warehouse_platform.Prelude.{String, ℤ, ◌≡◌, refl, Bool, true, ◌&&◌, List, [], ◌∷◌, arith}
use smart_warehouse_platform.Prelude.Eq.{string_eq}
use smart_warehouse_platform.Domain.Value.{
  Value, int, text, array, Items, nil, cons, Fields, end, field, get,
}
use smart_warehouse_platform.Publisher.{public_fields, is_private}
use smart_warehouse_platform.Publisher.Schemas.{
  conforms, schema_named, is_int, is_long, are_records, order_item,
}
use smart_warehouse_platform.Generator.State.{SimulatedOrderItem}
use smart_warehouse_platform.Generator.Apply.{event_record, stock_fields, item_records}
use smart_warehouse_platform.Generator.Run.{schema_of}

-- Whether the numbers of a record fit the types that Avro has for them.
abbrev pub lines_fit : Items → Bool
lines_fit nil = true
lines_fit (cons item items) =
    elim (get "quantity" item) [ int n ↦ is_int n | _ ↦ true ] && lines_fit items

abbrev pub number_fits : Value → Bool
number_fits (int n) = is_int n
number_fits (array items) = lines_fit items
number_fits _ = true

abbrev pub time_fits : Value → Bool
time_fits (int n) = is_long n
time_fits _ = true

abbrev pub record_fits : Fields → Bool
record_fits event =
    time_fits (get "occurred_at" event)
    && number_fits (get "quantity" event)
    && number_fits (get "counted_quantity" event)
    && number_fits (get "items" event)

-- The published record conforms to its schema but for the size of its numbers.
abbrev pub HasShape : Fields → Type 0
HasShape event = conforms (schema_named (schema_of event)) (public_fields event) ≡ record_fits event

module _ (event_id : String) (occurred_at : ℤ) (p z : String) (n : ℤ) where
  pub shipped-HasShape :
      HasShape (event_record event_id "PRODUCT_SHIPPED" occurred_at (stock_fields p z n))
  unfolding schema_of public_fields is_private
  shipped-HasShape = ground arith

  pub reserved-HasShape :
      HasShape (event_record event_id "PRODUCT_RESERVED" occurred_at (stock_fields p z n))
  unfolding schema_of public_fields is_private
  reserved-HasShape = ground arith

  pub released-HasShape :
      HasShape (event_record event_id "PRODUCT_RELEASED" occurred_at (stock_fields p z n))
  unfolding schema_of public_fields is_private
  released-HasShape = ground arith

  pub counted-HasShape : HasShape (
      event_record event_id "INVENTORY_COUNTED" occurred_at (
        field "product_id"
          (text p)
          (field "zone_id" (text z) (field "counted_quantity" (int n) end))))
  unfolding schema_of public_fields is_private
  counted-HasShape = ground arith

  pub received-HasShape :
      (supplier_id : String)
      → HasShape (
          event_record event_id "PRODUCT_RECEIVED" occurred_at (
            field "product_id" (text p) (
              field "zone_id"
                (text z)
                (field "quantity" (int n) (field "supplier_id" (text supplier_id) end)))))
  unfolding schema_of public_fields is_private
  received-HasShape supplier_id = ground arith

  pub moved-HasShape :
      (to_zone_id : String)
      → HasShape (
          event_record event_id "PRODUCT_MOVED" occurred_at (
            field "product_id" (text p) (
              field "from_zone_id"
                (text z)
                (field "to_zone_id" (text to_zone_id) (field "quantity" (int n) end)))))
  unfolding schema_of public_fields is_private
  moved-HasShape to_zone_id = ground arith

are_records-item_records :
    (items : List SimulatedOrderItem)
    → are_records order_item (item_records items) ≡ lines_fit (item_records items)
are_records-item_records [] = refl
are_records-item_records (item ∷ items) = ground (arith, are_records-item_records items)

module _ (event_id order_id routing_key : String) (occurred_at : ℤ) where
  pub created-HasShape :
      (items : List SimulatedOrderItem)
      → HasShape (
          event_record event_id "ORDER_CREATED" occurred_at (
            field "order_id" (text order_id) (
              field "_routing_key"
                (text routing_key)
                (field "items" (array (item_records items)) end))))
  unfolding schema_of public_fields is_private
  created-HasShape items = ground (arith, are_records-item_records items)

  pub completed-HasShape : HasShape (
      event_record event_id "ORDER_COMPLETED" occurred_at
        (field "order_id" (text order_id) (field "_routing_key" (text routing_key) end)))
  unfolding schema_of public_fields is_private
  completed-HasShape = ground arith
