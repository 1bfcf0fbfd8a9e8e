-- ===== src/Generator/Apply.antt =====
-- The `_apply_…` methods: each changes the simulated stock and returns the event's record.
use smart_warehouse_platform.Prelude.{
  String, ℤ, pos, ◌+ℤ◌, ◌-ℤ◌, ltb_ℤ, min_ℤ, List, [], ◌∷◌, Option, none, some, lookup, insert,
  remove, if◌then◌else◌,
}
use smart_warehouse_platform.Prelude.Eq.{string_eq}
use smart_warehouse_platform.Domain.Value.{int, text, array, Items, nil, cons, Fields, end, field}
use smart_warehouse_platform.Generator.State.{
  SimulatedInventory, SimulatedOrderItem, Zone, zone_name, Simulation, Source,
}
use smart_warehouse_platform.Generator.Draws.{Gen, new_uuid, pure, raise, look, change, ◌>>=◌, ◌>>◌}
use smart_warehouse_platform.Generator.Stock.{
  update_position, get_position, zone_remaining_capacity,
}

-- `position.available += n`, and so for the other quantities.
abbrev pub add_available : ℤ → SimulatedInventory → SimulatedInventory
add_available n position = record position { available = position.available +ℤ n }

abbrev pub take_available : ℤ → SimulatedInventory → SimulatedInventory
take_available n position = record position { available = position.available -ℤ n }

abbrev pub add_manual : ℤ → SimulatedInventory → SimulatedInventory
add_manual n position = record position { reserved_manual = position.reserved_manual +ℤ n }

abbrev pub take_manual : ℤ → SimulatedInventory → SimulatedInventory
take_manual n position = record position { reserved_manual = position.reserved_manual -ℤ n }

abbrev pub add_order : ℤ → SimulatedInventory → SimulatedInventory
add_order n position = record position { reserved_order = position.reserved_order +ℤ n }

abbrev pub take_order : ℤ → SimulatedInventory → SimulatedInventory
take_order n position = record position { reserved_order = position.reserved_order -ℤ n }

-- `if target.supplier_id is None: target.supplier_id = …`
abbrev pub default_supplier : Option String → SimulatedInventory → SimulatedInventory
default_supplier supplier_id position = elim position.supplier_id [
  | none ↦ record position { supplier_id = supplier_id }
  | some _ ↦ position
]

-- The fields that every record begins with.
abbrev pub event_record : String → String → ℤ → Fields → Fields
event_record event_id event_type occurred_at rest =
    field "event_id" (text event_id)
      (field "event_type" (text event_type) (field "occurred_at" (int occurred_at) rest))

abbrev pub stock_fields : String → String → ℤ → Fields
stock_fields product_id zone_id quantity =
    field "product_id" (text product_id)
      (field "zone_id" (text zone_id) (field "quantity" (int quantity) end))

abbrev pub item_records : List SimulatedOrderItem → Items
item_records [] = nil
item_records (item ∷ items) =
    cons (stock_fields item.product_id item.zone_id item.quantity) (item_records items)

-- The loops over an order's items.
abbrev pub reserve_item : SimulatedOrderItem → Simulation → Simulation
reserve_item item sim =
    update_position item.product_id item.zone_id (add_order item.quantity)
      (update_position item.product_id item.zone_id (take_available item.quantity) sim)

abbrev pub complete_item : SimulatedOrderItem → Simulation → Simulation
complete_item item sim = update_position item.product_id item.zone_id (take_order item.quantity) sim

unfoldable pub reserve_items : List SimulatedOrderItem → Gen (Unit {0})
reserve_items [] = pure tt
reserve_items (item ∷ items) = do
  get_position item.product_id item.zone_id
  change (reserve_item item)
  reserve_items items

unfoldable pub complete_items : List SimulatedOrderItem → Gen (Unit {0})
complete_items [] = pure tt
complete_items (item ∷ items) = do
  get_position item.product_id item.zone_id
  change (complete_item item)
  complete_items items

abbrev pub first_product : SimulatedOrderItem → List SimulatedOrderItem → String
first_product item items = item.product_id

module _ (source : Source) (event_time : ℤ) where
  unfoldable pub apply_receive : String → Zone → ℤ → String → Gen Fields
  apply_receive product_id zone wanted supplier_id = do
    get_position product_id (zone_name zone)
    remaining ← look (λ sim. zone_remaining_capacity zone sim.inventory)
    let quantity = min_ℤ wanted remaining
    if ltb_ℤ (pos 0) quantity
        then (do
          change (update_position product_id (zone_name zone) (add_available quantity))
          change (
              update_position product_id (zone_name zone)
                (λ position. record position { supplier_id = some supplier_id }))
          event_id ← new_uuid source
          pure (
              event_record event_id "PRODUCT_RECEIVED" event_time (
                field "product_id" (text product_id) (
                  field "zone_id" (text (zone_name zone)) (
                    field "quantity" (int quantity)
                      (field "supplier_id" (text supplier_id) end))))))
        else raise

  unfoldable pub apply_ship : String → String → ℤ → Gen Fields
  apply_ship product_id zone_id quantity = do
    get_position product_id zone_id
    change (update_position product_id zone_id (take_available quantity))
    event_id ← new_uuid source
    pure (
        event_record event_id "PRODUCT_SHIPPED" event_time
          (stock_fields product_id zone_id quantity))

  unfoldable pub apply_move : String → String → String → ℤ → Gen Fields
  apply_move product_id from_zone_id to_zone_id quantity = do
    get_position product_id from_zone_id
    get_position product_id to_zone_id
    change (update_position product_id from_zone_id (take_available quantity))
    change (update_position product_id to_zone_id (add_available quantity))
    source_position ← get_position product_id from_zone_id
    change (update_position product_id to_zone_id (default_supplier source_position.supplier_id))
    event_id ← new_uuid source
    pure (
        event_record event_id "PRODUCT_MOVED" event_time (
          field "product_id" (text product_id) (
            field "from_zone_id" (text from_zone_id)
              (field "to_zone_id" (text to_zone_id) (field "quantity" (int quantity) end)))))

  unfoldable pub apply_reserve : String → String → ℤ → Gen Fields
  apply_reserve product_id zone_id quantity = do
    get_position product_id zone_id
    change (update_position product_id zone_id (take_available quantity))
    change (update_position product_id zone_id (add_manual quantity))
    event_id ← new_uuid source
    pure (
        event_record event_id "PRODUCT_RESERVED" event_time
          (stock_fields product_id zone_id quantity))

  unfoldable pub apply_release : String → String → ℤ → Gen Fields
  apply_release product_id zone_id quantity = do
    get_position product_id zone_id
    change (update_position product_id zone_id (take_manual quantity))
    change (update_position product_id zone_id (add_available quantity))
    event_id ← new_uuid source
    pure (
        event_record event_id "PRODUCT_RELEASED" event_time
          (stock_fields product_id zone_id quantity))

  unfoldable pub apply_count : String → String → ℤ → Gen Fields
  apply_count product_id zone_id counted_quantity = do
    get_position product_id zone_id
    change (
        update_position product_id zone_id
          (λ position. record position { available = counted_quantity }))
    event_id ← new_uuid source
    pure (
        event_record event_id "INVENTORY_COUNTED" event_time (
          field "product_id" (text product_id)
            (field "zone_id" (text zone_id) (field "counted_quantity" (int counted_quantity) end))))

  -- The items are not empty: the first is given apart.
  unfoldable pub apply_order_created : SimulatedOrderItem → List SimulatedOrderItem → Gen Fields
  unfolding reserve_items
  apply_order_created item items = do
    suffix ← new_uuid source
    let order_id = source.order_id event_time suffix
    reserve_items (item ∷ items)
    let routing_key = first_product item items
    change (λ sim. record sim {
      open_orders =
          insert order_id
            (record {
              order_id = order_id;
              items = item ∷ items;
              created_at = event_time;
              routing_key = routing_key;
            })
            sim.open_orders;
    })
    event_id ← new_uuid source
    pure (
        event_record event_id "ORDER_CREATED" event_time (
          field "order_id" (text order_id) (
            field "_routing_key" (text routing_key)
              (field "items" (array (item_records (item ∷ items))) end))))

  -- `self._open_orders.pop(order_id)`: a KeyError if the order is not open.
  unfoldable pub apply_order_completed : String → Gen Fields
  unfolding complete_items
  apply_order_completed order_id = do
    found ← look (λ sim. lookup order_id sim.open_orders)
    elim found [
      | none ↦ raise
      | some order ↦ do
        change (λ sim. record sim { open_orders = remove order_id sim.open_orders })
        complete_items order.items
        event_id ← new_uuid source
        pure (
            event_record event_id "ORDER_COMPLETED" event_time (
              field "order_id" (text order_id) (field "_routing_key" (text order.routing_key) end)))
    ]
