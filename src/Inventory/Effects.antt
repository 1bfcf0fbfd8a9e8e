-- ===== src/Inventory/Effects.antt =====
-- What an event means for the stock under each key: an abstract description of processor.py, with no
-- tables, totals or checks.
use smart_warehouse_platform.Prelude.{
  String, ℤ, pos, ◌+ℤ◌, ◌-ℤ◌, Bool, false, ◌&&◌, List, [], ◌∷◌, Option, none, some, if◌then◌else◌,
}
use smart_warehouse_platform.Prelude.Eq.{◌==◌, string_eq}
use smart_warehouse_platform.Domain.Value.{Value, int, text, array, Items, nil, cons, Fields, get}
use smart_warehouse_platform.Domain.Models.{
  InventoryKey, OrderItemData, OrderState, EventContext, key_eq,
}
use smart_warehouse_platform.Repository.Schema.{Tables}
use smart_warehouse_platform.Processor.Rows.{item_key}
use smart_warehouse_platform.Inventory.Deltas.{available}
use smart_warehouse_platform.Inventory.Levels.{level}

-- What comes to be available, and what comes to be reserved, under each key.
pub record Effect : Type 0 where
  pub more_available : InventoryKey → ℤ
  pub more_reserved : InventoryKey → ℤ

abbrev pub nothing : InventoryKey → ℤ
nothing k = pos 0

abbrev pub names : Value → String → Bool
names (text s) x = s == x
names _ x = false

abbrev pub amount : Value → ℤ
amount (int n) = n
amount _ = pos 0

-- An amount under the key that the fields of a product and a zone name.
abbrev pub under : Value → Value → ℤ → InventoryKey → ℤ
under product zone n k = if names product k.product_id && names zone k.zone_id then n else pos 0

-- The quantity of a key in the lines of an order, as an event has them and as the order keeps them.
abbrev pub event_lines : Items → InventoryKey → ℤ
event_lines nil k = pos 0
event_lines (cons item items) k =
    under (get "product_id" item) (get "zone_id" item) (amount (get "quantity" item)) k
    +ℤ event_lines items k

abbrev pub event_items : Value → InventoryKey → ℤ
event_items (array items) k = event_lines items k
event_items _ k = pos 0

abbrev pub order_lines : List OrderItemData → InventoryKey → ℤ
order_lines [] k = pos 0
order_lines (item ∷ items) k =
    (if item_key item == k then item.quantity else pos 0) +ℤ order_lines items k

abbrev pub lines_of : Option OrderState → InventoryKey → ℤ
lines_of none k = pos 0
lines_of (some order) k = order_lines order.items k

abbrev pub order_named : Tables → Value → Option OrderState
order_named t (text order_id) = t.orders_by_id order_id
order_named t _ = none

module _ (event : Fields) where
  abbrev quantity : ℤ
  quantity = amount (get "quantity" event)

  abbrev here : ℤ → InventoryKey → ℤ
  here = under (get "product_id" event) (get "zone_id" event)

  abbrev pub received_effect : Effect
  received_effect = record { more_available = here quantity; more_reserved = nothing }

  abbrev pub shipped_effect : Effect
  shipped_effect = record { more_available = here (pos 0 -ℤ quantity); more_reserved = nothing }

  abbrev pub reserved_effect : Effect
  reserved_effect = record {
    more_available = here (pos 0 -ℤ quantity);
    more_reserved = here quantity;
  }

  abbrev pub released_effect : Effect
  released_effect = record {
    more_available = here quantity;
    more_reserved = here (pos 0 -ℤ quantity);
  }

  abbrev pub counted_effect : Tables → Effect
  counted_effect t = record {
    more_available = λ k. here (amount (get "counted_quantity" event) -ℤ level available t k) k;
    more_reserved = nothing;
  }

  abbrev pub moved_effect : Effect
  moved_effect = record {
    more_available = λ k.
        under (get "product_id" event) (get "from_zone_id" event) (pos 0 -ℤ quantity) k
        +ℤ under (get "product_id" event) (get "to_zone_id" event) quantity k;
    more_reserved = nothing;
  }

  abbrev pub created_effect : Effect
  created_effect = record {
    more_available = λ k. pos 0 -ℤ event_items (get "items" event) k;
    more_reserved = event_items (get "items" event);
  }

  abbrev pub completed_effect : Tables → Effect
  completed_effect t = record {
    more_available = nothing;
    more_reserved = λ k. pos 0 -ℤ lines_of (order_named t (get "order_id" event)) k;
  }

abbrev pub effect : EventContext → Tables → Effect
effect context t =
    let type = context.event_type in
    let event = context.event in
    if type == "PRODUCT_RECEIVED"
    then received_effect event
    else if type == "PRODUCT_SHIPPED"
    then shipped_effect event
    else if type == "PRODUCT_MOVED"
    then moved_effect event
    else if type == "PRODUCT_RESERVED"
    then reserved_effect event
    else if type == "PRODUCT_RELEASED"
    then released_effect event
    else if type == "INVENTORY_COUNTED"
    then counted_effect event t
    else if type == "ORDER_CREATED"
    then created_effect event
    else if type == "ORDER_COMPLETED"
    then completed_effect event t
    else record { more_available = nothing; more_reserved = nothing }
