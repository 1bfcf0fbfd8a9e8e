-- ===== src/Generator/RoundTrip.antt =====
-- What the consumer reads of a generated event.
use smart_warehouse_platform.Prelude.{
  String, ℤ, pos, ◌≤ℤ◌, false, List, [], ◌∷◌, Option, none, some, Dict, lookup, insert,
  lookup-insert, ◌≡◌, refl, ap, arith,
}
use smart_warehouse_platform.Prelude.Eq.{string_eq, beq_refl}
use smart_warehouse_platform.Domain.Value.{Fields, get, text, array}
use smart_warehouse_platform.Domain.Models.{OrderItemData, EventContext}
use smart_warehouse_platform.Domain.Result.{ok}
use smart_warehouse_platform.Processor.Checks.{require_text, require_positive, is_blank}
use smart_warehouse_platform.Processor.Rows.{normalize_from, normalize_items}
use smart_warehouse_platform.Publisher.{is_private, public_fields}
use smart_warehouse_platform.Worker.{build_context}
use smart_warehouse_platform.Generator.State.{
  SimulatedOrderItem, SimulatedOrder, Simulation, Source,
}
use smart_warehouse_platform.Generator.Stock.{get_position}
use smart_warehouse_platform.Generator.Logic.{
  Post-get, Triple, Triple-bind, Triple-pure, Triple-change,
}
use smart_warehouse_platform.Generator.Chance.{Triple-new_uuid}
use smart_warehouse_platform.Generator.Apply.{item_records, reserve_items, apply_order_created}

-- The worker's context of the event.
abbrev pub IsContext : (Fields → String) → ℤ → ℤ → String → ℤ → Fields → Type 0
IsContext dumps partition offset event_type occurred_at event =
    (context : EventContext) × (build_context dumps (public_fields event) partition offset
      ≡ ok context)
    × (context.event_type ≡ event_type)
    × (context.occurred_at ≡ occurred_at)

-- The consumer asks that a line's ids are not blank and its quantity is positive.
abbrev pub AreReadable : List SimulatedOrderItem → Type 0
AreReadable [] = Unit
AreReadable (item ∷ items) =
    (is_blank item.product_id ≡ false)
    × (is_blank item.zone_id ≡ false)
    × (pos 1 ≤ℤ item.quantity)
    × AreReadable items

abbrev pub read_items : List SimulatedOrderItem → List OrderItemData
read_items [] = []
read_items (item ∷ items) =
    record { product_id = item.product_id; zone_id = item.zone_id; quantity = item.quantity }
    ∷ read_items items

normalize_from-item_records :
    (items : List SimulatedOrderItem)
    → AreReadable items
    → normalize_from (item_records items) ≡ ok (read_items items)
unfolding normalize_from require_text require_positive
normalize_from-item_records [] h = refl
normalize_from-item_records (item ∷ items) h =
    ground (arith, normalize_from-item_records items h.3, h)

normalize_items-item_records :
    (item : SimulatedOrderItem) (items : List SimulatedOrderItem)
    → AreReadable (item ∷ items)
    → normalize_items (array (item_records (item ∷ items))) ≡ ok (read_items (item ∷ items))
unfolding normalize_items
normalize_items-item_records item items h = normalize_from-item_records (item ∷ items) h

abbrev Anything : Simulation → Type 0
Anything sim = Unit

get_position-returns : (p z : String) → Triple Anything (get_position p z) (λ position sim. Unit)
unfolding get_position
get_position-returns p z = record { run = λ sim h. tt }

reserve_items-returns :
    (items : List SimulatedOrderItem) → Triple Anything (reserve_items items) (λ done sim. Unit)
unfolding reserve_items
reserve_items-returns [] = Triple-pure _ (λ sim h. tt)
reserve_items-returns (item ∷ items) =
    Triple-bind (get_position-returns item.product_id item.zone_id)
      (λ got. Triple-bind (Triple-change _ (λ sim h. tt)) (λ done. reserve_items-returns items))

lookup_inserted :
    (order_id : String) (order : SimulatedOrder) (orders : Dict String SimulatedOrder)
    → lookup order_id (insert order_id order orders) ≡ some order
lookup_inserted order_id order orders =
    rw (lookup-insert order_id order_id order orders) (rw (beq_refl order_id) refl)

abbrev items_of : Option SimulatedOrder → Option (List SimulatedOrderItem)
items_of none = none
items_of (some order) = some order.items

-- The lines of an open order.
abbrev pub open_items : String → Simulation → Option (List SimulatedOrderItem)
open_items order_id sim = items_of (lookup order_id sim.open_orders)

-- The consumer reads the lines of the open order.
abbrev pub AgreesWith : SimulatedOrderItem → List SimulatedOrderItem → Fields → Simulation → Type 0
AgreesWith item items event sim =
    (order_id : String) × (get "order_id" (public_fields event) ≡ text order_id)
    × (normalize_items (get "items" (public_fields event)) ≡ ok (read_items (item ∷ items)))
    × (open_items order_id sim ≡ some (item ∷ items))

module _ (dumps : Fields → String) (partition offset : ℤ) (source : Source) (event_time : ℤ)
    (item : SimulatedOrderItem) (items : List SimulatedOrderItem)
    (readable : AreReadable (item ∷ items)) where
  apply_order_created-Triple :
      Triple Anything (apply_order_created source event_time item items) (λ event sim.
        IsContext dumps partition offset "ORDER_CREATED" event_time event
        × AgreesWith item items event sim)
  unfolding apply_order_created public_fields is_private build_context
  apply_order_created-Triple =
      Triple-bind (Triple-new_uuid source (λ sim drawn issued h. h)) (λ suffix.
        Triple-bind (reserve_items-returns (item ∷ items)) (λ done.
          Triple-bind
            (Triple-change
              {Q = λ done sim.
                open_items (source.order_id event_time suffix) sim ≡ some (item ∷ items)}
              _
              (λ sim h.
                ap items_of
                  (lookup_inserted (source.order_id event_time suffix) _ sim.open_orders)))
            (λ done. Triple-bind (Triple-new_uuid source (λ sim drawn issued h. h)) (λ event_id.
              Triple-pure _ (λ sim h. (
                (_, refl, refl, refl),
                (
                  source.order_id event_time suffix,
                  refl,
                  normalize_items-item_records item items readable,
                  h,
                ),
              ))))))

  -- An order whose lines have ids that are not blank and positive quantities is created from any
  -- stock: the worker builds a context with the event's type and time from the published event, and
  -- the consumer reads from it exactly the lines that are kept as the open order of its order id.
  pub apply_order_created-AgreesWith :
      (sim : Simulation)
      → (found : Fields × Simulation) × (apply_order_created source event_time item items sim
          ≡ some found)
        × (IsContext dumps partition offset "ORDER_CREATED" event_time (found.0)
            × AgreesWith item items (found.0) (found.1))
  apply_order_created-AgreesWith sim =
      Post-get
        (λ event sim.
          IsContext dumps partition offset "ORDER_CREATED" event_time event
          × AgreesWith item items event sim)
        (apply_order_created source event_time item items sim)
        (apply_order_created-Triple.run sim tt)
