-- ===== src/Generator/Ordered.antt =====
-- The orders' `_build_…_event` return an event or `None`, and keep the stock.
use smart_warehouse_platform.Prelude.{
  String, Dict, lookup, ℕ, zero, suc, ◌<◌, ◌≤◌, ℤ, pos, ◌≤ℤ◌, ltb, min_ℤ, Bool, true, List, [], ◌∷◌,
  none, some, length, All, Bool-cases, inl, inr, ◌≡◌, refl, arith, if◌then◌else◌,
}
use smart_warehouse_platform.Prelude.Eq.{string_eq}
use smart_warehouse_platform.Generator.State.{
  SimulatedOrderItem, SimulatedOrder, Inventory, Simulation, Source,
}
use smart_warehouse_platform.Generator.Stock.{Candidate}
use smart_warehouse_platform.Generator.Positions.{IsCandidate}
use smart_warehouse_platform.Generator.Logic.{
  Triple, Triple-bind, Triple-pure, Triple-look, Triple-weaken, Triple-given, Triple-if,
}
use smart_warehouse_platform.Generator.Chance.{Triple-choice, Triple-randint, Triple-chance}
use smart_warehouse_platform.Generator.Held.{IsSteady}
use smart_warehouse_platform.Generator.Lines.{IsLine, AreLines}
use smart_warehouse_platform.Generator.OrderEvents.{
  IsOpen, IsOpen-values, apply_order_created-IsSteady, apply_order_completed-IsSteady,
}
use smart_warehouse_platform.Generator.Picked.{
  At, MaybeEvent, Triple-here, Triple-cases, Triple-returning, pick_inventory_with_available-Given,
}
use smart_warehouse_platform.Generator.Built.{min_range}
use smart_warehouse_platform.Generator.Build.{
  item_beq, add_item, collect_items, create_order, complete_one_of, build_order_created_event,
  build_order_completed_event,
}

add_item-AreLines :
    (item : SimulatedOrderItem) (items : List SimulatedOrderItem) (inventory : Inventory)
    → length items < 2
    → IsLine item inventory
    → AreLines items inventory
    → AreLines (add_item item items) inventory
add_item-AreLines item [] inventory h line lines = line
add_item-AreLines item (a ∷ []) inventory h line lines = elim (Bool-cases (item_beq a item)) [
  | inl e ↦ rw e lines
  | inr e ↦ rw e (lines, line, e)
]
add_item-AreLines item (a ∷ b ∷ items) inventory h line lines = ground arith

room_left :
    (items : List SimulatedOrderItem) (target : ℕ)
    → target ≤ 2
    → ltb (length items) target ≡ true
    → length items < 2
room_left items target h e = ground arith

IsLine-of :
    (c : Candidate) (n : ℤ) (inventory : Inventory)
    → IsCandidate (λ position. position.available) (pos 4) inventory c
    → pos 1 ≤ℤ n
    → n ≤ℤ min_ℤ (pos 5) c.position.available
    → IsLine (record { product_id = c.product_id; zone_id = c.zone_id; quantity = n }) inventory
IsLine-of c n inventory is_candidate h k = rw is_candidate.0 (ground (arith, h, k))

module _ (source : Source) (event_time : ℤ) (inventory : Inventory) where
  abbrev LinesAt : List SimulatedOrderItem → Simulation → Type 0
  LinesAt items sim = At inventory sim × AreLines items inventory

  collect_items-AreLines :
      (attempts target : ℕ) (items : List SimulatedOrderItem)
      → target ≤ 2
      → AreLines items inventory
      → Triple (At inventory) (collect_items source event_time attempts target items) LinesAt
  unfolding collect_items
  collect_items-AreLines zero target items t lines = Triple-pure items (λ sim h. (h, lines))
  collect_items-AreLines (suc attempts) target items t lines =
      Triple-if {b = ltb (length items) target}
        (λ e. Triple-bind (pick_inventory_with_available-Given source inventory (pos 4)) (
          Triple-cases (Triple-pure items (λ sim h. (h, lines))) (λ c is_candidate.
            Triple-bind
              (Triple-randint source (λ sim drawn issued h. h) (pos 1)
                (min_ℤ (pos 5) c.position.available)
                (min_range (pos 4) (pos 5) c.position.available (ground arith) is_candidate.1
                  (ground arith)))
              (λ n.
                Triple-given {H = (pos 1 ≤ℤ n) × (n ≤ℤ min_ℤ (pos 5) c.position.available)}
                  (λ sim h. (h.1, h.2))
                  (λ range.
                    Triple-weaken (λ sim h. h.0)
                      (collect_items-AreLines attempts target
                        (add_item
                          (record { product_id = c.product_id; zone_id = c.zone_id; quantity = n })
                          items)
                        t
                        (add_item-AreLines
                          (record { product_id = c.product_id; zone_id = c.zone_id; quantity = n })
                          items inventory (room_left items target t e)
                          (IsLine-of c n inventory is_candidate range.0 range.1) lines)))))))
        (λ e. Triple-pure items (λ sim h. (h, lines)))

  create_order-IsSteady :
      (items : List SimulatedOrderItem)
      → AreLines items inventory
      → Triple (At inventory) (create_order source event_time items) MaybeEvent
  create_order-IsSteady [] lines = Triple-pure none (λ sim h. h.0)
  create_order-IsSteady (item ∷ items) lines =
      Triple-weaken (λ sim h. (h.0, rw h.1 lines))
        (Triple-returning (apply_order_created-IsSteady source event_time item items))

one_or_two : (one : Bool) → (if one then 1 else 2) ≤ 2
one_or_two one = ground arith

module _ (source : Source) (event_time : ℤ) where
  pub build_order_created_event-IsSteady :
      Triple IsSteady (build_order_created_event source event_time) MaybeEvent
  unfolding build_order_created_event
  build_order_created_event-IsSteady = Triple-here (λ inventory.
      Triple-bind (Triple-chance source (λ sim drawn issued h. h) 72) (λ one.
        Triple-bind
          (collect_items-AreLines source event_time inventory 12 (if one then 1 else 2) []
            (one_or_two one) tt)
          (λ items.
            Triple-given {H = AreLines items inventory} (λ sim h. h.1)
              (λ lines.
                Triple-weaken (λ sim h. h.0)
                  (create_order-IsSteady source event_time inventory items lines)))))

  complete_one_of-IsSteady :
      (open_orders : Dict String SimulatedOrder) (orders : List SimulatedOrder)
      → All (λ o. (order : SimulatedOrder) × (lookup o.order_id open_orders ≡ some order)) orders
      → Triple
          (λ sim. IsSteady sim × (sim.open_orders ≡ open_orders))
          (complete_one_of source event_time orders)
          MaybeEvent
  complete_one_of-IsSteady open_orders [] h = Triple-pure none (λ sim h. h.0)
  complete_one_of-IsSteady open_orders (order ∷ orders) h =
      Triple-bind
        (Triple-choice source (λ sim drawn issued h. h)
          (λ o. (order : SimulatedOrder) × (lookup o.order_id open_orders ≡ some order)) order
          orders h)
        (λ chosen.
          Triple-weaken (λ sim h. (h.0.0, (h.1.0, rw h.0.1 h.1.1)))
            (Triple-returning (apply_order_completed-IsSteady source event_time chosen.order_id)))

  pub build_order_completed_event-IsSteady :
      Triple IsSteady (build_order_completed_event source event_time) MaybeEvent
  unfolding build_order_completed_event
  build_order_completed_event-IsSteady =
      Triple-bind
        (Triple-look {Q = λ orders sim. IsSteady sim × All (λ o. IsOpen o.order_id sim) orders} _
          (λ sim h. (h, IsOpen-values sim.open_orders h.1)))
        (λ orders. record {
          run = λ sim h. (complete_one_of-IsSteady sim.open_orders orders h.1).run sim (h.0, refl);
        })
