-- ===== src/Generator/OrderSteps.antt =====
-- The loops over an order's items keep the stock.
use smart_warehouse_platform.Prelude.{String, negsuc, ◌≤ℤ◌, ◌-ℤ◌, List, [], ◌∷◌}
use smart_warehouse_platform.Prelude.Eq.{string_eq}
use smart_warehouse_platform.Generator.State.{SimulatedOrderItem, Inventory}
use smart_warehouse_platform.Generator.Draws.{change}
use smart_warehouse_platform.Generator.Stock.{
  get_position, update_position, position_of, put_position,
}
use smart_warehouse_platform.Generator.Logic.{
  Triple, Triple-bind, Triple-pure, Triple-change, Triple-weaken,
}
use smart_warehouse_platform.Generator.Held.{
  IsSteady, Triple-get_position, Triple-get_this, Triple-update_any, IsSteady-update,
  position_of-IsSound, position_of-refreshed,
}
use smart_warehouse_platform.Generator.Apply.{
  take_order, complete_item, reserve_items, complete_items,
}
use smart_warehouse_platform.Generator.Lines.{
  IsLine, AreLines, CanTake, line-CanTake, reserve_item-IsSteady, reserve_item-CanTake,
}

complete_item-IsSteady :
    (item : SimulatedOrderItem) → Triple IsSteady (change (complete_item item)) (λ done. IsSteady)
complete_item-IsSteady item =
    Triple-update_any item.product_id item.zone_id (take_order item.quantity) (λ position h. h)

pub complete_items-IsSteady :
    (items : List SimulatedOrderItem) → Triple IsSteady (complete_items items) (λ done. IsSteady)
unfolding complete_items
complete_items-IsSteady [] = Triple-pure _ (λ sim h. h)
complete_items-IsSteady (item ∷ items) =
    Triple-bind (Triple-get_this item.product_id item.zone_id) (λ got.
      Triple-weaken (λ sim h. h.0)
        (Triple-bind (complete_item-IsSteady item) (λ done. complete_items-IsSteady items)))

IsLine-refreshed :
    (p z : String) (item : SimulatedOrderItem) (inventory : Inventory)
    → IsLine item inventory
    → IsLine item (put_position p z (position_of p z inventory) inventory)
IsLine-refreshed p z item inventory line =
    rw (position_of-refreshed p z item.product_id item.zone_id inventory) line

AreLines-refreshed :
    (p z : String) (items : List SimulatedOrderItem) (inventory : Inventory)
    → AreLines items inventory
    → AreLines items (put_position p z (position_of p z inventory) inventory)
AreLines-refreshed p z [] inventory h = tt
AreLines-refreshed p z (a ∷ []) inventory h = IsLine-refreshed p z a inventory h
AreLines-refreshed p z (a ∷ b ∷ []) inventory h =
    (IsLine-refreshed p z a inventory h.0, IsLine-refreshed p z b inventory h.1, h.2)
AreLines-refreshed p z (a ∷ b ∷ c ∷ items) inventory h = h

-- Getting a position keeps what the lines need.
Triple-get_lines :
    (p z : String) (items : List SimulatedOrderItem)
    → Triple
        (λ sim. IsSteady sim × AreLines items sim.inventory)
        (get_position p z)
        (λ position sim. IsSteady sim × AreLines items sim.inventory)
unfolding get_position update_position
Triple-get_lines p z items = record {
  run = λ sim h. (
    IsSteady-update p z (λ position. position) sim h.0 (position_of-IsSound p z sim h.0),
    AreLines-refreshed p z items sim.inventory h.1,
  );
}

reserve_one-IsSteady :
    (item : SimulatedOrderItem)
    → Triple (CanTake item) (reserve_items (item ∷ [])) (λ done. IsSteady)
unfolding reserve_items
reserve_one-IsSteady item =
    Triple-bind
      (Triple-get_position item.product_id item.zone_id
        (λ position. negsuc 3 ≤ℤ position.available -ℤ item.quantity) item.product_id item.zone_id)
      (λ got.
        Triple-bind (Triple-change _ (reserve_item-IsSteady item))
          (λ done. Triple-pure _ (λ sim h. h)))

reserve_none-IsSteady : Triple (λ sim. IsSteady sim × Unit) (reserve_items []) (λ done. IsSteady)
unfolding reserve_items
reserve_none-IsSteady = Triple-pure _ (λ sim h. h.0)

reserve_two-IsSteady :
    (a b : SimulatedOrderItem)
    → Triple
        (λ sim. IsSteady sim × AreLines (a ∷ b ∷ []) sim.inventory)
        (reserve_items (a ∷ b ∷ []))
        (λ done. IsSteady)
unfolding reserve_items
reserve_two-IsSteady a b =
    Triple-bind (Triple-get_lines a.product_id a.zone_id (a ∷ b ∷ [])) (λ got.
      Triple-bind (Triple-change _ (λ sim h. reserve_item-CanTake a b sim h.0 h.1))
        (λ done. reserve_one-IsSteady b))

pub reserve_items-IsSteady :
    (items : List SimulatedOrderItem)
    → Triple
        (λ sim. IsSteady sim × AreLines items sim.inventory)
        (reserve_items items)
        (λ done. IsSteady)
reserve_items-IsSteady [] = reserve_none-IsSteady
reserve_items-IsSteady (a ∷ []) =
    Triple-weaken (λ sim h. line-CanTake a sim h.0 h.1) (reserve_one-IsSteady a)
reserve_items-IsSteady (a ∷ b ∷ []) = reserve_two-IsSteady a b
reserve_items-IsSteady (a ∷ b ∷ c ∷ items) = record { run = λ sim h. elim h.1 [ ] }
