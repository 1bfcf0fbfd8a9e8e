-- ===== src/Generator/OrderEvents.antt =====
-- `_apply_order_created` and `_apply_order_completed` return an event and keep the stock.
use smart_warehouse_platform.Prelude.{
  String, ℤ, List, [], ◌∷◌, Option, none, some, Dict, lookup, values, AllEntries, AllEntries-map,
  AllEntries-insert, AllEntries-remove, All, ◌≡◌, ◌≢◌, refl, arith, Bool-cases, inl, inr,
}
use smart_warehouse_platform.Prelude.Eq.{◌==◌, string_eq, beq_refl}
use smart_warehouse_platform.Generator.State.{
  SimulatedOrderItem, SimulatedOrder, Simulation, Source,
}
use smart_warehouse_platform.Generator.Logic.{
  Triple, Triple-bind, Triple-look, Triple-change, Triple-weaken, Triple-option,
}
use smart_warehouse_platform.Generator.Chance.{Triple-new_uuid}
use smart_warehouse_platform.Generator.Held.{AreKeyed, IsSteady}
use smart_warehouse_platform.Generator.Apply.{
  first_product, apply_order_created, apply_order_completed,
}
use smart_warehouse_platform.Generator.Shapes.{created-HasShape, completed-HasShape}
use smart_warehouse_platform.Generator.Applied.{EventAndSteady, Triple-event}
use smart_warehouse_platform.Generator.Lines.{AreLines}
use smart_warehouse_platform.Generator.OrderSteps.{reserve_items-IsSteady, complete_items-IsSteady}

-- There is an order with this id.
abbrev pub IsOpen : String → Simulation → Type 0
IsOpen order_id sim = (order : SimulatedOrder) × (lookup order_id sim.open_orders ≡ some order)

found_after :
    (j k : String) (w : SimulatedOrder) (orders : Dict String SimulatedOrder)
    → (order : SimulatedOrder) × (lookup k orders ≡ some order)
    → (order : SimulatedOrder) × (lookup k ((j, w) ∷ orders) ≡ some order)
found_after j k w orders found = elim (Bool-cases (j == k)) [
  | inl e ↦ (w, rw e refl)
  | inr e ↦ (found.0, rw e found.1)
]

-- Every key of a dict is found.
found_keys :
    (orders : Dict String SimulatedOrder)
    → AllEntries (λ k v. (order : SimulatedOrder) × (lookup k orders ≡ some order)) orders
found_keys [] = tt
found_keys ((j, w) ∷ orders) = (
  (w, rw (beq_refl j) refl),
  AllEntries-map orders (λ k v found. found_after j k w orders found) (found_keys orders),
)

values_open :
    (orders rest : Dict String SimulatedOrder)
    → AreKeyed rest
    → AllEntries (λ k v. (order : SimulatedOrder) × (lookup k orders ≡ some order)) rest
    → All (λ o. (order : SimulatedOrder) × (lookup o.order_id orders ≡ some order)) (values rest)
values_open orders [] h found = tt
values_open orders ((k, order) ∷ rest) h found =
    ((found.0.0, rw h.0 found.0.1), values_open orders rest h.1 found.1)

pub IsOpen-values :
    (orders : Dict String SimulatedOrder)
    → AreKeyed orders
    → All (λ o. (order : SimulatedOrder) × (lookup o.order_id orders ≡ some order)) (values orders)
IsOpen-values orders h = values_open orders orders h (found_keys orders)

some_not_none : {o : Option SimulatedOrder} (order : SimulatedOrder) → o ≡ none → o ≡ some order → ⊥
some_not_none order h k = ground arith

module _ (source : Source) (event_time : ℤ) where
  pub apply_order_created-IsSteady :
      (item : SimulatedOrderItem) (items : List SimulatedOrderItem)
      → Triple
          (λ sim. IsSteady sim × AreLines (item ∷ items) sim.inventory)
          (apply_order_created source event_time item items)
          EventAndSteady
  unfolding apply_order_created
  apply_order_created-IsSteady item items =
      Triple-bind (Triple-new_uuid source (λ sim drawn issued h. h)) (λ suffix.
        Triple-bind (reserve_items-IsSteady (item ∷ items)) (λ done.
          Triple-bind
            (Triple-change _ (λ sim h. (
              h.0,
              AllEntries-insert (λ order_id order. order.order_id ≡ order_id) _ _ sim.open_orders
                  refl h.1,
            )))
            (λ done. Triple-event source event_time _ _ (λ i.
              created-HasShape i (source.order_id event_time suffix) (first_product item items)
                event_time (item ∷ items)))))

  pub apply_order_completed-IsSteady :
      (order_id : String)
      → Triple
          (λ sim. IsSteady sim × IsOpen order_id sim)
          (apply_order_completed source event_time order_id)
          EventAndSteady
  unfolding apply_order_completed
  apply_order_completed-IsSteady order_id =
      Triple-bind
        (Triple-look {Q = λ found sim. IsSteady sim × (found ≢ none)} _
          (λ sim h. (h.0, λ missing. some_not_none h.1.0 missing h.1.1)))
        (λ found.
          Triple-option (λ e. record { run = λ sim h. elim (h.1 e) [ ] })
            (λ order e.
              Triple-weaken (λ sim h. h.0)
                (Triple-bind
                  (Triple-change _ (λ sim h. (
                    h.0,
                    AllEntries-remove (λ order_id order. order.order_id ≡ order_id) order_id
                        sim.open_orders h.1,
                  )))
                  (λ done. Triple-bind (complete_items-IsSteady order.items) (λ done.
                    Triple-event source event_time _ _
                      (λ i. completed-HasShape i order_id order.routing_key event_time))))))
