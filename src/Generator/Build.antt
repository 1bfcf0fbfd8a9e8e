-- ===== src/Generator/Build.antt =====
-- The `_build_…_event` methods: each picks what to do, or returns `None` if nothing is possible.
use smart_warehouse_platform.Prelude.{
  String, ℕ, zero, suc, ℤ, pos, negsuc, ◌+ℤ◌, ltb_ℤ, ltb, int_beq, min_ℤ, max_ℤ, Bool, false, ◌&&◌,
  ◌||◌, List, [], ◌∷◌, ◌++◌, Option, none, some, length, values, if◌then◌else◌,
}
use smart_warehouse_platform.Prelude.Eq.{◌==◌, string_eq}
use smart_warehouse_platform.Domain.Value.{Fields}
use smart_warehouse_platform.Generator.State.{
  SimulatedOrderItem, SimulatedOrder, Zone, zone_name, zone_capacity, zones, reserved, Source,
}
use smart_warehouse_platform.Generator.Draws.{
  Gen, choice, randint, chance, shuffle, pure, look, ◌>>=◌,
}
use smart_warehouse_platform.Generator.Stock.{
  Candidate, get_position, zone_remaining_capacity, choose_zone_for_receiving,
  pick_inventory_with_available, pick_inventory_with_reserved,
}
use smart_warehouse_platform.Generator.Apply.{
  apply_receive, apply_ship, apply_move, apply_reserve, apply_release, apply_count,
  apply_order_created, apply_order_completed,
}

-- The method that a weight belongs to.
pub data Operation : Type 0 where
  receive shipped move reserve release count order_created order_completed : Operation

-- `return self._apply_…(…)`, from a method that may also return `None`.
abbrev pub returning : Gen Fields → Gen (Option Fields)
returning step = step >>= λ event. pure (some event)

-- `if choice is None: return None`
abbrev pub unless_none {ℓ} :
    {A : Type ℓ} → Gen (Option A) → (A → Gen (Option Fields)) → Gen (Option Fields)
unless_none step next =
    step >>= λ found. elim found [ none ↦ pure none | some chosen ↦ next chosen ]

-- `[zone_id for zone_id in self._zones if zone_id != from_zone_id]`
abbrev pub other_zones : String → List Zone → List Zone
other_zones from_zone_id [] = []
other_zones from_zone_id (zone ∷ rest) =
    let others = other_zones from_zone_id rest in
    if zone_name zone == from_zone_id then others else zone ∷ others

abbrev pub item_beq : SimulatedOrderItem → SimulatedOrderItem → Bool
item_beq a b =
    a.product_id == b.product_id && a.zone_id == b.zone_id && int_beq a.quantity b.quantity

-- `candidate in items`
abbrev pub has_item : SimulatedOrderItem → List SimulatedOrderItem → Bool
has_item item [] = false
has_item item (other ∷ items) = item_beq other item || has_item item items

abbrev pub add_item : SimulatedOrderItem → List SimulatedOrderItem → List SimulatedOrderItem
add_item item items = if has_item item items then items else items ++ item ∷ []

module _ (source : Source) (event_time : ℤ) where
  unfoldable pub build_receive_event : Gen (Option Fields)
  build_receive_event = choice source source.products >>= λ product_id.
      unless_none (look (λ sim. choose_zone_for_receiving sim.inventory)) (λ zone.
        randint source (pos 8) (pos 28) >>= λ wanted.
        look (λ sim. zone_remaining_capacity zone sim.inventory) >>= λ remaining.
        if ltb_ℤ (pos 0) (min_ℤ wanted remaining)
        then (choice source source.suppliers >>= λ supplier_id.
            returning (
              apply_receive source event_time product_id zone (min_ℤ wanted remaining) supplier_id))
        else pure none)

  unfoldable pub build_shipped_event : Gen (Option Fields)
  build_shipped_event = unless_none (pick_inventory_with_available source (pos 8)) (λ chosen.
      randint source (pos 1) (min_ℤ (pos 14) chosen.position.available) >>= λ quantity.
      returning (apply_ship source event_time chosen.product_id chosen.zone_id quantity))

  -- The loop over the shuffled zones.
  unfoldable pub move_to_one_of : Candidate → List Zone → Gen (Option Fields)
  move_to_one_of chosen [] = pure none
  move_to_one_of chosen (zone ∷ rest) =
      look (λ sim. zone_remaining_capacity zone sim.inventory) >>= λ remaining.
      if ltb_ℤ (pos 0) remaining
      then (randint source (pos 4) (pos 20) >>= λ wanted.
          if ltb_ℤ (pos 0) (min_ℤ (min_ℤ wanted chosen.position.available) remaining)
          then returning (
              apply_move source event_time chosen.product_id chosen.zone_id (zone_name zone)
                (min_ℤ (min_ℤ wanted chosen.position.available) remaining))
          else move_to_one_of chosen rest)
      else move_to_one_of chosen rest

  unfoldable pub build_move_event : Gen (Option Fields)
  unfolding move_to_one_of
  build_move_event = unless_none (pick_inventory_with_available source (pos 12)) (λ chosen.
      shuffle source (other_zones chosen.zone_id zones) >>= λ targets.
      move_to_one_of chosen targets)

  unfoldable pub build_reserved_event : Gen (Option Fields)
  build_reserved_event = unless_none (pick_inventory_with_available source (pos 5)) (λ chosen.
      randint source (pos 1) (min_ℤ (pos 8) chosen.position.available) >>= λ quantity.
      returning (apply_reserve source event_time chosen.product_id chosen.zone_id quantity))

  unfoldable pub build_release_event : Gen (Option Fields)
  build_release_event = unless_none (pick_inventory_with_reserved source (pos 2)) (λ chosen.
      randint source (pos 1) (min_ℤ (pos 6) chosen.position.reserved_manual) >>= λ quantity.
      returning (apply_release source event_time chosen.product_id chosen.zone_id quantity))

  unfoldable pub build_count_event : Gen (Option Fields)
  build_count_event = choice source source.products >>= λ product_id.
      choice source zones >>= λ zone. get_position product_id (zone_name zone) >>= λ position.
      randint source (negsuc 9) (pos 12) >>= λ delta.
      if ltb_ℤ (pos (zone_capacity zone))
        (max_ℤ (pos 0) (position.available +ℤ delta) +ℤ reserved position)
      then pure none
      else returning (
          apply_count source event_time product_id (zone_name zone)
            (max_ℤ (pos 0) (position.available +ℤ delta)))

  -- The loop of `_build_order_created_event`, which has so many attempts left.
  unfoldable pub collect_items : ℕ → ℕ → List SimulatedOrderItem → Gen (List SimulatedOrderItem)
  collect_items zero target items = pure items
  collect_items (suc attempts) target items =
      if ltb (length items) target
      then (pick_inventory_with_available source (pos 4) >>= λ found. elim found [
        | none ↦ pure items
        | some chosen ↦
            randint source (pos 1) (min_ℤ (pos 5) chosen.position.available) >>= λ quantity.
            collect_items attempts target (
              add_item
                (record {
                  product_id = chosen.product_id;
                  zone_id = chosen.zone_id;
                  quantity = quantity;
                })
                items)
      ])
      else pure items

  abbrev pub create_order : List SimulatedOrderItem → Gen (Option Fields)
  create_order [] = pure none
  create_order (item ∷ items) = returning (apply_order_created source event_time item items)

  unfoldable pub build_order_created_event : Gen (Option Fields)
  unfolding collect_items
  build_order_created_event = chance source 72 >>= λ one.
      collect_items 12 (if one then 1 else 2) [] >>= λ items. create_order items

  abbrev pub complete_one_of : List SimulatedOrder → Gen (Option Fields)
  complete_one_of [] = pure none
  complete_one_of (order ∷ orders) = choice source (order ∷ orders) >>= λ chosen.
      returning (apply_order_completed source event_time chosen.order_id)

  unfoldable pub build_order_completed_event : Gen (Option Fields)
  build_order_completed_event =
      look (λ sim. values sim.open_orders) >>= λ orders. complete_one_of orders

  -- The call `operation(event_time)`.
  unfoldable pub build : Operation → Gen (Option Fields)
  build receive = build_receive_event
  build shipped = build_shipped_event
  build move = build_move_event
  build reserve = build_reserved_event
  build release = build_release_event
  build count = build_count_event
  build order_created = build_order_created_event
  build order_completed = build_order_completed_event
