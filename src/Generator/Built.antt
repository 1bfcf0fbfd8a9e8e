-- ===== src/Generator/Built.antt =====
-- Each `_build_…_event` returns an event or `None`, and keeps the stock.
use smart_warehouse_platform.Prelude.{
  ℤ, pos, negsuc, ◌≤ℤ◌, ltb_ℤ, min_ℤ, max_ℤ, ◌+ℤ◌, true, List, [], ◌∷◌, none, ◌≡◌, ◌≢◌, arith,
}
use smart_warehouse_platform.Prelude.Eq.{string_eq}
use smart_warehouse_platform.Domain.Value.{Fields}
use smart_warehouse_platform.Generator.State.{
  SimulatedInventory, Zone, zone_name, zone_capacity, zones, reserved, Inventory, Source,
}
use smart_warehouse_platform.Generator.Draws.{Gen, randint, ◌>>=◌}
use smart_warehouse_platform.Generator.Stock.{Candidate, position_of}
use smart_warehouse_platform.Generator.Positions.{IsCandidate}
use smart_warehouse_platform.Generator.Logic.{
  Triple, Triple-bind, Triple-pure, Triple-look, Triple-weaken, Triple-given, Triple-if,
}
use smart_warehouse_platform.Generator.Chance.{Triple-choice_any, Triple-randint, Triple-shuffle}
use smart_warehouse_platform.Generator.Held.{IsSteady, Holds, Triple-get_this}
use smart_warehouse_platform.Generator.Applied.{
  EventAndSteady, HasAvailable, apply_ship-IsSteady, apply_reserve-IsSteady, apply_release-IsSteady,
  apply_count-IsSteady, apply_move-IsSteady,
}
use smart_warehouse_platform.Generator.Picked.{
  At, At-Holds, MaybeEvent, Triple-here, Triple-returning, Triple-unless_none,
  pick_inventory_with_available-Given, pick_inventory_with_reserved-Given,
}
use smart_warehouse_platform.Generator.Apply.{apply_ship, apply_reserve, apply_release}
use smart_warehouse_platform.Generator.Build.{
  returning, build_shipped_event, build_reserved_event, build_release_event, build_count_event,
  build_move_event, move_to_one_of, other_zones,
}

-- `min(m, n)` for a positive `m`, where `n` is enough.
pub min_range :
    (least most n : ℤ) → pos 1 ≤ℤ least → least ≤ℤ n → pos 1 ≤ℤ most → pos 1 ≤ℤ min_ℤ most n
min_range least most n h k m = ground arith

pub below_min : (q most n : ℤ) → q ≤ℤ min_ℤ most n → q ≤ℤ n
below_min q most n h = ground arith

from_one : (q : ℤ) → pos 1 ≤ℤ q → pos 0 ≤ℤ q
from_one q h = ground arith

module _ (source : Source) (event_time : ℤ) where
  -- `randint(1, min(most, n))` of the candidate's quantity.
  take_some :
      (quantity : SimulatedInventory → ℤ) (least most : ℤ) (inventory : Inventory) (c : Candidate)
      (apply : ℤ → Gen Fields)
      → pos 1 ≤ℤ least
      → pos 1 ≤ℤ most
      → IsCandidate quantity least inventory c
      → ((n : ℤ)
          → pos 0 ≤ℤ n
          → Triple
              (Holds (λ position. n ≤ℤ quantity position) c.product_id c.zone_id)
              (apply n)
              EventAndSteady)
      → Triple
          (At inventory)
          (randint source (pos 1) (min_ℤ most (quantity c.position)) >>= λ n. returning (apply n))
          MaybeEvent
  take_some quantity least most inventory c apply l m is_candidate h =
      Triple-bind
        (Triple-randint source (λ sim drawn issued p. p) (pos 1) (min_ℤ most (quantity c.position))
          (min_range least most (quantity c.position) l is_candidate.1 m))
        (λ n.
          Triple-given {H = (pos 1 ≤ℤ n) × (n ≤ℤ min_ℤ most (quantity c.position))}
            (λ sim p. (p.1, p.2))
            (λ range.
              Triple-weaken
                (λ sim p.
                  At-Holds (λ position. n ≤ℤ quantity position) c inventory sim is_candidate.0
                    (below_min n most (quantity c.position) range.1) p.0)
                (Triple-returning (h n (from_one n range.0)))))

  pub build_shipped_event-IsSteady :
      Triple IsSteady (build_shipped_event source event_time) MaybeEvent
  unfolding build_shipped_event
  build_shipped_event-IsSteady = Triple-here (λ inventory.
      Triple-unless_none (λ sim h. h.0)
        (pick_inventory_with_available-Given source inventory (pos 8))
        (λ c is_candidate.
          take_some (λ position. position.available) (pos 8) (pos 14) inventory c
            (apply_ship source event_time c.product_id c.zone_id) (ground arith) (ground arith)
            is_candidate (λ n n≥0. apply_ship-IsSteady source event_time c.product_id c.zone_id n)))

  pub build_reserved_event-IsSteady :
      Triple IsSteady (build_reserved_event source event_time) MaybeEvent
  unfolding build_reserved_event
  build_reserved_event-IsSteady = Triple-here (λ inventory.
      Triple-unless_none (λ sim h. h.0)
        (pick_inventory_with_available-Given source inventory (pos 5))
        (λ c is_candidate.
          take_some (λ position. position.available) (pos 5) (pos 8) inventory c
            (apply_reserve source event_time c.product_id c.zone_id) (ground arith) (ground arith)
            is_candidate (apply_reserve-IsSteady source event_time c.product_id c.zone_id)))

  pub build_release_event-IsSteady :
      Triple IsSteady (build_release_event source event_time) MaybeEvent
  unfolding build_release_event
  build_release_event-IsSteady = Triple-here (λ inventory.
      Triple-unless_none (λ sim h. h.0)
        (pick_inventory_with_reserved-Given source inventory (pos 2))
        (λ c is_candidate.
          take_some (λ position. position.reserved_manual) (pos 2) (pos 6) inventory c
            (apply_release source event_time c.product_id c.zone_id) (ground arith) (ground arith)
            is_candidate (apply_release-IsSteady source event_time c.product_id c.zone_id)))

  counted_not_negative : (n : ℤ) → pos 0 ≤ℤ max_ℤ (pos 0) n
  counted_not_negative n = ground arith

  zones_lem : zones ≢ []
  zones_lem h = ground arith

  -- There is a product to count.
  pub build_count_event-IsSteady :
      source.products ≢ [] → Triple IsSteady (build_count_event source event_time) MaybeEvent
  unfolding build_count_event
  build_count_event-IsSteady products =
      Triple-bind (Triple-choice_any source (λ sim drawn issued h. h) source.products products)
        (λ product_id.
          Triple-bind (Triple-choice_any source (λ sim drawn issued h. h) zones zones_lem) (λ zone.
            (Triple-bind (Triple-get_this product_id (zone_name zone)) (λ position.
              Triple-weaken (λ sim h. h.0)
                (Triple-bind
                  (Triple-randint source (λ sim drawn issued h. h) (negsuc 9) (pos 12)
                    (ground arith))
                  (λ delta.
                    Triple-weaken (λ sim h. h.0)
                      (Triple-if
                        {b = ltb_ℤ (pos (zone_capacity zone))
                          (max_ℤ (pos 0) (position.available +ℤ delta) +ℤ reserved position)}
                        (λ e. Triple-pure none (λ sim h. h))
                        (λ e. Triple-returning (
                          apply_count-IsSteady source event_time product_id (zone_name zone)
                            (max_ℤ (pos 0) (position.available +ℤ delta))
                            (counted_not_negative (position.available +ℤ delta)))))))))))

both_min :
    (a b c : ℤ)
    → ltb_ℤ (pos 0) (min_ℤ (min_ℤ a b) c) ≡ true
    → (pos 0 ≤ℤ min_ℤ (min_ℤ a b) c) × (min_ℤ (min_ℤ a b) c ≤ℤ b)
both_min a b c h = ground arith

module _ (source : Source) (event_time : ℤ) (inventory : Inventory) (c : Candidate) where
  pub move_to_one_of-IsSteady :
      position_of c.product_id c.zone_id inventory ≡ c.position
      → (targets : List Zone)
      → Triple (At inventory) (move_to_one_of source event_time c targets) MaybeEvent
  unfolding move_to_one_of
  move_to_one_of-IsSteady same [] = Triple-pure none (λ sim h. h.0)
  move_to_one_of-IsSteady same (zone ∷ rest) =
      Triple-bind (Triple-look {Q = λ remaining sim. At inventory sim} _ (λ sim h. h)) (λ remaining.
        Triple-if {b = ltb_ℤ (pos 0) remaining}
          (λ e.
            Triple-bind
              (Triple-randint source (λ sim drawn issued h. h) (pos 4) (pos 20) (ground arith))
              (λ wanted.
                Triple-weaken (λ sim h. h.0)
                  (Triple-if
                    {b = ltb_ℤ (pos 0) (min_ℤ (min_ℤ wanted c.position.available) remaining)}
                    (λ e.
                      Triple-weaken
                        (λ sim.
                          At-Holds
                            (HasAvailable (min_ℤ (min_ℤ wanted c.position.available) remaining)) c
                            inventory sim same (both_min wanted c.position.available remaining e).1)
                        (Triple-returning (
                          apply_move-IsSteady source event_time c.product_id c.zone_id
                            (zone_name zone) (min_ℤ (min_ℤ wanted c.position.available) remaining)
                            (both_min wanted c.position.available remaining e).0)))
                    (λ e. move_to_one_of-IsSteady same rest))))
          (λ e. move_to_one_of-IsSteady same rest))

module _ (source : Source) (event_time : ℤ) where
  pub build_move_event-IsSteady : Triple IsSteady (build_move_event source event_time) MaybeEvent
  unfolding build_move_event
  build_move_event-IsSteady = Triple-here (λ inventory.
      Triple-unless_none (λ sim h. h.0)
        (pick_inventory_with_available-Given source inventory (pos 12))
        (λ c is_candidate.
          Triple-bind
            (Triple-shuffle source (λ sim drawn issued h. h) (other_zones c.zone_id zones))
            (λ targets.
              move_to_one_of-IsSteady source event_time inventory c is_candidate.0 targets)))
