-- ===== src/Generator/Received.antt =====
-- `_build_receive_event` and the orders' `_build_…_event` return an event or `None`, and keep the
-- stock.
use smart_warehouse_platform.Prelude.{
  String, ℤ, pos, ◌<ℤ◌, ltb_ℤ, ltb_ℤ→lt, min_ℤ, Bool, List, [], ◌∷◌, none, All, Bool-cases, inl,
  inr, ◌≢◌, arith, if◌then◌else◌,
}
use smart_warehouse_platform.Generator.State.{Zone, zones, Inventory, Simulation, Source}
use smart_warehouse_platform.Generator.Draws.{choice, randint, pure, look, ◌>>=◌}
use smart_warehouse_platform.Generator.Stock.{
  zone_remaining_capacity, open_zones, first_by, head_by, is_preferred, choose_zone_for_receiving,
}
use smart_warehouse_platform.Generator.Logic.{
  Triple, Triple-bind, Triple-pure, Triple-look, Triple-weaken, Triple-if,
}
use smart_warehouse_platform.Generator.Chance.{Triple-choice_any, Triple-randint}
use smart_warehouse_platform.Generator.Held.{IsSteady}
use smart_warehouse_platform.Generator.Applied.{HasRoom, apply_receive-IsSteady}
use smart_warehouse_platform.Generator.Picked.{
  At, Given, MaybeEvent, Triple-here, Triple-returning, Triple-unless_none,
}
use smart_warehouse_platform.Generator.Apply.{apply_receive}
use smart_warehouse_platform.Generator.Build.{returning, build_receive_event}

abbrev IsRoomy : Inventory → Zone → Type 0
IsRoomy inventory zone = pos 0 <ℤ zone_remaining_capacity zone inventory

open_zones-IsRoomy :
    (inventory : Inventory) (rest : List Zone) → All (IsRoomy inventory) (open_zones inventory rest)
unfolding open_zones
open_zones-IsRoomy inventory [] = tt
open_zones-IsRoomy inventory (zone ∷ rest) =
    elim (Bool-cases (ltb_ℤ (pos 0) (zone_remaining_capacity zone inventory))) [
      | inl e ↦ rw e (
        ltb_ℤ→lt (pos 0) (zone_remaining_capacity zone inventory) e,
        open_zones-IsRoomy inventory rest,
      )
      | inr e ↦ rw e (open_zones-IsRoomy inventory rest)
    ]

-- The first of a list by an order is one of its elements.
All-first_by :
    (H : Zone → Type 0) (before : Zone → Zone → Bool) (best : Zone) (rest : List Zone)
    → H best
    → All H rest
    → H (first_by before best rest)
All-first_by H before best [] h hs = h
All-first_by H before best (zone ∷ rest) h hs = elim (Bool-cases (before zone best)) [
  | inl e ↦ rw e (All-first_by H before zone rest hs.0 hs.1)
  | inr e ↦ rw e (All-first_by H before best rest h hs.1)
]

All-head_by :
    (H : Zone → Type 0) (before : Zone → Zone → Bool) (rest : List Zone)
    → All H rest
    → Given H (head_by before rest)
All-head_by H before [] h = tt
All-head_by H before (zone ∷ rest) h = All-first_by H before zone rest h.0 h.1

choose_zone-IsRoomy :
    (inventory : Inventory) → Given (IsRoomy inventory) (choose_zone_for_receiving inventory)
unfolding choose_zone_for_receiving
choose_zone-IsRoomy inventory =
    All-head_by (IsRoomy inventory) (is_preferred inventory) (open_zones inventory zones)
      (open_zones-IsRoomy inventory zones)

room_kept :
    (zone : Zone) (inventory : Inventory) (sim : Simulation)
    → IsRoomy inventory zone
    → At inventory sim
    → HasRoom zone sim
room_kept zone inventory sim roomy at = (at.0, rw at.1 roomy)

zone_here :
    (inventory : Inventory) (sim : Simulation)
    → At inventory sim
    → Given (IsRoomy inventory) (choose_zone_for_receiving sim.inventory)
zone_here inventory sim at = rw at.1 (choose_zone-IsRoomy inventory)

module _ (source : Source) (event_time : ℤ) where
  receive_into :
      (p : String) (zone : Zone) (inventory : Inventory)
      → source.suppliers ≢ []
      → IsRoomy inventory zone
      → Triple
          (At inventory)
          (randint source (pos 8) (pos 28) >>= λ wanted.
            look (λ sim. zone_remaining_capacity zone sim.inventory) >>= λ remaining.
            if ltb_ℤ (pos 0) (min_ℤ wanted remaining)
            then (choice source source.suppliers >>= λ supplier_id.
                returning
                  (apply_receive source event_time p zone (min_ℤ wanted remaining) supplier_id))
            else pure none)
          MaybeEvent
  receive_into p zone inventory suppliers roomy =
      Triple-bind (Triple-randint source (λ sim drawn issued h. h) (pos 8) (pos 28) (ground arith))
        (λ wanted.
          Triple-weaken (λ sim h. h.0)
            (Triple-bind (Triple-look {Q = λ remaining sim. At inventory sim} _ (λ sim h. h))
              (λ remaining.
                Triple-if {b = ltb_ℤ (pos 0) (min_ℤ wanted remaining)}
                  (λ e.
                    Triple-bind
                      (Triple-choice_any source (λ sim drawn issued h. h) source.suppliers
                        suppliers)
                      (λ supplier_id.
                        Triple-weaken (λ sim h. room_kept zone inventory sim roomy h)
                          (Triple-returning (
                            apply_receive-IsSteady source event_time p supplier_id zone
                              (min_ℤ wanted remaining)
                              (ltb_ℤ→lt (pos 0) (min_ℤ wanted remaining) e)))))
                  (λ e. Triple-pure none (λ sim h. h.0)))))

  pub build_receive_event-IsSteady :
      source.products ≢ []
      → source.suppliers ≢ []
      → Triple IsSteady (build_receive_event source event_time) MaybeEvent
  unfolding build_receive_event
  build_receive_event-IsSteady products suppliers =
      Triple-bind (Triple-choice_any source (λ sim drawn issued h. h) source.products products)
        (λ p. Triple-here (λ inventory.
          Triple-unless_none (λ sim h. h.0)
            (Triple-look {Q = λ found sim. At inventory sim × Given (IsRoomy inventory) found} _
              (λ sim h. (h, zone_here inventory sim h)))
            (λ zone roomy. receive_into p zone inventory suppliers roomy)))
