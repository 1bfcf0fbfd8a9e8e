-- ===== src/Generator/Stock.antt =====
-- The simulated stock: `_get_position`, the loads of the zones and the candidates for an operation.
use smart_warehouse_platform.Prelude.{
  String, ℕ, ◌+◌, ◌*◌, ℤ, pos, sub_ℕ, pos_part, neg_part, ◌+ℤ◌, ◌-ℤ◌, ltb_ℤ, int_beq, max_ℤ, Bool,
  true, false, not, ◌&&◌, ◌||◌, List, [], ◌∷◌, ◌++◌, Option, none, some, Dict, lookup, insert,
  if◌then◌else◌,
}
use smart_warehouse_platform.Prelude.Eq.{string_eq}
use smart_warehouse_platform.Processor.Rows.{or_nil}
use smart_warehouse_platform.Generator.State.{
  SimulatedInventory, no_stock, total, Zone, live_a, live_b, live_c, zone_name, zone_capacity,
  zones, Inventory, Simulation,
}
use smart_warehouse_platform.Generator.Draws.{Gen, choice, pure, look, ◌>>=◌}
use smart_warehouse_platform.Generator.State.{Source}

abbrev pub or_empty : Option SimulatedInventory → SimulatedInventory
or_empty none = no_stock
or_empty (some position) = position

-- What `_get_position` returns.
unfoldable pub position_of : String → String → Inventory → SimulatedInventory
position_of product_id zone_id inventory =
    or_empty (lookup zone_id (or_nil (lookup product_id inventory)))

unfoldable pub put_position : String → String → SimulatedInventory → Inventory → Inventory
put_position product_id zone_id position inventory =
    insert product_id (insert zone_id position (or_nil (lookup product_id inventory))) inventory

-- An assignment to a field of a position, which `_get_position` has made sure is there.
unfoldable pub update_position :
    String → String → (SimulatedInventory → SimulatedInventory) → Simulation → Simulation
unfolding position_of put_position
update_position product_id zone_id f sim = record sim {
  inventory =
      put_position product_id zone_id (f (position_of product_id zone_id sim.inventory))
        sim.inventory;
}

-- `_get_position`: a missing position is added without stock.
unfoldable pub get_position : String → String → Gen SimulatedInventory
unfolding update_position
get_position product_id zone_id sim = some (
  position_of product_id zone_id sim.inventory,
  update_position product_id zone_id (λ position. position) sim,
)

-- `zones[zone_id].total if zone_id in zones`, of one product.
abbrev pub total_in : String → Dict String SimulatedInventory → ℤ
total_in zone_id positions = elim (lookup zone_id positions) [
  | none ↦ pos 0
  | some position ↦ total position
]

unfoldable pub zone_total : String → Inventory → ℤ
zone_total zone_id [] = pos 0
zone_total zone_id ((product_id, positions) ∷ inventory) =
    total_in zone_id positions +ℤ zone_total zone_id inventory

unfoldable pub zone_remaining_capacity : Zone → Inventory → ℤ
unfolding zone_total
zone_remaining_capacity zone inventory =
    max_ℤ (pos (zone_capacity zone) -ℤ zone_total (zone_name zone) inventory) (pos 0)

-- n x
abbrev pub times : ℕ → ℤ → ℤ
times n x = sub_ℕ (n * pos_part x) (n * neg_part x)

-- `_global_load_ratio() > hundredths / 100`, and `<`: with a total capacity of 80000 the division
-- of floats is exact enough that the products decide it.
unfoldable pub global_load : List Zone → Inventory → ℤ
unfolding zone_total
global_load [] inventory = pos 0
global_load (zone ∷ rest) inventory =
    zone_total (zone_name zone) inventory +ℤ global_load rest inventory

abbrev pub global_capacity : List Zone → ℕ
global_capacity [] = 0
global_capacity (zone ∷ rest) = zone_capacity zone + global_capacity rest

unfoldable pub is_load_above : ℕ → Inventory → Bool
unfolding global_load
is_load_above hundredths inventory =
    ltb_ℤ (pos (hundredths * global_capacity zones)) (times 100 (global_load zones inventory))

unfoldable pub is_load_below : ℕ → Inventory → Bool
unfolding global_load
is_load_below hundredths inventory =
    ltb_ℤ (times 100 (global_load zones inventory)) (pos (hundredths * global_capacity zones))

-- `zone_id != "ZONE-LIVE-A"`, and the order of `(_zone_load_ratio(zone_id), zone_id != …)`.
abbrev pub is_not_first : Zone → Bool
is_not_first live_a = false
is_not_first live_b = true
is_not_first live_c = true

unfoldable pub is_preferred : Inventory → Zone → Zone → Bool
unfolding zone_total
is_preferred inventory a b =
    let load_a = times (zone_capacity b) (zone_total (zone_name a) inventory) in
    let load_b = times (zone_capacity a) (zone_total (zone_name b) inventory) in
    ltb_ℤ load_a load_b || (int_beq load_a load_b && not (is_not_first a) && is_not_first b)

-- The first of the zones in the sorted order: a later zone replaces an earlier one only if it comes
-- strictly before it.
abbrev pub first_by : (Zone → Zone → Bool) → Zone → List Zone → Zone
first_by before best [] = best
first_by before best (zone ∷ rest) = first_by before (if before zone best then zone else best) rest

unfoldable pub open_zones : Inventory → List Zone → List Zone
unfolding zone_remaining_capacity
open_zones inventory [] = []
open_zones inventory (zone ∷ rest) =
    let others = open_zones inventory rest in
    if ltb_ℤ (pos 0) (zone_remaining_capacity zone inventory) then zone ∷ others else others

abbrev pub head_by : (Zone → Zone → Bool) → List Zone → Option Zone
head_by before [] = none
head_by before (zone ∷ rest) = some (first_by before zone rest)

unfoldable pub choose_zone_for_receiving : Inventory → Option Zone
unfolding open_zones is_preferred
choose_zone_for_receiving inventory = head_by (is_preferred inventory) (open_zones inventory zones)

-- A candidate `(product_id, zone_id, position)`.
pub record Candidate : Type 0 where
  pub product_id : String
  pub zone_id : String
  pub position : SimulatedInventory

-- The two loops of `_pick_inventory_with_available` and `_pick_inventory_with_reserved`.
module _ (quantity : SimulatedInventory → ℤ) (minimum : ℤ) where
  abbrev pub candidates_of : String → Dict String SimulatedInventory → List Candidate
  candidates_of product_id [] = []
  candidates_of product_id ((zone_id, position) ∷ rest) =
      let others = candidates_of product_id rest in
      if ltb_ℤ (quantity position) minimum
      then others
      else record { product_id = product_id; zone_id = zone_id; position = position } ∷ others

  abbrev pub candidates : Inventory → List Candidate
  candidates [] = []
  candidates ((product_id, positions) ∷ rest) =
      candidates_of product_id positions ++ candidates rest

-- `self._rng.choice(candidates)`, if there is one.
abbrev pub choose_candidate : Source → List Candidate → Gen (Option Candidate)
choose_candidate source [] = pure none
choose_candidate source (c ∷ cs) = choice source (c ∷ cs) >>= λ chosen. pure (some chosen)

unfoldable pub pick_inventory_with_available : Source → ℤ → Gen (Option Candidate)
pick_inventory_with_available source minimum =
    look (λ sim. candidates (λ position. position.available) minimum sim.inventory) >>= λ found.
    choose_candidate source found

unfoldable pub pick_inventory_with_reserved : Source → ℤ → Gen (Option Candidate)
pick_inventory_with_reserved source minimum =
    look (λ sim. candidates (λ position. position.reserved_manual) minimum sim.inventory)
    >>= λ found. choose_candidate source found
