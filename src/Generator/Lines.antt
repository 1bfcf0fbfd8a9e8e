-- ===== src/Generator/Lines.antt =====
-- The lines of an order that is created: at most two, each of at most five pieces.
use smart_warehouse_platform.Prelude.{
  String, ℤ, pos, negsuc, ◌≤ℤ◌, ◌-ℤ◌, -ℤ_parts, int_beq, true, false, ◌&&◌, List, [], ◌∷◌,
  Bool-cases, inl, inr, ◌≡◌, refl, arith, if◌then◌else◌,
}
use smart_warehouse_platform.Prelude.Eq.{◌==◌, string_eq, beq_refl, eq_of_beq}
use smart_warehouse_platform.Generator.State.{SimulatedOrderItem, Inventory, Simulation}
use smart_warehouse_platform.Generator.Stock.{update_position, position_of}
use smart_warehouse_platform.Generator.Held.{
  IsSteady, Holds, IsSteady-update, both_true, position_of-update_position, position_of-IsSound,
}
use smart_warehouse_platform.Generator.Apply.{take_available, add_order, reserve_item}
use smart_warehouse_platform.Generator.Build.{item_beq}

-- A line of an order asks for 1 to 5 of the pieces available.
abbrev pub IsLine : SimulatedOrderItem → Inventory → Type 0
IsLine item inventory =
    (pos 1 ≤ℤ item.quantity)
    × (item.quantity ≤ℤ pos 5)
    × (item.quantity ≤ℤ (position_of item.product_id item.zone_id inventory).available)

-- The lines that `_build_order_created_event` collects: at most two, and not the same.
abbrev pub AreLines : List SimulatedOrderItem → Inventory → Type 0
AreLines [] inventory = Unit
AreLines (a ∷ []) inventory = IsLine a inventory
AreLines (a ∷ b ∷ []) inventory = IsLine a inventory × IsLine b inventory × (item_beq a b ≡ false)
AreLines (a ∷ b ∷ c ∷ items) inventory = ⊥

-- Taking the line leaves no less than -4.
abbrev pub CanTake : SimulatedOrderItem → Simulation → Type 0
CanTake item =
    Holds (λ position. negsuc 3 ≤ℤ position.available -ℤ item.quantity) item.product_id item.zone_id

pub reserve_item-IsSteady :
    (item : SimulatedOrderItem) (sim : Simulation)
    → CanTake item sim
    → IsSteady (reserve_item item sim)
reserve_item-IsSteady item sim h =
    let p = item.product_id in
    let z = item.zone_id in
    let taken =
      IsSteady-update p z (take_available item.quantity) sim h.0
        (h.1, (position_of-IsSound p z sim h.0).1) in
    let sim' = update_position p z (take_available item.quantity) sim in
    IsSteady-update p z (add_order item.quantity) sim' taken (position_of-IsSound p z sim' taken)

reserve_item-available :
    (item : SimulatedOrderItem) (p z : String) (sim : Simulation)
    → (position_of p z (reserve_item item sim).inventory).available ≡ (
        if item.product_id == p && item.zone_id == z
        then (position_of item.product_id item.zone_id sim.inventory).available -ℤ item.quantity
        else (position_of p z sim.inventory).available)
reserve_item-available item p z sim =
    let p' = item.product_id in
    let z' = item.zone_id in
    let sim' = update_position p' z' (take_available item.quantity) sim in
    rw (position_of-update_position p' z' p z (add_order item.quantity) sim') (
      rw (position_of-update_position p' z' p z (take_available item.quantity) sim) (
        rw (position_of-update_position p' z' p' z' (take_available item.quantity) sim) (
          rw (beq_refl p') (
            rw (beq_refl z')
              (elim (Bool-cases (p' == p && z' == z)) [ inl e ↦ rw e refl | inr e ↦ rw e refl ])))))

pub line-CanTake :
    (item : SimulatedOrderItem) (sim : Simulation)
    → IsSteady sim
    → IsLine item sim.inventory
    → CanTake item sim
line-CanTake item sim h line = (
  h,
  ground (
    arith,
    line,
    -ℤ_parts (position_of item.product_id item.zone_id sim.inventory).available item.quantity,
  ),
)

-- Of two different numbers up to 5, the smaller is at most 4.
two_taken :
    (n a b : ℤ)
    → pos 1 ≤ℤ a
    → a ≤ℤ pos 5
    → a ≤ℤ n
    → pos 1 ≤ℤ b
    → b ≤ℤ pos 5
    → b ≤ℤ n
    → int_beq a b ≡ false
    → negsuc 3 ≤ℤ n -ℤ a -ℤ b
two_taken n a b h1 h2 h3 k1 k2 k3 ne = ground (arith, -ℤ_parts n a, -ℤ_parts (n -ℤ a) b)

same_position :
    (a b : SimulatedOrderItem) (inventory : Inventory)
    → (a.product_id == b.product_id && a.zone_id == b.zone_id) ≡ true
    → position_of a.product_id a.zone_id inventory ≡ position_of b.product_id b.zone_id inventory
same_position a b inventory e =
    let same = both_true (a.product_id == b.product_id) (a.zone_id == b.zone_id) e in
    let same_p = eq_of_beq a.product_id b.product_id same.0 in
    let same_z = eq_of_beq a.zone_id b.zone_id same.1 in rw same_p (rw same_z refl)

differ :
    (a b : SimulatedOrderItem)
    → (a.product_id == b.product_id && a.zone_id == b.zone_id) ≡ true
    → item_beq a b ≡ false
    → int_beq a.quantity b.quantity ≡ false
differ a b e ne = ground (arith, e, ne)

taken_both :
    (a b : SimulatedOrderItem) (inventory : Inventory)
    → AreLines (a ∷ b ∷ []) inventory
    → negsuc 3
      ≤ℤ (if a.product_id == b.product_id && a.zone_id == b.zone_id
          then (position_of a.product_id a.zone_id inventory).available -ℤ a.quantity
          else (position_of b.product_id b.zone_id inventory).available)
        -ℤ b.quantity
taken_both a b inventory lines =
    elim (Bool-cases (a.product_id == b.product_id && a.zone_id == b.zone_id)) [
      | inr e ↦ rw e (
          ground (
            arith,
            lines.1,
            -ℤ_parts (position_of b.product_id b.zone_id inventory).available b.quantity,
          ))
      | inl e ↦ rw e (
          two_taken (position_of a.product_id a.zone_id inventory).available a.quantity b.quantity
            lines.0.0 lines.0.1 lines.0.2 lines.1.0 lines.1.1
            (rw (same_position a b inventory e) lines.1.2) (differ a b e lines.2))
    ]

-- The second line can be taken after the first.
pub reserve_item-CanTake :
    (a b : SimulatedOrderItem) (sim : Simulation)
    → IsSteady sim
    → AreLines (a ∷ b ∷ []) sim.inventory
    → CanTake b (reserve_item a sim)
reserve_item-CanTake a b sim h lines = (
  reserve_item-IsSteady a sim (line-CanTake a sim h lines.0),
  rw (reserve_item-available a b.product_id b.zone_id sim) (taken_both a b sim.inventory lines),
)
