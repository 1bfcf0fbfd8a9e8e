-- ===== src/Generator/Held.antt =====
-- What a step on one position keeps of the stock.
use smart_warehouse_platform.Prelude.{
  String, ℤ, pos, negsuc, ◌≤ℤ◌, +ℤ_parts, -ℤ_parts, Bool, true, ◌&&◌, Option, Dict, AllEntries, ◌≡◌,
  refl, Bool-cases, inl, inr, arith, if◌then◌else◌,
}
use smart_warehouse_platform.Prelude.Eq.{◌==◌, beq_refl, eq_of_beq, string_eq}
use smart_warehouse_platform.Generator.State.{
  SimulatedInventory, SimulatedOrder, no_stock, Inventory, Simulation,
}
use smart_warehouse_platform.Generator.Draws.{change}
use smart_warehouse_platform.Generator.Stock.{
  position_of, put_position, update_position, get_position,
}
use smart_warehouse_platform.Generator.Positions.{
  AreAll, position_of-put_position, position_of-AreAll, put_position-AreAll,
}
use smart_warehouse_platform.Generator.Logic.{Triple, Triple-change}
use smart_warehouse_platform.Generator.Apply.{
  add_available, take_available, add_manual, take_manual, default_supplier,
}

-- At most four pieces are missing at a position, and what was reserved by hand is not negative.
abbrev pub IsSound : SimulatedInventory → Type 0
IsSound position = (negsuc 3 ≤ℤ position.available) × (pos 0 ≤ℤ position.reserved_manual)

-- An open order is kept under its id.
abbrev pub AreKeyed : Dict String SimulatedOrder → Type 0
AreKeyed orders = AllEntries (λ order_id order. order.order_id ≡ order_id) orders

abbrev pub IsSteady : Simulation → Type 0
IsSteady sim = AreAll IsSound sim.inventory × AreKeyed sim.open_orders

-- Besides, a position satisfies `H`.
abbrev pub Holds : (SimulatedInventory → Type 0) → String → String → Simulation → Type 0
Holds H p z sim = IsSteady sim × H (position_of p z sim.inventory)

no_stock-IsSound : IsSound no_stock
no_stock-IsSound = ground arith

position_of-same :
    (p z : String) (position : SimulatedInventory) (inventory : Inventory)
    → position_of p z (put_position p z position inventory) ≡ position
position_of-same p z position inventory =
    rw (position_of-put_position p z p z position inventory)
      (rw (beq_refl p) (rw (beq_refl z) refl))

pub both_true : (a b : Bool) → (a && b) ≡ true → (a ≡ true) × (b ≡ true)
both_true a b h = ground arith

-- Adding a missing position changes no position.
pub position_of-refreshed :
    (p z p' z' : String) (inventory : Inventory)
    → position_of p' z' (put_position p z (position_of p z inventory) inventory)
      ≡ position_of p' z' inventory
position_of-refreshed p z p' z' inventory =
    rw (position_of-put_position p z p' z' (position_of p z inventory) inventory)
      (elim (Bool-cases (p == p' && z == z')) [
        | inr e ↦ rw e refl
        | inl e ↦
            let same_p = eq_of_beq p p' (both_true (p == p') (z == z') e).0 in
            let same_z = eq_of_beq z z' (both_true (p == p') (z == z') e).1 in
            rw e (rw same_p (rw same_z refl))
      ])

pub IsSteady-update :
    (p z : String) (f : SimulatedInventory → SimulatedInventory) (sim : Simulation)
    → IsSteady sim
    → IsSound (f (position_of p z sim.inventory))
    → IsSteady (update_position p z f sim)
unfolding update_position
IsSteady-update p z f sim h s =
    (put_position-AreAll IsSound p z (f (position_of p z sim.inventory)) sim.inventory s h.0, h.1)

pub position_of-update_position :
    (p z p' z' : String) (f : SimulatedInventory → SimulatedInventory) (sim : Simulation)
    → position_of p' z' (update_position p z f sim).inventory ≡ (
        if p == p' && z == z'
        then f (position_of p z sim.inventory)
        else position_of p' z' sim.inventory)
unfolding update_position
position_of-update_position p z p' z' f sim =
    position_of-put_position p z p' z' (f (position_of p z sim.inventory)) sim.inventory

pub position_of-IsSound :
    (p z : String) (sim : Simulation) → IsSteady sim → IsSound (position_of p z sim.inventory)
position_of-IsSound p z sim h = position_of-AreAll IsSound p z sim.inventory no_stock-IsSound h.0

module _ (p z : String) where
  pub Triple-get_position :
      (H : SimulatedInventory → Type 0) (p' z' : String)
      → Triple (Holds H p z) (get_position p' z') (λ position. Holds H p z)
  unfolding get_position update_position
  Triple-get_position H p' z' = record {
    run = λ sim h. (
      IsSteady-update p' z' (λ position. position) sim h.0 (position_of-IsSound p' z' sim h.0),
      rw (position_of-refreshed p' z' p z sim.inventory) h.1,
    );
  }

  -- The position that is got.
  pub Triple-get_this :
      Triple IsSteady (get_position p z) (λ position. Holds (λ here. here ≡ position) p z)
  unfolding get_position update_position
  Triple-get_this = record {
    run = λ sim h. (
      IsSteady-update p z (λ position. position) sim h (position_of-IsSound p z sim h),
      position_of-refreshed p z p z sim.inventory,
    );
  }

  module _ (f : SimulatedInventory → SimulatedInventory) where
    pub Triple-update :
        (H K : SimulatedInventory → Type 0)
        → ((position : SimulatedInventory)
            → IsSound position
            → H position
            → IsSound (f position) × K (f position))
        → Triple (Holds H p z) (change (update_position p z f)) (λ done. Holds K p z)
    unfolding update_position
    Triple-update H K step = Triple-change (update_position p z f) (λ sim h.
        let kept = step (position_of p z sim.inventory) (position_of-IsSound p z sim h.0) h.1 in
        (
          IsSteady-update p z f sim h.0 kept.0,
          rw (position_of-same p z (f (position_of p z sim.inventory)) sim.inventory) kept.1,
        ))

    pub Triple-update_any :
        ((position : SimulatedInventory) → IsSound position → IsSound (f position))
        → Triple IsSteady (change (update_position p z f)) (λ done. IsSteady)
    Triple-update_any step = Triple-change (update_position p z f) (λ sim h.
        IsSteady-update p z f sim h
          (step (position_of p z sim.inventory) (position_of-IsSound p z sim h)))

-- The changes of `Apply`.
module _ (n : ℤ) (position : SimulatedInventory) (h : IsSound position) where
  pub take_available-IsSound : n ≤ℤ position.available → IsSound (take_available n position)
  take_available-IsSound k = ground (arith, -ℤ_parts position.available n)

  pub take_manual-IsSound : n ≤ℤ position.reserved_manual → IsSound (take_manual n position)
  take_manual-IsSound k = ground (arith, -ℤ_parts position.reserved_manual n)

  pub add_available-IsSound : pos 0 ≤ℤ n → IsSound (add_available n position)
  add_available-IsSound k = ground (arith, +ℤ_parts position.available n)

  pub add_manual-IsSound : pos 0 ≤ℤ n → IsSound (add_manual n position)
  add_manual-IsSound k = ground (arith, +ℤ_parts position.reserved_manual n)

pub default_supplier-IsSound :
    (supplier_id : Option String) (position : SimulatedInventory)
    → IsSound position
    → IsSound (default_supplier supplier_id position)
default_supplier-IsSound supplier_id position h = ground (arith, h)
