-- ===== src/Generator/ZoneTotals.antt =====
-- The total of a zone, when a position is put.
use smart_warehouse_platform.Prelude.{
  String, ℤ, pos, ◌+ℤ◌, [], ◌∷◌, Dict, lookup, insert, lookup-insert, ◌≡◌, refl, sym, arith,
  int_laws, Bool-cases, inl, inr, if◌then◌else◌,
}
use smart_warehouse_platform.Prelude.Eq.{◌==◌, string_eq, eq_of_beq}
use smart_warehouse_platform.Processor.Rows.{or_nil}
use smart_warehouse_platform.Generator.State.{SimulatedInventory, no_stock, total, Inventory}
use smart_warehouse_platform.Generator.Stock.{
  or_empty, position_of, put_position, total_in, zone_total,
}

-- What a position counts for in a zone.
abbrev pub share : String → String → SimulatedInventory → ℤ
share zone z position = if z == zone then total position else pos 0

total_in-insert :
    (zone z : String) (position : SimulatedInventory) (positions : Dict String SimulatedInventory)
    → total_in zone (insert z position positions)
      ≡ (if z == zone then total position else total_in zone positions)
total_in-insert zone z position positions = ground (arith, lookup-insert z zone position positions)

+ℤ_comm : (a b : ℤ) → a +ℤ b ≡ b +ℤ a
unfolding ◌+ℤ◌
+ℤ_comm a b = ground arith

no_stock_lem : total no_stock ≡ pos 0
unfolding ◌+ℤ◌
no_stock_lem = refl

add_zero : (a : ℤ) → a +ℤ pos 0 ≡ a
add_zero a = grind int_laws

total_in_lem :
    (z : String) (positions : Dict String SimulatedInventory)
    → total_in z positions ≡ total (or_empty (lookup z positions))
total_in_lem z positions = ground (arith, no_stock_lem)

row_total :
    (zone z : String) (position : SimulatedInventory) (positions : Dict String SimulatedInventory)
    → total_in zone (insert z position positions) +ℤ share zone z (or_empty (lookup z positions))
      ≡ total_in zone positions +ℤ share zone z position
row_total zone z position positions =
    rw (total_in-insert zone z position positions) (elim (Bool-cases (z == zone)) [
      | inl e ↦ rw e (
          rw (sym (eq_of_beq z zone e)) (
            rw (total_in_lem z positions)
              (+ℤ_comm (total position) (total (or_empty (lookup z positions))))))
      | inr e ↦ rw e refl
    ])

between : (a c e : ℤ) → (a +ℤ e) +ℤ c ≡ (c +ℤ e) +ℤ a
between a c e = grind int_laws

after : (a b c d e : ℤ) → a +ℤ b ≡ c +ℤ d → (e +ℤ a) +ℤ b ≡ (e +ℤ c) +ℤ d
after a b c d e h = grind int_laws

through : (a t new old s s' : ℤ) → a +ℤ old ≡ t +ℤ new → new +ℤ s ≡ old +ℤ s' → a +ℤ s ≡ t +ℤ s'
through a t new old s s' h k = grind int_laws

zone_total-insert :
    (zone p : String) (row : Dict String SimulatedInventory) (inventory : Inventory)
    → zone_total zone (insert p row inventory) +ℤ total_in zone (or_nil (lookup p inventory))
      ≡ zone_total zone inventory +ℤ total_in zone row
unfolding zone_total
zone_total-insert zone p row [] =
    rw (add_zero (total_in zone row)) (+ℤ_comm (total_in zone row) (pos 0))
zone_total-insert zone p row ((p', positions) ∷ inventory) = elim (Bool-cases (p' == p)) [
  | inl e ↦ rw e (between (total_in zone row) (total_in zone positions) (zone_total zone inventory))
  | inr e ↦ rw e (
      after (zone_total zone (insert p row inventory)) (total_in zone (or_nil (lookup p inventory)))
        (zone_total zone inventory) (total_in zone row) (total_in zone positions)
        (zone_total-insert zone p row inventory))
]

-- In the other positions nothing changes.
pub zone_total-put_position :
    (zone p z : String) (position : SimulatedInventory) (inventory : Inventory)
    → zone_total zone (put_position p z position inventory)
        +ℤ share zone z (position_of p z inventory)
      ≡ zone_total zone inventory +ℤ share zone z position
unfolding put_position position_of
zone_total-put_position zone p z position inventory =
    let positions = or_nil (lookup p inventory) in
    let row = insert z position positions in
    through (zone_total zone (insert p row inventory)) (zone_total zone inventory)
      (total_in zone row) (total_in zone positions) (share zone z (or_empty (lookup z positions)))
      (share zone z position) (zone_total-insert zone p row inventory)
      (row_total zone z position positions)

cancel : (a b c : ℤ) → a +ℤ b ≡ c +ℤ b → a ≡ c
cancel a b c h = grind int_laws

-- Adding a missing position changes no total.
pub zone_total-refreshed :
    (zone p z : String) (inventory : Inventory)
    → zone_total zone (put_position p z (position_of p z inventory) inventory)
      ≡ zone_total zone inventory
zone_total-refreshed zone p z inventory =
    cancel (zone_total zone (put_position p z (position_of p z inventory) inventory))
      (share zone z (position_of p z inventory)) (zone_total zone inventory)
      (zone_total-put_position zone p z (position_of p z inventory) inventory)
