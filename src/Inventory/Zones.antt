-- ===== src/Inventory/Zones.antt =====
-- `_validate_zone_capacities` against what it is for: the sum that each zone will have.
use smart_warehouse_platform.Prelude.{
  String, ℤ, pos, ◌+ℤ◌, ◌-ℤ◌, ◌≡◌, refl, List, [], ◌∷◌, ◌++◌, Option, some, arith, int_laws,
  parts_of_eq, Bool-cases, inl, inr, ◌∙◌, sym, ap, if◌then◌else◌, Dict, lookup, insert, keys,
  lookup-insert,
}
use mathlib.Core.List.{append_assoc, append-nil}
use smart_warehouse_platform.Prelude.Eq.{◌==◌, string_eq, eq_of_beq}
use smart_warehouse_platform.Domain.Models.{
  InventoryKey, InventoryState, composite_key, key_eq, total_quantity,
}
use smart_warehouse_platform.Repository.Schema.{Tables}
use smart_warehouse_platform.Repository.Partition.{sum_by}
use smart_warehouse_platform.Processor.Rows.{rows_by_zone, rows_by_zone_from, or_nil}
use smart_warehouse_platform.Processor.Capacity.{
  sum_quantities, total_of, replaced_total_from, replaced_total,
}
use smart_warehouse_platform.Inventory.Coherence.{zone_column}
use smart_warehouse_platform.Inventory.Changes.{IsFresh, delta}
use smart_warehouse_platform.Inventory.Grouping.{
  Aligned, Found, Aligned-Found, row_pairs, rows_by_key_before, rows_by_key_after, union-keys,
}

abbrev pub zone_rows : String → List InventoryState → List InventoryState
zone_rows z [] = []
zone_rows z (r ∷ rows) = let rest = zone_rows z rows in if r.zone_id == z then r ∷ rest else rest

group_step :
    (w z : String) (r : InventoryState) (grouped : Dict String (List InventoryState))
    (rest : List InventoryState)
    → or_nil (if w == z then some (or_nil (lookup w grouped) ++ r ∷ []) else lookup z grouped)
        ++ rest
      ≡ or_nil (lookup z grouped) ++ (if w == z then r ∷ rest else rest)
group_step w z r grouped rest = elim (Bool-cases (w == z)) [
  | inl e ↦ rw e (rw (eq_of_beq w z e) (append_assoc (or_nil (lookup z grouped)) (r ∷ []) rest))
  | inr e ↦ rw e refl
]

or_nil-rows_by_zone_from :
    (z : String) (grouped : Dict String (List InventoryState)) (rows : List InventoryState)
    → or_nil (lookup z (rows_by_zone_from grouped rows))
      ≡ or_nil (lookup z grouped) ++ zone_rows z rows
unfolding rows_by_zone_from
or_nil-rows_by_zone_from z grouped [] = sym (append-nil (or_nil (lookup z grouped)))
or_nil-rows_by_zone_from z grouped (r ∷ rows) =
    let entry : List InventoryState = or_nil (lookup r.zone_id grouped) ++ r ∷ [] in
    or_nil-rows_by_zone_from z (insert r.zone_id entry grouped) rows
    ∙ (ap (λ (x : Option (List InventoryState)). or_nil x ++ zone_rows z rows)
          (lookup-insert r.zone_id z entry grouped)
        ∙ group_step r.zone_id z r grouped (zone_rows z rows))

-- A zone's entry in the grouping is the zone's rows.
pub or_nil-rows_by_zone :
    (z : String) (rows : List InventoryState)
    → or_nil (lookup z (rows_by_zone rows)) ≡ zone_rows z rows
unfolding rows_by_zone
or_nil-rows_by_zone z rows = or_nil-rows_by_zone_from z [] rows

IsFresh-zone_rows :
    (z : String) (k : InventoryKey) (rows : List InventoryState)
    → IsFresh k rows
    → IsFresh k (zone_rows z rows)
IsFresh-zone_rows z k [] f = tt
IsFresh-zone_rows z k (r ∷ rows) f = ground (arith, IsFresh-zone_rows z k rows f.1, f.0)

pub Aligned-zone_rows :
    (z : String) (cs us : List InventoryState)
    → Aligned cs us
    → Aligned (zone_rows z cs) (zone_rows z us)
Aligned-zone_rows z [] [] a = tt
Aligned-zone_rows z (c ∷ cs) (u ∷ us) a =
    ground (arith, a.0, Aligned-zone_rows z cs us a.2, IsFresh-zone_rows z (composite_key c) us a.1)
Aligned-zone_rows z [] (u ∷ us) a = absurd a
Aligned-zone_rows z (c ∷ cs) [] a = absurd a

-- The whole change of a quantity.
abbrev pub change_sum : (InventoryState → ℤ) → List InventoryState → List InventoryState → ℤ
change_sum m (c ∷ cs) (u ∷ us) = (m u -ℤ m c) +ℤ change_sum m cs us
change_sum m _ _ = pos 0

pub change_sum-zone_rows :
    (m : InventoryState → ℤ) (z : String) (cs us : List InventoryState)
    → Aligned cs us
    → change_sum m (zone_rows z cs) (zone_rows z us) ≡ delta zone_column z m cs us
change_sum-zone_rows m z [] [] a = refl
change_sum-zone_rows m z (c ∷ cs) (u ∷ us) a =
    let same = ap (λ (k : InventoryKey). k.zone_id == z) a.0 in
    let rest = parts_of_eq (change_sum-zone_rows m z cs us a.2) in
    elim (Bool-cases (c.zone_id == z)) [
      | inl e ↦ rw (e, same ∙ e) (omega (int_laws, rest))
      | inr e ↦ rw (e, same ∙ e) (omega (int_laws, rest))
    ]
change_sum-zone_rows m z [] (u ∷ us) a = absurd a
change_sum-zone_rows m z (c ∷ cs) [] a = absurd a

replaced_total_from_lem :
    (d e : Dict InventoryKey InventoryState) (total : ℤ) (cs us : List InventoryState)
    → Found d e cs us
    → replaced_total_from d e total (keys (row_pairs cs)) ≡ total +ℤ change_sum total_quantity cs us
unfolding replaced_total_from
replaced_total_from_lem d e total [] [] f = omega int_laws
replaced_total_from_lem d e total (c ∷ cs) (u ∷ us) f =
    let step : total
          +ℤ (total_of (lookup (composite_key c) e) -ℤ total_of (lookup (composite_key c) d))
        ≡ total +ℤ (total_quantity u -ℤ total_quantity c) =
      rw (f.0, f.1) refl in
    ap (λ x. replaced_total_from d e x (keys (row_pairs cs))) step
    ∙ (replaced_total_from_lem d e (total +ℤ (total_quantity u -ℤ total_quantity c)) cs us f.2
        ∙ omega int_laws)
replaced_total_from_lem d e total [] (u ∷ us) f = absurd f
replaced_total_from_lem d e total (c ∷ cs) [] f = absurd f

sum_quantities-eq-sum_by :
    (rows : List InventoryState) → sum_quantities rows ≡ sum_by total_quantity rows
unfolding sum_quantities
sum_quantities-eq-sum_by [] = refl
sum_quantities-eq-sum_by (r ∷ rows) = rw (sum_quantities-eq-sum_by rows) refl

-- What the check computes for a zone is the zone's sum once the rows are written.
pub replaced_total_lem :
    (t : Tables) (z : String) (cs us : List InventoryState)
    → Aligned cs us
    → replaced_total t (rows_by_zone us) (rows_by_zone cs) z
      ≡ sum_by total_quantity (t.inventory_by_zone z) +ℤ delta zone_column z total_quantity cs us
unfolding replaced_total
replaced_total_lem t z cs us a =
    let zcs = zone_rows z cs in
    let zus = zone_rows z us in
    let za = Aligned-zone_rows z cs us a in
    rw (or_nil-rows_by_zone z cs, or_nil-rows_by_zone z us)
      (rw (rows_by_key_before zcs zus za, rows_by_key_after zcs zus za)
        (rw (union-keys zcs zus za) (
          rw (sum_quantities-eq-sum_by (t.inventory_by_zone z)) (
            replaced_total_from_lem (row_pairs zcs) (row_pairs zus)
              (sum_by total_quantity (t.inventory_by_zone z)) zcs zus (Aligned-Found zcs zus za)
            ∙ rw (change_sum-zone_rows total_quantity z cs us a) refl))))
