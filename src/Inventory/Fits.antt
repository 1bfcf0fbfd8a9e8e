-- ===== src/Inventory/Fits.antt =====
-- A passed capacity check bounds every zone's sum once the rows are written.
use smart_warehouse_platform.Prelude.{
  String, ℤ, pos, ◌+ℤ◌, ◌≤ℤ◌, ◌≡◌, refl, List, [], ◌∷◌, ◌++◌, none, some, arith, int_laws,
  parts_of_eq, Bool-cases, Option-cases, inl, inr, ◌∙◌, sym, ap, subst, Dict, lookup, keys, union,
  contains, true, missing,
}
use smart_warehouse_platform.Prelude.Eq.{Eq, ◌==◌, string_eq, eq_of_beq}
use smart_warehouse_platform.Domain.Models.{InventoryState, ZoneInfo, total_quantity}
use smart_warehouse_platform.Domain.Result.{ok, >>=-eq-ok}
use smart_warehouse_platform.Repository.Schema.{Tables}
use smart_warehouse_platform.Repository.Partition.{sum_by}
use smart_warehouse_platform.Processor.Rows.{rows_by_zone, or_nil}
use smart_warehouse_platform.Processor.Capacity.{
  replaced_total, validate_zone, validate_zones, validate_zone_capacities,
}
use smart_warehouse_platform.Inventory.Coherence.{zone_column}
use smart_warehouse_platform.Inventory.Changes.{delta}
use smart_warehouse_platform.Inventory.Grouping.{Aligned}
use smart_warehouse_platform.Inventory.Zones.{
  zone_rows, or_nil-rows_by_zone, change_sum, change_sum-zone_rows, replaced_total_lem,
}

contains-append {ℓ} :
    {A : Type ℓ} ⦃e : Eq A⦄ (js ks : List A) (k : A)
    → contains js k ≡ true
    → contains (js ++ ks) k ≡ true
contains-append [] ks k h = cc
contains-append (j ∷ js) ks k h = ground (arith, contains-append js ks k)

contains-keys {ℓ κ} :
    {K : Type ℓ} {V : Type κ} ⦃e : Eq K⦄ (d : Dict K V) (k : K) (v : V)
    → lookup k d ≡ some v
    → contains (keys d) k ≡ true
contains-keys [] k v h = cc
contains-keys ((j, w) ∷ d) k v h = ground (arith, contains-keys d k v)

module _ (t : Tables) (updated_by_zone current_by_zone : Dict String (List InventoryState)) where
  -- A passed check has passed for each of its zones.
  validate_zones-each :
      (zs : List String) (z : String)
      → validate_zones t updated_by_zone current_by_zone zs ≡ ok tt
      → contains zs z ≡ true
      → validate_zone t updated_by_zone current_by_zone z ≡ ok tt
  unfolding validate_zones
  validate_zones-each [] z h c = cc
  validate_zones-each (w ∷ zs) z h c =
      let (u, first, rest) =
        >>=-eq-ok (validate_zone t updated_by_zone current_by_zone w)
          (λ _. validate_zones t updated_by_zone current_by_zone zs) h in
      elim (Bool-cases (w == z)) [
        | inl e ↦
            subst (λ x. validate_zone t updated_by_zone current_by_zone x ≡ ok tt) (eq_of_beq w z e)
              first
        | inr e ↦ validate_zones-each zs z rest (rw e at c)
      ]

  validate_zone-fits :
      (z : String) {zone : ZoneInfo}
      → t.zones_by_id z ≡ some zone
      → validate_zone t updated_by_zone current_by_zone z ≡ ok tt
      → replaced_total t updated_by_zone current_by_zone z ≤ℤ zone.capacity
  unfolding validate_zone
  validate_zone-fits z e h = ground arith

change_sum-nil : (m : InventoryState → ℤ) (cs : List InventoryState) → change_sum m cs [] ≡ pos 0
change_sum-nil m [] = refl
change_sum-nil m (c ∷ cs) = refl

untouched_zone :
    (z : String) (cs us : List InventoryState) (m : InventoryState → ℤ)
    → Aligned cs us
    → lookup z (rows_by_zone us) ≡ none
    → delta zone_column z m cs us ≡ pos 0
untouched_zone z cs us m a h =
    let empty : zone_rows z us ≡ [] = sym (or_nil-rows_by_zone z us) ∙ ap or_nil h in
    sym (change_sum-zone_rows m z cs us a)
    ∙ (ap (change_sum m (zone_rows z cs)) empty ∙ change_sum-nil m (zone_rows z cs))

-- If the check passes, no zone is over its capacity afterwards.
pub validate_zone_capacities-fits :
    (t : Tables) (z : String) (cs us : List InventoryState) {zone : ZoneInfo}
    → Aligned cs us
    → validate_zone_capacities t (rows_by_zone us) (rows_by_zone cs) ≡ ok tt
    → t.zones_by_id z ≡ some zone
    → sum_by total_quantity (t.inventory_by_zone z) ≤ℤ zone.capacity
    → sum_by total_quantity (t.inventory_by_zone z) +ℤ delta zone_column z total_quantity cs us
      ≤ℤ zone.capacity
unfolding validate_zone_capacities
validate_zone_capacities-fits t z cs us {zone} a h e fits =
    elim (Option-cases (lookup z (rows_by_zone us))) [
      | inl absent ↦ omega (int_laws, parts_of_eq (untouched_zone z cs us total_quantity a absent))
      | inr (rows, present) ↦
          let passed =
            validate_zones-each t (rows_by_zone us) (rows_by_zone cs)
              (union (keys (rows_by_zone us)) (keys (rows_by_zone cs))) z h
              (contains-append (keys (rows_by_zone us))
                (missing (keys (rows_by_zone us)) (keys (rows_by_zone cs))) z
                (contains-keys (rows_by_zone us) z rows present)) in
          let bound = validate_zone-fits t (rows_by_zone us) (rows_by_zone cs) z e passed in
          omega (int_laws, bound, parts_of_eq (replaced_total_lem t z cs us a))
    ]
