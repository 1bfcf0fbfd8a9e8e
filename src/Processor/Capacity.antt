-- ===== src/Processor/Capacity.antt =====
-- `_validate_zone_capacities` of processor.py.
use smart_warehouse_platform.Prelude.{
  String, ℤ, pos, ◌+ℤ◌, ◌-ℤ◌, ltb_ℤ, List, [], ◌∷◌, Option, none, some, Dict, lookup, keys, union,
  if◌then◌else◌,
}
use smart_warehouse_platform.Prelude.Eq.{string_eq}
use smart_warehouse_platform.Domain.Models.{InventoryKey, InventoryState, total_quantity, key_eq}
use smart_warehouse_platform.Domain.Result.{
  Result, ok, raise, zone_not_found, zone_capacity_exceeded, no_zone, over_capacity, ◌>>◌,
}
use smart_warehouse_platform.Repository.Schema.{Tables}
use smart_warehouse_platform.Repository.{get_zone, get_zone_inventory}
use smart_warehouse_platform.Processor.Rows.{rows_by_key, or_nil}

-- `sum(row.total_quantity for row in rows)`
unfoldable pub sum_quantities : List InventoryState → ℤ
unfolding total_quantity
sum_quantities [] = pos 0
sum_quantities (row ∷ rows) = total_quantity row +ℤ sum_quantities rows

-- `row.total_quantity if row else 0`
unfoldable pub total_of : Option InventoryState → ℤ
unfolding total_quantity
total_of none = pos 0
total_of (some row) = total_quantity row

-- The inner loop, over the keys of the zone's old and new rows.
unfoldable pub replaced_total_from :
    Dict InventoryKey InventoryState → Dict InventoryKey InventoryState → ℤ → List InventoryKey → ℤ
unfolding total_of
replaced_total_from current updated total [] = total
replaced_total_from current updated total (key ∷ rest) =
    replaced_total_from current updated
      (total +ℤ (total_of (lookup key updated) -ℤ total_of (lookup key current))) rest

module _ (t : Tables)
    (updated_rows_by_zone current_rows_by_zone : Dict String (List InventoryState)) where
  unfoldable pub replaced_total : String → ℤ
  unfolding sum_quantities replaced_total_from rows_by_key
  replaced_total zone_id =
      let current = rows_by_key (or_nil (lookup zone_id current_rows_by_zone)) in
      let updated = rows_by_key (or_nil (lookup zone_id updated_rows_by_zone)) in
      replaced_total_from current updated (sum_quantities (get_zone_inventory t zone_id))
        (union (keys current) (keys updated))

  -- One round of the loop over the zones.
  unfoldable pub validate_zone : String → Result (Unit {0})
  unfolding replaced_total
  validate_zone zone_id = elim (get_zone t zone_id) [
    | none ↦ raise zone_not_found (no_zone zone_id)
    | some zone ↦
        if ltb_ℤ zone.capacity (replaced_total zone_id)
        then raise zone_capacity_exceeded
            (over_capacity zone_id zone.capacity (replaced_total zone_id))
        else ok tt
  ]

  unfoldable pub validate_zones : List String → Result (Unit {0})
  unfolding validate_zone
  validate_zones [] = ok tt
  validate_zones (zone_id ∷ rest) = do validate_zone zone_id; validate_zones rest

  unfoldable pub validate_zone_capacities : Result (Unit {0})
  unfolding validate_zones
  validate_zone_capacities =
      validate_zones (union (keys updated_rows_by_zone) (keys current_rows_by_zone))
