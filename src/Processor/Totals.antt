-- ===== src/Processor/Totals.antt =====
-- `_build_totals` of processor.py: what an event changes in the totals of each product.
use smart_warehouse_platform.Prelude.{
  String, ℤ, pos, ◌+ℤ◌, ◌-ℤ◌, ltb_ℤ, max_ℤ, Bool, ◌||◌, List, [], ◌∷◌, Option, none, some, Dict,
  lookup, insert, keys, union, if◌then◌else◌,
}
use smart_warehouse_platform.Prelude.Eq.{string_eq}
use smart_warehouse_platform.Domain.Models.{
  Instant, InventoryKey, InventoryState, ProductTotalsState, key_eq,
}
use smart_warehouse_platform.Domain.Result.{
  Result, ok, raise, negative_totals, totals_negative, ◌>>=◌,
}
use smart_warehouse_platform.Repository.Schema.{Tables}
use smart_warehouse_platform.Repository.{get_product_total}
use smart_warehouse_platform.Processor.Rows.{rows_by_key}

-- `row.available_quantity if row else 0`, and so for the other quantity.
abbrev pub available_of : Option InventoryState → ℤ
available_of none = pos 0
available_of (some row) = row.available_quantity

abbrev pub reserved_of : Option InventoryState → ℤ
reserved_of none = pos 0
reserved_of (some row) = row.reserved_quantity

abbrev pub or_zeros : Option (ℤ × ℤ) → ℤ × ℤ
or_zeros none = (pos 0, pos 0)
or_zeros (some d) = d

-- The first loop: the changes, summed for each product.
unfoldable pub deltas_from :
    Dict InventoryKey InventoryState
    → Dict InventoryKey InventoryState
    → Dict String (ℤ × ℤ)
    → List InventoryKey
    → Dict String (ℤ × ℤ)
deltas_from current updated deltas [] = deltas
deltas_from current updated deltas (key ∷ rest) =
    let before = lookup key current in
    let after = lookup key updated in
    let old = or_zeros (lookup key.product_id deltas) in
    deltas_from current updated
      (insert key.product_id
        (
          old.0 +ℤ (available_of after -ℤ available_of before),
          old.1 +ℤ (reserved_of after -ℤ reserved_of before),
        )
        deltas)
      rest

-- `get_product_total(product_id) or ProductTotalsState(product_id=product_id)`
unfoldable pub product_total : Instant → Tables → String → ProductTotalsState
product_total now t product_id = elim (get_product_total t product_id) [
  | none ↦ record {
    product_id = product_id;
    total_available_quantity = pos 0;
    total_reserved_quantity = pos 0;
    last_aggregated_event_ts = pos 0;
    updated_at = now;
  }
  | some total ↦ total
]

abbrev pub is_negative : ProductTotalsState → Bool
is_negative total =
    ltb_ℤ total.total_available_quantity (pos 0) || ltb_ℤ total.total_reserved_quantity (pos 0)

module _ (now : Instant) (t : Tables) (occurred_at : ℤ) where
  unfoldable pub updated_total : String → ℤ × ℤ → ProductTotalsState
  unfolding product_total
  updated_total product_id delta =
      let current = product_total now t product_id in
      record {
        product_id = product_id;
        total_available_quantity = current.total_available_quantity +ℤ delta.0;
        total_reserved_quantity = current.total_reserved_quantity +ℤ delta.1;
        last_aggregated_event_ts = max_ℤ current.last_aggregated_event_ts occurred_at;
        updated_at = now;
      }

  -- The second loop.
  unfoldable pub totals_from : Dict String (ℤ × ℤ) → Result (List ProductTotalsState)
  unfolding updated_total
  totals_from [] = ok []
  totals_from ((product_id, delta) ∷ rest) =
      let total = updated_total product_id delta in
      let others = totals_from rest in
      if is_negative total
      then raise negative_totals (totals_negative product_id)
      else (do totals ← others; ok (total ∷ totals))

  unfoldable pub build_totals :
      List InventoryState → List InventoryState → Result (List ProductTotalsState)
  unfolding deltas_from totals_from rows_by_key
  build_totals current_rows updated_rows =
      let current = rows_by_key current_rows in
      let updated = rows_by_key updated_rows in
      totals_from (deltas_from current updated [] (union (keys current) (keys updated)))
