-- ===== src/Inventory/Coherence.antt =====
-- The three inventory tables show the same rows, and an upsert of one row in all of them keeps that.
use text.Mathlib.TextEquality.{eq_iff}
use smart_warehouse_platform.Prelude.{String, pos, ◌≤ℤ◌, ◌≡◌, List, [], ◌∷◌, some, arith}
use smart_warehouse_platform.Domain.Models.{InventoryState}
use smart_warehouse_platform.Repository.Schema.{
  Tables, upsert_product_zone, upsert_by_product, upsert_by_zone,
}
use smart_warehouse_platform.Repository.Cql.{find_row, run_batch, run_statement}
use smart_warehouse_platform.Repository.Partition.{
  IsDistinct, find_row-upsert_row, IsDistinct-upsert_row,
}

abbrev pub zone_column : InventoryState → String
zone_column r = r.zone_id

abbrev pub product_column : InventoryState → String
product_column r = r.product_id

-- No quantity of a row is negative.
abbrev pub IsStock : InventoryState → Type 0
IsStock r = (pos 0 ≤ℤ r.available_quantity) × (pos 0 ≤ℤ r.reserved_quantity)

-- The tables by product and by zone are views of the one by both, whose rows are stock.
pub record IsCoherent (t : Tables) : Type 0 where
  pub placed :
      (p z : String) (r : InventoryState)
      → t.inventory_by_product_zone p z ≡ some r
      → (r.product_id ≡ p) × (r.zone_id ≡ z)
  pub stock :
      (p z : String) (r : InventoryState) → t.inventory_by_product_zone p z ≡ some r → IsStock r
  pub product_view :
      (p z : String)
      → find_row zone_column z (t.inventory_by_product p) ≡ t.inventory_by_product_zone p z
  pub zone_view :
      (p z : String)
      → find_row product_column p (t.inventory_by_zone z) ≡ t.inventory_by_product_zone p z
  pub product_distinct : (p : String) → IsDistinct zone_column (t.inventory_by_product p)
  pub zone_distinct : (z : String) → IsDistinct product_column (t.inventory_by_zone z)

-- The three statements that `apply_state_change` adds for one row.
unfoldable pub put_row : InventoryState → Tables → Tables
unfolding run_batch run_statement
put_row u t = run_batch (upsert_product_zone u ∷ upsert_by_product u ∷ upsert_by_zone u ∷ []) t

unfoldable pub put_rows : List InventoryState → Tables → Tables
put_rows [] t = t
put_rows (u ∷ us) t = put_rows us (put_row u t)

pub put_row-IsCoherent :
    (u : InventoryState) {t : Tables} → IsStock u → IsCoherent t → IsCoherent (put_row u t)
unfolding put_row
put_row-IsCoherent u {t} nonneg h = record {
  placed = λ p z r e. ground (arith, h.placed p z r, eq_iff u.product_id p, eq_iff u.zone_id z);
  stock = λ p z r e. ground (arith, h.stock p z r);
  product_view = λ p z.
      ground
        (arith, h.product_view p z, find_row-upsert_row zone_column z u (t.inventory_by_product p));
  zone_view = λ p z.
      ground
        (arith, h.zone_view p z, find_row-upsert_row product_column p u (t.inventory_by_zone z));
  product_distinct = λ p.
      ground (
        arith,
        h.product_distinct p,
        IsDistinct-upsert_row zone_column u (t.inventory_by_product p),
      );
  zone_distinct = λ z.
      ground
        (arith, h.zone_distinct z, IsDistinct-upsert_row product_column u (t.inventory_by_zone z));
}
