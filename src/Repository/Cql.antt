-- ===== src/Repository/Cql.antt =====
-- The CQL that the repository relies on, as Cassandra documents it: an INSERT overwrites the row
-- of its primary key, a partition's rows come in clustering order, and a logged batch that succeeds
-- has run every statement. The session itself is a parameter.
use Prim.Native.String.{compare}
use text.Mathlib.Text.{is_lt}
use smart_warehouse_platform.Prelude.{
  String, ltb_ℤ, ◌≡◌, Bool, ◌&&◌, ◌||◌, List, [], ◌∷◌, Option, none, some, if◌then◌else◌,
}
use smart_warehouse_platform.Prelude.Eq.{◌==◌, string_eq, int_eq}
use smart_warehouse_platform.Domain.Models.{InventoryState}
use smart_warehouse_platform.Repository.Schema.{
  Tables, Statement, HistoryRow, upsert_product_zone, upsert_by_product, upsert_by_zone,
  upsert_total, upsert_order, insert_processed, insert_history,
}

-- One partition of an inventory table, clustered by a text column.
module _ (column : InventoryState → String) where
  unfoldable pub without : String → List InventoryState → List InventoryState
  without k [] = []
  without k (r ∷ rows) = let rest = without k rows in if column r == k then rest else r ∷ rest

  unfoldable pub place : InventoryState → List InventoryState → List InventoryState
  place row [] = row ∷ []
  place row (r ∷ rows) =
      let rest = place row rows in
      if is_lt (compare (column row) (column r)) then row ∷ r ∷ rows else r ∷ rest

  unfoldable pub upsert_row : InventoryState → List InventoryState → List InventoryState
  unfolding without place
  upsert_row row rows = place row (without (column row) rows)

  -- The row of a clustering key.
  unfoldable pub find_row : String → List InventoryState → Option InventoryState
  find_row k [] = none
  find_row k (r ∷ rows) = if column r == k then some r else find_row k rows

abbrev same_history_key : HistoryRow → HistoryRow → Bool
same_history_key a b = a.processed_at == b.processed_at && a.event_id == b.event_id

-- CLUSTERING ORDER BY (processed_at DESC, event_id ASC)
abbrev history_before : HistoryRow → HistoryRow → Bool
history_before a b =
    ltb_ℤ b.processed_at a.processed_at
    || (a.processed_at == b.processed_at && is_lt (compare a.event_id b.event_id))

unfoldable pub place_history : HistoryRow → List HistoryRow → List HistoryRow
place_history row [] = row ∷ []
place_history row (r ∷ rows) =
    let rest = place_history row rows in
    if same_history_key r row
    then row ∷ rows
    else if history_before row r
    then row ∷ r ∷ rows
    else r ∷ rest

unfoldable pub run_statement : Statement → Tables → Tables
unfolding upsert_row place_history
run_statement (upsert_product_zone row) t = record t {
  inventory_by_product_zone = λ p z.
      if row.product_id == p && row.zone_id == z then some row else t.inventory_by_product_zone p z;
}
run_statement (upsert_by_product row) t = record t {
  inventory_by_product = λ p.
      if row.product_id == p
      then upsert_row (λ r. r.zone_id) row (t.inventory_by_product p)
      else t.inventory_by_product p;
}
run_statement (upsert_by_zone row) t = record t {
  inventory_by_zone = λ z.
      if row.zone_id == z
      then upsert_row (λ r. r.product_id) row (t.inventory_by_zone z)
      else t.inventory_by_zone z;
}
run_statement (upsert_total total) t = record t {
  inventory_totals_by_product =
      λ p. if total.product_id == p then some total else t.inventory_totals_by_product p;
}
run_statement (upsert_order order) t = record t {
  orders_by_id = λ o. if order.order_id == o then some order else t.orders_by_id o;
}
run_statement (insert_processed row) t = record t {
  processed_events_by_id = λ i. if row.event_id == i then some row else t.processed_events_by_id i;
}
run_statement (insert_history row) t = record t {
  event_history_by_day = λ d.
      if row.event_date == d
      then place_history row (t.event_history_by_day d)
      else t.event_history_by_day d;
}

unfoldable pub run_batch : List Statement → Tables → Tables
unfolding run_statement
run_batch [] t = t
run_batch (s ∷ batch) t = run_batch batch (run_statement s t)

-- `session.execute(batch)`; `none` is an exception of the driver.
pub record Session : Type 0 where
  pub execute : Tables → List Statement → Option Tables
  pub execute_runs :
      (t : Tables) (batch : List Statement) (t' : Tables)
      → execute t batch ≡ some t'
      → t' ≡ run_batch batch t
