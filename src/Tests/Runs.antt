-- ===== src/Tests/Runs.antt =====
-- Runs of the processor on short sequences of events.
use smart_warehouse_platform.Prelude.{String, ℤ, pos, ◌≡◌, refl, List, [], ◌∷◌, Option, none, some}
use smart_warehouse_platform.Domain.Models.{EventContext}
use smart_warehouse_platform.Domain.Result.{ok, Action, applied, duplicate}
use smart_warehouse_platform.Repository.Schema.{Tables}
use smart_warehouse_platform.Tests.Warehouse.{
  empty_tables, run, received, shipped, moved, ordered, completed,
}

-- What each event did, and the tables after the last.
run_events : List EventContext → Tables → List Action × Tables
unfolding run
run_events [] t = ([], t)
run_events (c ∷ rest) t = elim (run c t) [
  | ok (r, t') ↦ let (actions, t'') = run_events rest t' in (r.action ∷ actions, t'')
  | _ ↦ ([], t)
]

abbrev row_of : Tables → String → Option (ℤ × ℤ)
row_of t z = elim (t.inventory_by_product_zone "SKU-1" z) [
  | none ↦ none
  | some r ↦ some (r.available_quantity, r.reserved_quantity)
]

abbrev total_of_product : Tables → Option (ℤ × ℤ)
total_of_product t = elim (t.inventory_totals_by_product "SKU-1") [
  | none ↦ none
  | some r ↦ some (r.total_available_quantity, r.total_reserved_quantity)
]

-- Receive 100, the same event again, ship 30, move 9, and order 15 and complete the order.
run_of_six :
    let (actions, t) =
      run_events (received ∷ received ∷ shipped ∷ moved ∷ ordered ∷ completed ∷ []) empty_tables in
    (actions ≡ applied ∷ duplicate ∷ applied ∷ applied ∷ applied ∷ applied ∷ [])
    × (row_of t "ZONE-A" ≡ some (pos 46, pos 0))
    × (row_of t "ZONE-B" ≡ some (pos 9, pos 0))
    × (total_of_product t ≡ some (pos 55, pos 0))
unfolding run_events
run_of_six = (refl, refl, refl, refl)
