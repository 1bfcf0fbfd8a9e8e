-- ===== src/Processor/Orders.antt =====
-- The two order handlers of processor.py.
use smart_warehouse_platform.Prelude.{
  String, ℤ, ◌-ℤ◌, ltb_ℤ, not, List, [], ◌∷◌, none, some, Dict, if◌then◌else◌,
}
use smart_warehouse_platform.Prelude.Eq.{◌==◌, string_eq}
use smart_warehouse_platform.Domain.Value.{get}
use smart_warehouse_platform.Domain.Models.{
  Instant, InventoryKey, InventoryState, OrderItemData, OrderState, EventContext,
}
use smart_warehouse_platform.Domain.Result.{
  Result, ok, raise, ProcessResult, insufficient_available, insufficient_reserved,
  order_already_exists, order_not_found, order_not_completable, below_reserve,
  reserved_below_shipment, order_exists, order_missing, order_has_status, ◌>>=◌, ◌>>◌,
}
use smart_warehouse_platform.Repository.Schema.{Tables}
use smart_warehouse_platform.Repository.Cql.{Session}
use smart_warehouse_platform.Repository.{get_order, apply_state_change}
use smart_warehouse_platform.Processor.Checks.{require_text}
use smart_warehouse_platform.Processor.Rows.{
  get_inventory, normalize_items, group_items, rows_by_zone,
}
use smart_warehouse_platform.Processor.Totals.{build_totals}
use smart_warehouse_platform.Processor.Capacity.{validate_zone_capacities}
use smart_warehouse_platform.Processor.Handlers.{
  applied_result, stale_result, reject_if, apply_rows, reserve_row,
}

-- What `_process_order_completed` writes for one key.
unfoldable pub complete_row : Instant → EventContext → ℤ → InventoryState → InventoryState
complete_row now context quantity current = record current {
  reserved_quantity = current.reserved_quantity -ℤ quantity;
  last_event_ts = context.occurred_at;
  updated_at = now;
}

module _ (now : Instant) (context : EventContext) (t : Tables) where
  -- The loop of `_reserve_order_items`, which gives the rows before and after.
  unfoldable pub reserve_order_rows :
      Dict InventoryKey ℤ → Result (List InventoryState × List InventoryState)
  unfolding reserve_row
  reserve_order_rows [] = ok ([], [])
  reserve_order_rows ((key, quantity) ∷ rest) = do
    let current = get_inventory now t key
    let others = reserve_order_rows rest
    reject_if (ltb_ℤ current.available_quantity quantity) insufficient_available
        (below_reserve current.available_quantity quantity)
    rows ← others
    ok (current ∷ rows.0, reserve_row now context quantity current ∷ rows.1)

  unfoldable pub reserve_order_items :
      List OrderItemData → Result (List InventoryState × List InventoryState)
  unfolding reserve_order_rows group_items
  reserve_order_items items = do
    rows ← reserve_order_rows (group_items items)
    validate_zone_capacities t (rows_by_zone rows.1) (rows_by_zone rows.0)
    ok rows

  -- The loop of `_process_order_completed`.
  unfoldable pub complete_order_rows :
      Dict InventoryKey ℤ → Result (List InventoryState × List InventoryState)
  unfolding complete_row
  complete_order_rows [] = ok ([], [])
  complete_order_rows ((key, quantity) ∷ rest) = do
    let current = get_inventory now t key
    let others = complete_order_rows rest
    reject_if (ltb_ℤ current.reserved_quantity quantity) insufficient_reserved
        (reserved_below_shipment current.reserved_quantity quantity)
    rows ← others
    ok (current ∷ rows.0, complete_row now context quantity current ∷ rows.1)

abbrev pub created_order : Instant → EventContext → String → List OrderItemData → OrderState
created_order now context order_id items = record {
  order_id = order_id;
  status = "CREATED";
  items = items;
  created_at = now;
  updated_at = now;
  last_event_ts = context.occurred_at;
}

abbrev pub completed_order : Instant → EventContext → OrderState → OrderState
completed_order now context order = record order {
  status = "COMPLETED";
  updated_at = now;
  last_event_ts = context.occurred_at;
}

module _ (session : Session) (now : Instant) (context : EventContext) (t : Tables) where
  -- `_process_order_created` once the order is known to be new.
  unfoldable pub create_order : String → List OrderItemData → Result (ProcessResult × Tables)
  unfolding reserve_order_items
  create_order order_id items = do
    rows ← reserve_order_items now context t items
    totals ← build_totals now t context.occurred_at rows.0 rows.1
    t' ←
        apply_state_change session now rows.1 totals
          (some (created_order now context order_id items)) context "APPLIED" none none t
    ok (applied_result, t')

  unfoldable pub process_order_created : Result (ProcessResult × Tables)
  unfolding create_order
  process_order_created = do
    order_id ← require_text (get "order_id" context.event) "order_id"
    items ← normalize_items (get "items" context.event)
    elim (get_order t order_id) [
      | some existing ↦
          if ltb_ℤ context.occurred_at existing.last_event_ts
          then ok (stale_result, t)
          else raise order_already_exists (order_exists order_id)
      | none ↦ create_order order_id items
    ]

  -- `_process_order_completed` once the order has been found.
  unfoldable pub complete_order : String → OrderState → Result (ProcessResult × Tables)
  unfolding complete_order_rows group_items apply_rows
  complete_order order_id order =
      if ltb_ℤ context.occurred_at order.last_event_ts then ok (stale_result, t) else do
        reject_if (not (order.status == "CREATED")) order_not_completable
            (order_has_status order_id order.status)
        rows ← complete_order_rows now context t (group_items order.items)
        apply_rows session now context t rows.0 rows.1 (rows_by_zone rows.1) (rows_by_zone rows.0)
            (some (completed_order now context order))

  unfoldable pub process_order_completed : Result (ProcessResult × Tables)
  unfolding complete_order
  process_order_completed = do
    order_id ← require_text (get "order_id" context.event) "order_id"
    elim (get_order t order_id) [
      | none ↦ raise order_not_found (order_missing order_id)
      | some order ↦ complete_order order_id order
    ]
