-- ===== src/Processor/Handlers.antt =====
-- The handlers of processor.py that change single inventory rows.
use smart_warehouse_platform.Prelude.{
  String, ℤ, ◌+ℤ◌, ◌-ℤ◌, ltb_ℤ, List, [], ◌∷◌, Option, none, some, Dict, Bool, if◌then◌else◌,
}
use smart_warehouse_platform.Prelude.Eq.{◌==◌, string_eq}
use smart_warehouse_platform.Domain.Value.{get, or_else}
use smart_warehouse_platform.Domain.Models.{
  Instant, InventoryKey, InventoryState, OrderState, EventContext,
}
use smart_warehouse_platform.Domain.Result.{
  Result, ok, raise, ErrorCode, Message, ProcessResult, applied, stale, stale_event,
  older_event_ignored, insufficient_available, insufficient_reserved, invalid_move, below_shipment,
  below_reserve, below_move, below_release, same_zone, ◌>>=◌, ◌>>◌,
}
use smart_warehouse_platform.Repository.Schema.{Tables}
use smart_warehouse_platform.Repository.Cql.{Session}
use smart_warehouse_platform.Repository.{apply_state_change}
use smart_warehouse_platform.Processor.Checks.{
  require_text, require_positive, require_non_negative, is_stale,
}
use smart_warehouse_platform.Processor.Rows.{get_inventory}
use smart_warehouse_platform.Processor.Totals.{build_totals}
use smart_warehouse_platform.Processor.Capacity.{validate_zone_capacities}

abbrev pub applied_result : ProcessResult
applied_result = record {
  action = applied;
  outcome = "APPLIED";
  error_code = none;
  error_reason = none;
}

abbrev pub stale_result : ProcessResult
stale_result = record {
  action = stale;
  outcome = "STALE";
  error_code = some stale_event;
  error_reason = some older_event_ignored;
}

-- `if test: raise DomainValidationError(…)`
abbrev pub reject_if : Bool → ErrorCode → Message → Result (Unit {0})
reject_if test code message = if test then raise code message else ok tt

module _ (context : EventContext) where
  -- The handlers of one row read its key.
  unfoldable pub require_key : Result InventoryKey
  require_key = do
    product_id ← require_text (get "product_id" context.event) "product_id"
    zone_id ← require_text (get "zone_id" context.event) "zone_id"
    ok (record { product_id = product_id; zone_id = zone_id })

-- The row that each event writes: `replace(current, …)`.
module _ (now : Instant) (context : EventContext) where
  unfoldable pub receive_row : ℤ → InventoryState → InventoryState
  receive_row quantity current = record current {
    available_quantity = current.available_quantity +ℤ quantity;
    last_event_ts = context.occurred_at;
    supplier_id = get "supplier_id" context.event;
    updated_at = now;
  }

  unfoldable pub ship_row : ℤ → InventoryState → InventoryState
  ship_row quantity current = record current {
    available_quantity = current.available_quantity -ℤ quantity;
    last_event_ts = context.occurred_at;
    updated_at = now;
  }

  unfoldable pub reserve_row : ℤ → InventoryState → InventoryState
  reserve_row quantity current = record current {
    available_quantity = current.available_quantity -ℤ quantity;
    reserved_quantity = current.reserved_quantity +ℤ quantity;
    last_event_ts = context.occurred_at;
    updated_at = now;
  }

  unfoldable pub release_row : ℤ → InventoryState → InventoryState
  release_row quantity current = record current {
    available_quantity = current.available_quantity +ℤ quantity;
    reserved_quantity = current.reserved_quantity -ℤ quantity;
    last_event_ts = context.occurred_at;
    updated_at = now;
  }

  unfoldable pub count_row : ℤ → InventoryState → InventoryState
  count_row counted_quantity current = record current {
    available_quantity = counted_quantity;
    last_event_ts = context.occurred_at;
    updated_at = now;
  }

  unfoldable pub source_row : ℤ → InventoryState → InventoryState
  source_row quantity source = record source {
    available_quantity = source.available_quantity -ℤ quantity;
    last_event_ts = context.occurred_at;
    updated_at = now;
  }

  unfoldable pub target_row : ℤ → InventoryState → InventoryState → InventoryState
  target_row quantity source target = record target {
    available_quantity = target.available_quantity +ℤ quantity;
    last_event_ts = context.occurred_at;
    supplier_id = or_else target.supplier_id source.supplier_id;
    updated_at = now;
  }

-- One handler's surroundings: the session, the clock's reading, the event, and the tables that it
-- finds. A handler writes once and at its end, so an error leaves the tables as they were.
module _ (session : Session) (now : Instant) (context : EventContext) (t : Tables) where
  -- The last steps of every handler that applies its event.
  unfoldable pub apply_rows :
      List InventoryState
      → List InventoryState
      → Dict String (List InventoryState)
      → Dict String (List InventoryState)
      → Option OrderState
      → Result (ProcessResult × Tables)
  apply_rows current updated updated_by_zone current_by_zone order = do
    validate_zone_capacities t updated_by_zone current_by_zone
    totals ← build_totals now t context.occurred_at current updated
    t' ← apply_state_change session now updated totals order context "APPLIED" none none t
    ok (applied_result, t')

  unfoldable pub apply_row :
      String → InventoryState → InventoryState → Result (ProcessResult × Tables)
  unfolding apply_rows
  apply_row zone_id current updated =
      apply_rows (current ∷ []) (updated ∷ []) ((zone_id, updated ∷ []) ∷ [])
        ((zone_id, current ∷ []) ∷ []) none

  unfoldable pub process_product_received : Result (ProcessResult × Tables)
  unfolding require_key receive_row apply_row
  process_product_received = do
    quantity ← require_positive (get "quantity" context.event) "quantity"
    key ← require_key context
    let current = get_inventory now t key
    if is_stale context.occurred_at (current.last_event_ts ∷ [])
        then ok (stale_result, t)
        else apply_row key.zone_id current (receive_row now context quantity current)

  unfoldable pub process_product_shipped : Result (ProcessResult × Tables)
  unfolding require_key ship_row apply_row
  process_product_shipped = do
    quantity ← require_positive (get "quantity" context.event) "quantity"
    key ← require_key context
    let current = get_inventory now t key
    if is_stale context.occurred_at (current.last_event_ts ∷ []) then ok (stale_result, t) else do
      reject_if (ltb_ℤ current.available_quantity quantity) insufficient_available
          (below_shipment current.available_quantity quantity)
      apply_row key.zone_id current (ship_row now context quantity current)

  unfoldable pub process_product_reserved : Result (ProcessResult × Tables)
  unfolding require_key reserve_row apply_row
  process_product_reserved = do
    quantity ← require_positive (get "quantity" context.event) "quantity"
    key ← require_key context
    let current = get_inventory now t key
    if is_stale context.occurred_at (current.last_event_ts ∷ []) then ok (stale_result, t) else do
      reject_if (ltb_ℤ current.available_quantity quantity) insufficient_available
          (below_reserve current.available_quantity quantity)
      apply_row key.zone_id current (reserve_row now context quantity current)

  unfoldable pub process_product_released : Result (ProcessResult × Tables)
  unfolding require_key release_row apply_row
  process_product_released = do
    quantity ← require_positive (get "quantity" context.event) "quantity"
    key ← require_key context
    let current = get_inventory now t key
    if is_stale context.occurred_at (current.last_event_ts ∷ []) then ok (stale_result, t) else do
      reject_if (ltb_ℤ current.reserved_quantity quantity) insufficient_reserved
          (below_release current.reserved_quantity quantity)
      apply_row key.zone_id current (release_row now context quantity current)

  unfoldable pub process_inventory_counted : Result (ProcessResult × Tables)
  unfolding require_key count_row apply_row
  process_inventory_counted = do
    counted_quantity ←
        require_non_negative (get "counted_quantity" context.event) "counted_quantity"
    key ← require_key context
    let current = get_inventory now t key
    if is_stale context.occurred_at (current.last_event_ts ∷ [])
        then ok (stale_result, t)
        else apply_row key.zone_id current (count_row now context counted_quantity current)

  -- The part of `_process_product_moved` after the checks of the fields.
  unfoldable pub move_rows :
      ℤ → String → String → InventoryState → InventoryState → Result (ProcessResult × Tables)
  unfolding source_row target_row apply_rows
  move_rows quantity from_zone_id to_zone_id source target =
      if is_stale context.occurred_at (source.last_event_ts ∷ target.last_event_ts ∷ [])
      then ok (stale_result, t)
      else do
        reject_if (ltb_ℤ source.available_quantity quantity) insufficient_available
            (below_move source.available_quantity quantity)
        let source' = source_row now context quantity source
        let target' = target_row now context quantity source target
        apply_rows (source ∷ target ∷ []) (source' ∷ target' ∷ [])
            ((from_zone_id, source' ∷ []) ∷ (to_zone_id, target' ∷ []) ∷ [])
            ((from_zone_id, source ∷ []) ∷ (to_zone_id, target ∷ []) ∷ []) none

  unfoldable pub process_product_moved : Result (ProcessResult × Tables)
  unfolding move_rows
  process_product_moved = do
    quantity ← require_positive (get "quantity" context.event) "quantity"
    product_id ← require_text (get "product_id" context.event) "product_id"
    from_zone_id ← require_text (get "from_zone_id" context.event) "from_zone_id"
    to_zone_id ← require_text (get "to_zone_id" context.event) "to_zone_id"
    reject_if (from_zone_id == to_zone_id) invalid_move same_zone
    move_rows quantity from_zone_id to_zone_id
        (get_inventory now t (record { product_id = product_id; zone_id = from_zone_id }))
        (get_inventory now t (record { product_id = product_id; zone_id = to_zone_id }))
