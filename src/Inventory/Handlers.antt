-- ===== src/Inventory/Handlers.antt =====
-- Every handler of one row or two keeps the warehouse consistent.
use smart_warehouse_platform.Prelude.{
  ℤ, pos, ◌≤ℤ◌, ◌≡◌, refl, [], ◌∷◌, none, int_laws, ltb_ℤ, ltb_ℤ→ge, ◌∙◌, ap, false, if◌then◌else◌,
}
use smart_warehouse_platform.Prelude.Eq.{string_eq}
use smart_warehouse_platform.Domain.Value.{get}
use smart_warehouse_platform.Domain.Models.{
  Instant, InventoryKey, InventoryState, EventContext, composite_key,
}
use smart_warehouse_platform.Domain.Result.{Result, ok, ProcessResult}
use smart_warehouse_platform.Repository.Schema.{Tables}
use smart_warehouse_platform.Repository.Cql.{Session}
use smart_warehouse_platform.Processor.Checks.{require_positive, require_non_negative, is_stale}
use smart_warehouse_platform.Processor.Rows.{get_inventory, rows_by_zone}
use smart_warehouse_platform.Processor.Handlers.{
  stale_result, apply_rows, apply_row, require_key, receive_row, ship_row, reserve_row, release_row,
  count_row, process_product_received, process_product_shipped, process_product_reserved,
  process_product_released, process_inventory_counted,
}
use smart_warehouse_platform.Inventory.Coherence.{IsStock}
use smart_warehouse_platform.Inventory.Consistency.{IsConsistent, apply_rows-IsConsistent}
use smart_warehouse_platform.Inventory.Ensures.{
  Ensures, Ensures-ok, Ensures-if, Ensures-bind, Ensures-reject_if, require_positive-pos,
  require_non_negative-nonneg, get_inventory-IsRead,
}

-- The postcondition of a handler.
abbrev pub LeavesConsistent : ProcessResult × Tables → Type 0
LeavesConsistent r = IsConsistent r.1

module _ (session : Session) (now : Instant) (context : EventContext) (t : Tables)
    (h : IsConsistent t) where
  apply_row-IsConsistent :
      (key : InventoryKey) (u : InventoryState)
      → composite_key u ≡ composite_key (get_inventory now t key)
      → IsStock u
      → Ensures LeavesConsistent
          (apply_row session now context t key.zone_id (get_inventory now t key) u)
  unfolding apply_row rows_by_zone
  apply_row-IsConsistent key u same stock =
      let c = get_inventory now t key in
      let read = get_inventory-IsRead now t key h.coherent in
      let zone_c : c.zone_id ≡ key.zone_id = ap (λ (k : InventoryKey). k.zone_id) read.0 in
      let zone_u : u.zone_id ≡ key.zone_id = ap (λ (k : InventoryKey). k.zone_id) same ∙ zone_c in
      record {
        of = λ r done.
            apply_rows-IsConsistent session now context t (c ∷ []) (u ∷ [])
              (same, read.1, stock, tt, tt) h none r.0 r.1
              ((λ i.
                  apply_rows session now context t (c ∷ []) (u ∷ []) ((zone_u i, u ∷ []) ∷ [])
                    ((zone_c i, c ∷ []) ∷ []) none)
                ∙ done);
      }

  -- The steps that the handlers of one row share, up to the row that they write.
  one_row :
      (key : InventoryKey) (rest : Result (ProcessResult × Tables))
      → (let c = get_inventory now t key in IsStock c → Ensures LeavesConsistent rest)
      → Ensures LeavesConsistent (
          if is_stale context.occurred_at ((get_inventory now t key).last_event_ts ∷ [])
          then ok (stale_result, t)
          else rest)
  one_row key rest f =
      Ensures-if (is_stale context.occurred_at ((get_inventory now t key).last_event_ts ∷ []))
        (ok (stale_result, t)) rest (λ _. Ensures-ok (stale_result, t) h)
        (λ _. f (get_inventory-IsRead now t key h.coherent).2)

  pub received-IsConsistent :
      Ensures LeavesConsistent (process_product_received session now context t)
  unfolding process_product_received
  received-IsConsistent =
      Ensures-bind (require_positive (get "quantity" context.event) "quantity") _
        λ quantity positive. Ensures-bind (require_key context) _ λ key _. one_row key _ λ stock.
          apply_row-IsConsistent key (receive_row now context quantity (get_inventory now t key))
            (unfold receive_row in refl)
            (unfold receive_row in
              omega (
                int_laws,
                require_positive-pos (get "quantity" context.event) "quantity" positive,
                stock,
              ))

  -- The handlers that first test the stock against the quantity.
  module _ (key : InventoryKey) (quantity : ℤ) where
    abbrev current : InventoryState
    current = get_inventory now t key

    module _ (stock : IsStock current) where
      ship_row-IsStock :
          ltb_ℤ current.available_quantity quantity ≡ false
          → IsStock (ship_row now context quantity current)
      unfolding ship_row
      ship_row-IsStock enough =
          omega (int_laws, ltb_ℤ→ge current.available_quantity quantity enough)

      reserve_row-IsStock :
          pos 1 ≤ℤ quantity
          → ltb_ℤ current.available_quantity quantity ≡ false
          → IsStock (reserve_row now context quantity current)
      unfolding reserve_row
      reserve_row-IsStock positive enough =
          omega (int_laws, ltb_ℤ→ge current.available_quantity quantity enough)

      release_row-IsStock :
          pos 1 ≤ℤ quantity
          → ltb_ℤ current.reserved_quantity quantity ≡ false
          → IsStock (release_row now context quantity current)
      unfolding release_row
      release_row-IsStock positive enough =
          omega (int_laws, ltb_ℤ→ge current.reserved_quantity quantity enough)

  pub shipped-IsConsistent :
      Ensures LeavesConsistent (process_product_shipped session now context t)
  unfolding process_product_shipped
  shipped-IsConsistent =
      Ensures-bind (require_positive (get "quantity" context.event) "quantity") _
        λ quantity positive. Ensures-bind (require_key context) _ λ key _. one_row key _ λ stock.
          Ensures-reject_if _ _ _ _ λ enough.
            apply_row-IsConsistent key (ship_row now context quantity (get_inventory now t key))
              (unfold ship_row in refl) (ship_row-IsStock key quantity stock enough)

  pub reserved-IsConsistent :
      Ensures LeavesConsistent (process_product_reserved session now context t)
  unfolding process_product_reserved
  reserved-IsConsistent =
      Ensures-bind (require_positive (get "quantity" context.event) "quantity") _
        λ quantity positive. Ensures-bind (require_key context) _ λ key _. one_row key _ λ stock.
          Ensures-reject_if _ _ _ _ λ enough.
            apply_row-IsConsistent key (reserve_row now context quantity (get_inventory now t key))
              (unfold reserve_row in refl)
              (reserve_row-IsStock key quantity stock
                (require_positive-pos (get "quantity" context.event) "quantity" positive) enough)

  pub released-IsConsistent :
      Ensures LeavesConsistent (process_product_released session now context t)
  unfolding process_product_released
  released-IsConsistent =
      Ensures-bind (require_positive (get "quantity" context.event) "quantity") _
        λ quantity positive. Ensures-bind (require_key context) _ λ key _. one_row key _ λ stock.
          Ensures-reject_if _ _ _ _ λ enough.
            apply_row-IsConsistent key (release_row now context quantity (get_inventory now t key))
              (unfold release_row in refl)
              (release_row-IsStock key quantity stock
                (require_positive-pos (get "quantity" context.event) "quantity" positive) enough)

  pub counted-IsConsistent :
      Ensures LeavesConsistent (process_inventory_counted session now context t)
  unfolding process_inventory_counted
  counted-IsConsistent =
      Ensures-bind (require_non_negative (get "counted_quantity" context.event) "counted_quantity")
        _
        λ quantity nonneg. Ensures-bind (require_key context) _ λ key _. one_row key _ λ stock.
          apply_row-IsConsistent key (count_row now context quantity (get_inventory now t key))
            (unfold count_row in refl)
            (unfold count_row in
              (
                require_non_negative-nonneg (get "counted_quantity" context.event)
                    "counted_quantity" nonneg,
                stock.1,
              ))
