-- ===== src/Inventory/Settles.antt =====
-- What each handler of processor.py has written when it returns.
use smart_warehouse_platform.Prelude.{
  arith, not, String, ℤ, ◌≡◌, refl, false, List, [], ◌∷◌, Option, none, some, Dict, ◌⊎◌, inl, inr,
  if◌then◌else◌, ltb_ℤ,
}
use smart_warehouse_platform.Prelude.Eq.{◌==◌, string_eq, eq_of_beq}
use smart_warehouse_platform.Domain.Value.{get}
use smart_warehouse_platform.Domain.Models.{
  Instant, InventoryState, ProductTotalsState, OrderItemData, OrderState, EventContext,
}
use smart_warehouse_platform.Domain.Result.{
  Result, ok, raise, ProcessResult, order_already_exists, order_not_found, order_exists,
  order_missing, unknown_event_type, unsupported_event_type,
}
use smart_warehouse_platform.Repository.Schema.{Tables}
use smart_warehouse_platform.Repository.Cql.{Session}
use smart_warehouse_platform.Repository.{get_order, apply_state_change}
use smart_warehouse_platform.Processor.Checks.{
  require_text, require_positive, require_non_negative, is_stale,
}
use smart_warehouse_platform.Processor.Rows.{normalize_items, group_items}
use smart_warehouse_platform.Processor.Totals.{build_totals}
use smart_warehouse_platform.Processor.Handlers.{
  stale_result, applied_result, apply_rows, apply_row, require_key, move_rows,
  process_product_received, process_product_shipped, process_product_moved,
  process_product_reserved, process_product_released, process_inventory_counted,
}
use smart_warehouse_platform.Processor.Orders.{
  process_order_created, process_order_completed, create_order, complete_order, created_order,
  completed_order, reserve_order_items, complete_order_rows,
}
use smart_warehouse_platform.Inventory.Batch.{changed, apply_state_change-eq-ok}
use smart_warehouse_platform.Inventory.Consistency.{apply_rows-eq-ok}
use smart_warehouse_platform.Inventory.Ensures.{
  Ensures, Ensures-ok, Ensures-if, Ensures-bind, Ensures-then, Ensures-raise, Ensures-reject_if,
}
use smart_warehouse_platform.Processor.Process.{dispatch}

status_created : (status : String) → not (status == "CREATED") ≡ false → status ≡ "CREATED"
status_created status h = eq_of_beq status "CREATED" (ground arith)

-- The tables after the one batch of an applied event.
abbrev pub IsApplied : Session → Instant → EventContext → Tables → Tables → Type 0
IsApplied session now context t t' =
    (us : List InventoryState) × (totals : List ProductTotalsState) × (order : Option OrderState)
    × (t' ≡ changed us totals order context now "APPLIED" none none t)

module _ (session : Session) (now : Instant) (context : EventContext) (t : Tables)
    (May : Option OrderState → Type 0) (none_may : May none)
    (may_create : (order_id : String) (items : List OrderItemData)
      → get_order t order_id ≡ none
      → May (some (created_order now context order_id items)))
    (may_complete : (order_id : String) (order : OrderState)
      → get_order t order_id ≡ some order
      → order.status ≡ "CREATED"
      → May (some (completed_order now context order))) where
  -- A handler that returns has ignored an old event, or has written its batch, with an order that it
  -- may write.
  abbrev pub Writes : ProcessResult × Tables → Type 0
  Writes r =
      ((r.0 ≡ stale_result) × (r.1 ≡ t))
      ⊎ ((r.0 ≡ applied_result)
          × ((us : List InventoryState) × (totals : List ProductTotalsState) × (order : Option
                OrderState)
              × (r.1 ≡ changed us totals order context now "APPLIED" none none t)
              × May order))

  stale-Writes : Ensures Writes (ok (stale_result, t))
  stale-Writes = Ensures-ok (stale_result, t) (inl (refl, refl))

  apply_rows-Writes :
      (cs us : List InventoryState) (uz cz : Dict String (List InventoryState))
      (order : Option OrderState)
      → May order
      → Ensures Writes (apply_rows session now context t cs us uz cz order)
  apply_rows-Writes cs us uz cz order may = record {
    of = λ r done.
        let (totals, _, _, same, written) =
          apply_rows-eq-ok session now context t cs us uz cz order r.0 r.1 done in
        inr (same, (us, totals, order, written, may));
  }

  one_row :
      (last_ts : List ℤ) (rest : Result (ProcessResult × Tables))
      → (is_stale context.occurred_at last_ts ≡ false → Ensures Writes rest)
      → Ensures Writes (if is_stale context.occurred_at last_ts then ok (stale_result, t) else rest)
  one_row last_ts rest a =
      Ensures-if (is_stale context.occurred_at last_ts) (ok (stale_result, t)) rest
        (λ _. stale-Writes) a

  apply_row-Writes :
      (zone_id : String) (c u : InventoryState)
      → Ensures Writes (apply_row session now context t zone_id c u)
  unfolding apply_row
  apply_row-Writes zone_id c u = apply_rows-Writes (c ∷ []) (u ∷ []) _ _ none none_may

  received-Writes : Ensures Writes (process_product_received session now context t)
  unfolding process_product_received
  received-Writes =
      Ensures-bind (require_positive (get "quantity" context.event) "quantity") _
        λ _ _. Ensures-bind (require_key context) _ λ key _. one_row _ _ λ _. apply_row-Writes _ _ _

  shipped-Writes : Ensures Writes (process_product_shipped session now context t)
  unfolding process_product_shipped
  shipped-Writes =
      Ensures-bind (require_positive (get "quantity" context.event) "quantity") _ λ _ _.
        Ensures-bind (require_key context) _
          λ key _. one_row _ _ λ _. Ensures-then _ _ (apply_row-Writes _ _ _)

  reserved-Writes : Ensures Writes (process_product_reserved session now context t)
  unfolding process_product_reserved
  reserved-Writes =
      Ensures-bind (require_positive (get "quantity" context.event) "quantity") _ λ _ _.
        Ensures-bind (require_key context) _
          λ key _. one_row _ _ λ _. Ensures-then _ _ (apply_row-Writes _ _ _)

  released-Writes : Ensures Writes (process_product_released session now context t)
  unfolding process_product_released
  released-Writes =
      Ensures-bind (require_positive (get "quantity" context.event) "quantity") _ λ _ _.
        Ensures-bind (require_key context) _
          λ key _. one_row _ _ λ _. Ensures-then _ _ (apply_row-Writes _ _ _)

  counted-Writes : Ensures Writes (process_inventory_counted session now context t)
  unfolding process_inventory_counted
  counted-Writes =
      Ensures-bind (require_non_negative (get "counted_quantity" context.event) "counted_quantity")
        _
        λ _ _. Ensures-bind (require_key context) _ λ key _. one_row _ _ λ _. apply_row-Writes _ _ _

  moved-Writes : Ensures Writes (process_product_moved session now context t)
  unfolding process_product_moved move_rows
  moved-Writes = Ensures-bind (require_positive (get "quantity" context.event) "quantity") _ λ _ _.
      Ensures-bind (require_text (get "product_id" context.event) "product_id") _ λ _ _.
        Ensures-bind (require_text (get "from_zone_id" context.event) "from_zone_id") _ λ _ _.
          Ensures-bind (require_text (get "to_zone_id" context.event) "to_zone_id") _ λ _ _.
            Ensures-then _ _
              (one_row _ _ λ _. Ensures-then _ _ (apply_rows-Writes _ _ _ _ none none_may))

  create_order-Writes :
      (order_id : String) (items : List OrderItemData)
      → get_order t order_id ≡ none
      → Ensures Writes (create_order session now context t order_id items)
  unfolding create_order
  create_order-Writes order_id items new =
      Ensures-bind (reserve_order_items now context t items) _ λ rows _.
        Ensures-bind (build_totals now t context.occurred_at rows.0 rows.1) _ λ totals _.
          let order = some (created_order now context order_id items) in
          Ensures-bind
            (apply_state_change session now rows.1 totals order context "APPLIED" none none t) _
            λ t' written.
              Ensures-ok (applied_result, t')
                (inr (
                  refl,
                  (
                    rows.1,
                    totals,
                    order,
                    apply_state_change-eq-ok rows.1 totals order context now "APPLIED" none none t
                        session t' written,
                    may_create order_id items new,
                  ),
                ))

  complete_order-Writes :
      (order_id : String) (order : OrderState)
      → get_order t order_id ≡ some order
      → Ensures Writes (complete_order session now context t order_id order)
  unfolding complete_order
  complete_order-Writes order_id order found =
      Ensures-if (ltb_ℤ context.occurred_at order.last_event_ts) (ok (stale_result, t)) _
        (λ _. stale-Writes)
        λ _. Ensures-reject_if _ _ _ _ λ open_order.
          Ensures-bind (complete_order_rows now context t (group_items order.items)) _ λ rows _.
            apply_rows-Writes rows.0 rows.1 _ _ (some (completed_order now context order))
              (may_complete order_id order found (status_created order.status open_order))

  created-Writes : Ensures Writes (process_order_created session now context t)
  unfolding process_order_created
  created-Writes =
      Ensures-bind (require_text (get "order_id" context.event) "order_id") _ λ order_id _.
        Ensures-bind (normalize_items (get "items" context.event)) _ λ items _.
          elim (get_order t order_id)
              as (λ stored.
                get_order t order_id ≡ stored
                → Ensures Writes (elim stored [
                  | some existing ↦
                      if ltb_ℤ context.occurred_at existing.last_event_ts
                      then ok (stale_result, t)
                      else raise order_already_exists (order_exists order_id)
                  | none ↦ create_order session now context t order_id items
                ])) [
                  | some existing ↦ λ _.
                      Ensures-if (ltb_ℤ context.occurred_at existing.last_event_ts)
                        (ok (stale_result, t)) (raise order_already_exists (order_exists order_id))
                        (λ _. stale-Writes)
                        (λ _. Ensures-raise order_already_exists (order_exists order_id))
                  | none ↦ λ new. create_order-Writes order_id items new
                ]
            refl

  completed-Writes : Ensures Writes (process_order_completed session now context t)
  unfolding process_order_completed
  completed-Writes =
      Ensures-bind (require_text (get "order_id" context.event) "order_id") _ λ order_id _.
        elim (get_order t order_id)
            as (λ stored.
              get_order t order_id ≡ stored
              → Ensures Writes (elim stored [
                | none ↦ raise order_not_found (order_missing order_id)
                | some order ↦ complete_order session now context t order_id order
              ])) [
                | none ↦ λ _. Ensures-raise order_not_found (order_missing order_id)
                | some order ↦ λ found. complete_order-Writes order_id order found
              ]
          refl

  arm :
      (name : String) (handler rest : Result (ProcessResult × Tables))
      → Ensures Writes handler
      → Ensures Writes rest
      → Ensures Writes (if context.event_type == name then handler else rest)
  arm name handler rest a b = Ensures-if (context.event_type == name) handler rest (λ _. a) (λ _. b)

  pub dispatch-Writes : Ensures Writes (dispatch session now context t)
  unfolding dispatch
  dispatch-Writes = arm "PRODUCT_RECEIVED" _ _ (received-Writes) (
      arm "PRODUCT_SHIPPED" _ _ (shipped-Writes) (
        arm "PRODUCT_MOVED" _ _ (moved-Writes) (
          arm "PRODUCT_RESERVED" _ _ (reserved-Writes) (
            arm "PRODUCT_RELEASED" _ _ (released-Writes) (
              arm "INVENTORY_COUNTED" _ _ (counted-Writes) (
                arm "ORDER_CREATED" _ _ (created-Writes) (
                  arm "ORDER_COMPLETED" _ _ (completed-Writes) (
                    Ensures-raise unknown_event_type
                      (unsupported_event_type context.event_type)))))))))
