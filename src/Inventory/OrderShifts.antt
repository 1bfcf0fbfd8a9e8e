-- ===== src/Inventory/OrderShifts.antt =====
-- The order handlers shift the stock by the lines of their orders.
use smart_warehouse_platform.Prelude.{
  String, ◌≡◌, refl, List, some, none, ltb_ℤ, ◌∙◌, sym, ap, if◌then◌else◌, pos, ◌-ℤ◌,
}
use smart_warehouse_platform.Prelude.Eq.{string_eq}
use smart_warehouse_platform.Domain.Value.{get}
use smart_warehouse_platform.Domain.Models.{
  Instant, InventoryKey, OrderItemData, OrderState, EventContext, key_eq,
}
use smart_warehouse_platform.Domain.Result.{
  ok, raise, order_already_exists, order_not_found, order_exists, order_missing,
}
use smart_warehouse_platform.Repository.Schema.{Tables}
use smart_warehouse_platform.Repository.Cql.{Session}
use smart_warehouse_platform.Processor.Checks.{require_text}
use smart_warehouse_platform.Processor.Rows.{group_items, normalize_items}
use smart_warehouse_platform.Repository.{get_order}
use smart_warehouse_platform.Processor.Handlers.{stale_result}
use smart_warehouse_platform.Processor.Orders.{
  complete_order_rows, create_order, complete_order, process_order_created, process_order_completed,
}
use smart_warehouse_platform.Inventory.Coherence.{IsCoherent}
use smart_warehouse_platform.Inventory.Ensures.{
  Ensures, Ensures-if, Ensures-bind, Ensures-raise, Ensures-then,
}
use smart_warehouse_platform.Inventory.Effects.{
  Effect, order_lines, lines_of, order_named, created_effect, completed_effect,
}
use smart_warehouse_platform.Inventory.Shifts.{Shifts, stale-Shifts, require_text-eq-ok}
use smart_warehouse_platform.Inventory.Orders.{create_order-apply_rows, complete_open}
use smart_warehouse_platform.Inventory.OrderLines.{same, less, normalize_items-lines}
use smart_warehouse_platform.Inventory.OrderMoves.{
  collected-Shifts, zero, reserve_order_rows-MovesBy, complete_order_rows-MovesBy, grouped_lines,
  less_lines, grouped_at-zero,
}

module _ (session : Session) (now : Instant) (context : EventContext) (t : Tables)
    (h : IsCoherent t) where
  create_order-Shifts :
      (e : Effect) (order_id : String) (items : List OrderItemData)
      → ((k : InventoryKey) → pos 0 -ℤ order_lines items k ≡ e.more_available k)
      → ((k : InventoryKey) → order_lines items k ≡ e.more_reserved k)
      → Ensures (Shifts session now context t e) (create_order session now context t order_id items)
  create_order-Shifts e order_id items a b = record {
    of = λ r done.
        let (rows, found, applied) =
          create_order-apply_rows session now context t order_id items r done in
        (collected-Shifts session now context t h e less same items (λ k. less_lines items k ∙ a k)
            (λ k. grouped_lines items k ∙ b k) rows.0 rows.1 _ _ _
            ((reserve_order_rows-MovesBy session now context t (group_items items)).of rows
              found)).of
          r applied;
  }

  complete_open-Shifts :
      (e : Effect) (order : OrderState)
      → ((k : InventoryKey) → pos 0 ≡ e.more_available k)
      → ((k : InventoryKey) → pos 0 -ℤ order_lines order.items k ≡ e.more_reserved k)
      → Ensures (Shifts session now context t e) (complete_open session now context t order)
  complete_open-Shifts e order a b =
      Ensures-bind (complete_order_rows now context t (group_items order.items)) _ λ rows done.
        collected-Shifts session now context t h e zero less order.items
          (λ k. grouped_at-zero (group_items order.items) k ∙ a k)
          (λ k. less_lines order.items k ∙ b k) rows.0 rows.1 _ _ _
          ((complete_order_rows-MovesBy session now context t (group_items order.items)).of rows
            done)

  pub created-Shifts :
      Ensures
        (Shifts session now context t (created_effect context.event))
        (process_order_created session now context t)
  unfolding process_order_created
  created-Shifts =
      let e = created_effect context.event in
      Ensures-bind (require_text (get "order_id" context.event) "order_id") _ λ order_id _.
        Ensures-bind (normalize_items (get "items" context.event)) _ λ items done.
          let lines = λ (k : InventoryKey).
            (normalize_items-lines (get "items" context.event) k).of items done in
          elim (get_order t order_id)
            as (λ found. Ensures (Shifts session now context t e) (elim found [
              | some existing ↦
                  if ltb_ℤ context.occurred_at existing.last_event_ts
                  then ok (stale_result, t)
                  else raise order_already_exists (order_exists order_id)
              | none ↦ create_order session now context t order_id items
            ])) [
              | some existing ↦
                  Ensures-if (ltb_ℤ context.occurred_at existing.last_event_ts)
                    (ok (stale_result, t)) (raise order_already_exists (order_exists order_id))
                    (λ _. stale-Shifts session now context t e)
                    (λ _. Ensures-raise order_already_exists (order_exists order_id))
              | none ↦
                  create_order-Shifts e order_id items (λ k. ap (λ n. pos 0 -ℤ n) (lines k)) lines
            ]

  complete_order-Shifts :
      (e : Effect) (order_id : String) (order : OrderState)
      → ((k : InventoryKey) → pos 0 ≡ e.more_available k)
      → ((k : InventoryKey) → pos 0 -ℤ order_lines order.items k ≡ e.more_reserved k)
      → Ensures
          (Shifts session now context t e)
          (complete_order session now context t order_id order)
  unfolding complete_order
  complete_order-Shifts e order_id order a b =
      Ensures-if (ltb_ℤ context.occurred_at order.last_event_ts) (ok (stale_result, t)) _
        (λ _. stale-Shifts session now context t e)
        (λ _. Ensures-then _ _ (complete_open-Shifts e order a b))

  pub completed-Shifts :
      Ensures
        (Shifts session now context t (completed_effect context.event t))
        (process_order_completed session now context t)
  unfolding process_order_completed
  completed-Shifts =
      let e = completed_effect context.event t in
      Ensures-bind (require_text (get "order_id" context.event) "order_id") _ λ order_id named.
        let same_order : order_named t (get "order_id" context.event) ≡ get_order t order_id =
          ap (order_named t) (require_text-eq-ok (get "order_id" context.event) "order_id" named) in
        elim (get_order t order_id)
            as (λ found.
              get_order t order_id ≡ found
              → Ensures (Shifts session now context t e) (elim found [
                | none ↦ raise order_not_found (order_missing order_id)
                | some order ↦ complete_order session now context t order_id order
              ])) [
                | none ↦ λ _. Ensures-raise order_not_found (order_missing order_id)
                | some order ↦ λ found.
                    complete_order-Shifts e order_id order (λ k. refl)
                      (λ k. ap (λ o. pos 0 -ℤ lines_of o k) (sym (same_order ∙ found)))
              ]
          refl
