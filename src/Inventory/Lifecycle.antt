-- ===== src/Inventory/Lifecycle.antt =====
-- The orders of the table: they are created once, and completed once.
use smart_warehouse_platform.Prelude.{
  Bool-cases, sym, ap, subst, ◌∙◌, arith, String, ◌≡◌, refl, List, Option, none, some, inl, inr,
}
use smart_warehouse_platform.Prelude.Eq.{◌==◌, string_eq, eq_of_beq}
use smart_warehouse_platform.Domain.Models.{Instant, OrderItemData, OrderState, EventContext}
use smart_warehouse_platform.Domain.Result.{Result, ok, ProcessResult}
use smart_warehouse_platform.Repository.Schema.{Tables}
use smart_warehouse_platform.Repository.Cql.{Session}
use smart_warehouse_platform.Repository.{get_order}
use smart_warehouse_platform.Processor.Handlers.{applied_result}
use smart_warehouse_platform.Processor.Orders.{created_order, completed_order}
use smart_warehouse_platform.Inventory.Ensures.{Ensures, Ensures-ok, Ensures-if}
use smart_warehouse_platform.Repository.{is_event_processed}
use smart_warehouse_platform.Domain.Result.{invalid, crashed}
use smart_warehouse_platform.Processor.Process.{
  process, dispatch, caught, duplicate_result, dlq_result,
}
use smart_warehouse_platform.Inventory.Settles.{Writes, dispatch-Writes}
use smart_warehouse_platform.Inventory.Batch.{order_table}
use smart_warehouse_platform.Inventory.Ensures.{Ensures-crashed}

-- What may happen to an order.
pub data OrderStep (before after : Option OrderState) : Type 0 where
  unchanged : after ≡ before → OrderStep before after
  was_created :
      before ≡ none
      → (order : OrderState) → after ≡ some order
      → order.status ≡ "CREATED"
      → OrderStep before after
  was_completed :
      (created order : OrderState)
      → before ≡ some created
      → after ≡ some order
      → created.status ≡ "CREATED"
      → order.status ≡ "COMPLETED"
      → order.items ≡ created.items
      → OrderStep before after

-- Every order is stored under its id.
abbrev pub OrdersAreKeyed : Tables → Type 0
OrdersAreKeyed t =
    (order_id : String) (order : OrderState)
    → t.orders_by_id order_id ≡ some order
    → order.order_id ≡ order_id

module _ (session : Session) (now : Instant) (context : EventContext) (t : Tables)
    (keyed : OrdersAreKeyed t) where
  abbrev pub KeepsOrders : ProcessResult × Tables → Type 0
  KeepsOrders r =
      OrdersAreKeyed r.1
      × ((order_id : String) → OrderStep (t.orders_by_id order_id) (r.1.orders_by_id order_id))

  abbrev MayWrite : Option OrderState → Type 0
  MayWrite none = Unit
  MayWrite (some order) = OrderStep (t.orders_by_id order.order_id) (some order)

  written_order :
      (order : Option OrderState) (t' : Tables)
      → MayWrite order
      → t'.orders_by_id ≡ order_table order t.orders_by_id
      → KeepsOrders (applied_result, t')
  written_order none t' may e = (
    (λ order_id order found. keyed order_id order (ap (λ f. f order_id) (sym e) ∙ found)),
    λ order_id. unchanged (ap (λ f. f order_id) e),
  )
  written_order (some order) t' may e = (
    (λ order_id found_order found.
        let kept = keyed order_id found_order in
        let same = ap (λ f. f order_id) (sym e) ∙ found in
        ground (arith, kept, same, string_eq.beq_iff order.order_id order_id)),
    λ order_id. elim (Bool-cases (order.order_id == order_id)) [
      | inl b ↦
          let stored : t'.orders_by_id order_id ≡ some order = ap (λ f. f order_id) e ∙ rw b refl in
          subst (λ v. OrderStep (t.orders_by_id order_id) v) (sym stored)
            (subst (λ q. OrderStep (t.orders_by_id q) (some order))
              (eq_of_beq order.order_id order_id b) may)
      | inr b ↦ unchanged (ap (λ f. f order_id) e ∙ rw b refl)
    ],
  )

  created_MayWrite :
      (order_id : String) (items : List OrderItemData)
      → get_order t order_id ≡ none
      → MayWrite (some (created_order now context order_id items))
  created_MayWrite order_id items new =
      was_created new (created_order now context order_id items) refl refl

  completed_MayWrite :
      (order_id : String) (order : OrderState)
      → get_order t order_id ≡ some order
      → order.status ≡ "CREATED"
      → MayWrite (some (completed_order now context order))
  completed_MayWrite order_id order found status =
      was_completed order (completed_order now context order)
        (ap t.orders_by_id (keyed order_id order found) ∙ found) refl status refl refl

  unwritten : (r : ProcessResult) → KeepsOrders (r, t)
  unwritten r = (keyed, λ order_id. unchanged refl)

  written :
      (r : ProcessResult × Tables)
      → Writes session now context t MayWrite tt created_MayWrite completed_MayWrite r
      → KeepsOrders r
  written r (inl (e, same)) = subst (λ x. KeepsOrders (r.0, x)) (sym same) (unwritten r.0)
  written r (inr (e, (us, totals, order, same, may))) =
      written_order order r.1 may (ap (λ (x : Tables). x.orders_by_id) same)

  caught-KeepsOrders :
      (m : Result (ProcessResult × Tables))
      → Ensures (Writes session now context t MayWrite tt created_MayWrite completed_MayWrite) m
      → Ensures KeepsOrders (caught t m)
  caught-KeepsOrders (ok r) h = Ensures-ok r (written r (h.of r refl))
  caught-KeepsOrders (invalid e) h = Ensures-ok (dlq_result e, t) (unwritten (dlq_result e))
  caught-KeepsOrders crashed h = Ensures-crashed

  process-Ensures : Ensures KeepsOrders (process session now context t)
  unfolding process
  process-Ensures =
      Ensures-if (is_event_processed t context.event_id) (ok (duplicate_result, t))
        (caught t (dispatch session now context t))
        (λ _. Ensures-ok (duplicate_result, t) (unwritten duplicate_result))
        (λ _.
          caught-KeepsOrders (dispatch session now context t)
            (dispatch-Writes session now context t MayWrite tt created_MayWrite completed_MayWrite))

-- Whatever `process` returns, every order is as before, or is new with the status CREATED where
-- there was none, or had that status and is now COMPLETED with the same items; and every order is
-- still stored under its id.
pub process-KeepsOrders :
    (session : Session) (now : Instant) (context : EventContext) (t : Tables) (r : ProcessResult)
    (t' : Tables) (keyed : OrdersAreKeyed t)
    → process session now context t ≡ ok (r, t')
    → KeepsOrders session now context t keyed (r, t')
process-KeepsOrders session now context t r t' keyed done =
    (process-Ensures session now context t keyed).of (r, t') done
