-- ===== src/Inventory/Orders.antt =====
-- The two order handlers keep the warehouse consistent.
use smart_warehouse_platform.Prelude.{
  String, ℤ, ◌≡◌, refl, List, [], ◌∷◌, some, none, int_laws, ltb_ℤ, ltb_ℤ→ge, ◌∙◌, ap, subst, Dict,
  IsDict, not, if◌then◌else◌,
}
use smart_warehouse_platform.Prelude.Eq.{◌==◌, string_eq}
use smart_warehouse_platform.Domain.Value.{get}
use smart_warehouse_platform.Domain.Models.{
  Instant, InventoryKey, InventoryState, OrderItemData, OrderState, EventContext, key_eq,
}
use smart_warehouse_platform.Domain.Result.{
  Result, ok, raise, ProcessResult, ◌>>=◌, ◌>>◌, >>=-eq-ok, insufficient_available,
  insufficient_reserved, below_reserve, reserved_below_shipment, order_not_completable,
  order_has_status, order_already_exists, order_not_found, order_exists, order_missing,
}
use smart_warehouse_platform.Repository.Schema.{Tables}
use smart_warehouse_platform.Repository.Cql.{Session}
use smart_warehouse_platform.Processor.Checks.{require_text}
use smart_warehouse_platform.Processor.Rows.{
  get_inventory, rows_by_zone, group_items, normalize_items,
}
use smart_warehouse_platform.Repository.{get_order}
use smart_warehouse_platform.Processor.Capacity.{validate_zone_capacities}
use smart_warehouse_platform.Processor.Handlers.{stale_result, reserve_row, apply_rows, reject_if}
use smart_warehouse_platform.Processor.Orders.{
  complete_row, created_order, completed_order, reserve_order_rows, complete_order_rows,
  reserve_order_items, create_order, complete_order, process_order_created, process_order_completed,
}
use smart_warehouse_platform.Inventory.Coherence.{IsCoherent}
use smart_warehouse_platform.Inventory.Changes.{Changes}
use smart_warehouse_platform.Inventory.Consistency.{IsConsistent, apply_rows-IsConsistent}
use smart_warehouse_platform.Inventory.Ensures.{
  Ensures, Ensures-ok, Ensures-if, Ensures-bind, Ensures-reject_if, Ensures-raise,
  get_inventory-IsRead,
}
use smart_warehouse_platform.Inventory.Handlers.{LeavesConsistent}
use smart_warehouse_platform.Inventory.Levels.{Overwrites-Changes}
use smart_warehouse_platform.Inventory.OrderRows.{
  OrderRows, StaysStock, OrderRows-Overwrites, OrderRows-AreStock,
}
use smart_warehouse_platform.Inventory.Items.{
  IsDict-group_items_from, AreNonneg, ArePositive, AreNonneg-group_items_from,
  normalize_items-ArePositive,
}

OrderRows-Changes :
    (now : Instant) (t : Tables) (h : IsCoherent t) (d : Dict InventoryKey ℤ)
    (cs us : List InventoryState)
    → IsDict d
    → OrderRows now t StaysStock d cs us
    → Changes t cs us
OrderRows-Changes now t h d cs us q rows =
    Overwrites-Changes t cs us (OrderRows-Overwrites now t StaysStock h d cs us q rows)
      (OrderRows-AreStock now t d cs us rows)

module _ (now : Instant) (context : EventContext) (t : Tables) (h : IsCoherent t) where
  reserve_order_rows-OrderRows :
      (d : Dict InventoryKey ℤ)
      → AreNonneg d
      → Ensures
          (λ rows. OrderRows now t StaysStock d rows.0 rows.1)
          (reserve_order_rows now context t d)
  unfolding reserve_order_rows
  reserve_order_rows-OrderRows [] n = Ensures-ok ([], []) tt
  reserve_order_rows-OrderRows ((key, quantity) ∷ rest) n =
      let current = get_inventory now t key in
      let stock = (get_inventory-IsRead now t key h).2 in
      Ensures-reject_if (ltb_ℤ current.available_quantity quantity) insufficient_available
        (below_reserve current.available_quantity quantity) _
        λ enough. Ensures-bind (reserve_order_rows now context t rest) _ λ rows done.
          Ensures-ok (current ∷ rows.0, reserve_row now context quantity current ∷ rows.1)
            (
              refl,
              unfold reserve_row in refl,
              unfold reserve_row in
                  omega (int_laws, stock, n.0, ltb_ℤ→ge current.available_quantity quantity enough),
              (reserve_order_rows-OrderRows rest n.1).of rows done,
            )

  complete_order_rows-OrderRows :
      (d : Dict InventoryKey ℤ)
      → Ensures
          (λ rows. OrderRows now t StaysStock d rows.0 rows.1)
          (complete_order_rows now context t d)
  unfolding complete_order_rows
  complete_order_rows-OrderRows [] = Ensures-ok ([], []) tt
  complete_order_rows-OrderRows ((key, quantity) ∷ rest) =
      let current = get_inventory now t key in
      let stock = (get_inventory-IsRead now t key h).2 in
      Ensures-reject_if (ltb_ℤ current.reserved_quantity quantity) insufficient_reserved
        (reserved_below_shipment current.reserved_quantity quantity) _
        λ enough. Ensures-bind (complete_order_rows now context t rest) _ λ rows done.
          Ensures-ok (current ∷ rows.0, complete_row now context quantity current ∷ rows.1)
            (
              refl,
              unfold complete_row in refl,
              unfold complete_row in
                  omega (int_laws, stock, ltb_ℤ→ge current.reserved_quantity quantity enough),
              (complete_order_rows-OrderRows rest).of rows done,
            )

module _ (session : Session) (now : Instant) (context : EventContext) (t : Tables) where
  -- `create_order` ends in the steps of `apply_rows`, in another grouping.
  pub create_order-apply_rows :
      (order_id : String) (items : List OrderItemData) (r : ProcessResult × Tables)
      → create_order session now context t order_id items ≡ ok r
      → (rows : List InventoryState × List InventoryState) × (reserve_order_rows now context t
            (group_items items)
          ≡ ok rows)
        × (apply_rows session now context t rows.0 rows.1
              (rows_by_zone rows.1)
              (rows_by_zone rows.0)
              (some (created_order now context order_id items))
            ≡ ok r)
  unfolding create_order apply_rows
  create_order-apply_rows order_id items r done =
      let (rows, taken, rest) = >>=-eq-ok (reserve_order_items now context t items) _ done in
      let (rows', found, checked) =
        >>=-eq-ok (reserve_order_rows now context t (group_items items)) _
          (unfold reserve_order_items in taken) in
      let (u, validated, same) =
        >>=-eq-ok (validate_zone_capacities t (rows_by_zone rows'.1) (rows_by_zone rows'.0)) _
          checked in
      let same_rows : rows' ≡ rows = cc (same) in
      (
        rows,
        found ∙ ap ok same_rows,
        rw
            (subst
              (λ (x : List InventoryState × List InventoryState).
                validate_zone_capacities t (rows_by_zone x.1) (rows_by_zone x.0) ≡ ok tt)
              same_rows validated)
            rest,
      )

  abbrev pub complete_open : OrderState → Result (ProcessResult × Tables)
  complete_open order = do
    rows ← complete_order_rows now context t (group_items order.items)
    apply_rows session now context t rows.0 rows.1 (rows_by_zone rows.1) (rows_by_zone rows.0)
        (some (completed_order now context order))

module _ (session : Session) (now : Instant) (context : EventContext) (t : Tables)
    (h : IsConsistent t) where
  create_order-IsConsistent :
      (order_id : String) (items : List OrderItemData)
      → ArePositive items
      → Ensures LeavesConsistent (create_order session now context t order_id items)
  create_order-IsConsistent order_id items positive = record {
    of = λ r done.
        let (rows, found, applied) =
          create_order-apply_rows session now context t order_id items r done in
        apply_rows-IsConsistent session now context t rows.0 rows.1
          (OrderRows-Changes now t h.coherent (group_items items) rows.0 rows.1
            (unfold group_items in IsDict-group_items_from [] items tt)
            ((reserve_order_rows-OrderRows now context t h.coherent (group_items items)
                (unfold group_items in AreNonneg-group_items_from [] items tt positive)).of
              rows found))
          h (some (created_order now context order_id items)) r.0 r.1 applied;
  }

  complete_order-IsConsistent :
      (order_id : String) (order : OrderState)
      → Ensures LeavesConsistent (complete_order session now context t order_id order)
  unfolding complete_order
  complete_order-IsConsistent order_id order =
      Ensures-if (ltb_ℤ context.occurred_at order.last_event_ts) (ok (stale_result, t))
        (reject_if (not (order.status == "CREATED")) order_not_completable
            (order_has_status order_id order.status)
          >> complete_open session now context t order)
        (λ _. Ensures-ok (stale_result, t) h)
        λ _.
          Ensures-reject_if (not (order.status == "CREATED")) order_not_completable
            (order_has_status order_id order.status)
            (λ _. complete_open session now context t order)
            λ _.
              Ensures-bind (complete_order_rows now context t (group_items order.items)) _
                λ rows done. record {
                  of = λ r applied.
                      apply_rows-IsConsistent session now context t rows.0 rows.1
                        (OrderRows-Changes now t h.coherent (group_items order.items) rows.0 rows.1
                          (unfold group_items in IsDict-group_items_from [] order.items tt)
                          ((complete_order_rows-OrderRows now context t h.coherent
                              (group_items order.items)).of
                            rows done))
                        h (some (completed_order now context order)) r.0 r.1 applied;
                }

  pub created-IsConsistent : Ensures LeavesConsistent (process_order_created session now context t)
  unfolding process_order_created
  created-IsConsistent =
      Ensures-bind (require_text (get "order_id" context.event) "order_id") _ λ order_id _.
        Ensures-bind (normalize_items (get "items" context.event)) _ λ items done.
          elim (get_order t order_id)
            as (λ found. Ensures LeavesConsistent (elim found [
              | some existing ↦
                  if ltb_ℤ context.occurred_at existing.last_event_ts
                  then ok (stale_result, t)
                  else raise order_already_exists (order_exists order_id)
              | none ↦ create_order session now context t order_id items
            ])) [
              | some existing ↦
                  Ensures-if (ltb_ℤ context.occurred_at existing.last_event_ts)
                    (ok (stale_result, t)) (raise order_already_exists (order_exists order_id))
                    (λ _. Ensures-ok (stale_result, t) h)
                    (λ _. Ensures-raise order_already_exists (order_exists order_id))
              | none ↦
                  create_order-IsConsistent order_id items
                    ((normalize_items-ArePositive (get "items" context.event)).of items done)
            ]

  pub completed-IsConsistent :
      Ensures LeavesConsistent (process_order_completed session now context t)
  unfolding process_order_completed
  completed-IsConsistent =
      Ensures-bind (require_text (get "order_id" context.event) "order_id") _ λ order_id _.
        elim (get_order t order_id)
          as (λ found. Ensures LeavesConsistent (elim found [
            | none ↦ raise order_not_found (order_missing order_id)
            | some order ↦ complete_order session now context t order_id order
          ])) [
            | none ↦ Ensures-raise order_not_found (order_missing order_id)
            | some order ↦ complete_order-IsConsistent order_id order
          ]
