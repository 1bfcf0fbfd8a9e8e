-- ===== src/Inventory/Batch.antt =====
-- What a batch of `apply_state_change` leaves in each table.
use smart_warehouse_platform.Prelude.{
  String, ◌≡◌, refl, List, [], ◌∷◌, ◌++◌, Option, none, some, arith, map, ◌∙◌, ap, if◌then◌else◌,
}
use smart_warehouse_platform.Prelude.Eq.{◌==◌, string_eq, int_eq}
use smart_warehouse_platform.Domain.Models.{
  Instant, InventoryState, ProductTotalsState, OrderState, EventContext,
}
use smart_warehouse_platform.Domain.Result.{ErrorCode, Message, ok}
use smart_warehouse_platform.Repository.Schema.{
  Tables, Statement, upsert_total, insert_processed, insert_history,
}
use smart_warehouse_platform.Repository.Cql.{Session, run_batch, run_statement, place_history}
use smart_warehouse_platform.Repository.{
  row_statements, order_statements, processed_row, history_row, change_batch, apply_state_change,
  date_of_ms, or_crash,
}
use smart_warehouse_platform.Inventory.Coherence.{put_row, put_rows}
use smart_warehouse_platform.Inventory.Totals.{put_totals}

run_batch-rows :
    (us : List InventoryState) (rest : List Statement) (t : Tables)
    → run_batch (row_statements us ++ rest) t ≡ run_batch rest (put_rows us t)
unfolding run_batch row_statements put_rows put_row
run_batch-rows [] rest t = refl
run_batch-rows (u ∷ us) rest t = run_batch-rows us rest (put_row u t)

run_batch-totals :
    (totals : List ProductTotalsState) (rest : List Statement) (t : Tables)
    → run_batch (map upsert_total totals ++ rest) t ≡ run_batch rest (put_totals totals t)
unfolding run_batch put_totals
run_batch-totals [] rest t = refl
run_batch-totals (total ∷ totals) rest t =
    run_batch-totals totals rest (run_statement (upsert_total total) t)

-- Writing rows changes the three inventory tables only.
put_rows_frame :
    (us : List InventoryState) (t : Tables)
    → put_rows us t ≡ record t {
      inventory_by_product_zone = (put_rows us t).inventory_by_product_zone;
      inventory_by_product = (put_rows us t).inventory_by_product;
      inventory_by_zone = (put_rows us t).inventory_by_zone;
    }
unfolding put_rows put_row
put_rows_frame [] t = refl
put_rows_frame (u ∷ us) t = put_rows_frame us (put_row u t)

-- Writing totals changes that table only, and depends on that table only.
put_totals_frame :
    (totals : List ProductTotalsState) (t s : Tables)
    → t.inventory_totals_by_product ≡ s.inventory_totals_by_product
    → put_totals totals t
      ≡ record t { inventory_totals_by_product = (put_totals totals s).inventory_totals_by_product }
unfolding put_totals run_statement
put_totals_frame [] t s h = λ i. record t { inventory_totals_by_product = h i }
put_totals_frame (total ∷ totals) t s h =
    put_totals_frame totals (run_statement (upsert_total total) t)
      (run_statement (upsert_total total) s)
      (λ i p. if total.product_id == p then some total else h i p)

or_crash-eq-ok {ℓ} : {A : Type ℓ} {a : A} (o : Option A) → or_crash o ≡ ok a → o ≡ some a
or_crash-eq-ok none h = cc
or_crash-eq-ok (some b) h = ground arith

abbrev pub order_table :
    Option OrderState → (String → Option OrderState) → String → Option OrderState
order_table none orders = orders
order_table (some order) orders = λ o. if order.order_id == o then some order else orders o

tail_lem :
    (order : Option OrderState) (context : EventContext) (now : Instant) (outcome : String)
    (code : Option ErrorCode) (reason : Option Message) (t : Tables)
    → run_batch
        (order_statements order
          ++ (insert_processed (processed_row context now)
              ∷ insert_history (history_row context now outcome code reason)
              ∷ []))
        t
      ≡ record t {
        orders_by_id = order_table order t.orders_by_id;
        processed_events_by_id = λ i.
            if context.event_id == i
            then some (processed_row context now)
            else t.processed_events_by_id i;
        event_history_by_day = λ d.
            if date_of_ms context.occurred_at == d
            then place_history
                (history_row context now outcome code reason)
                (t.event_history_by_day d)
            else t.event_history_by_day d;
      }
unfolding run_batch run_statement order_statements processed_row history_row
tail_lem none context now outcome code reason t = refl
tail_lem (some order) context now outcome code reason t = refl

module _ (us : List InventoryState) (totals : List ProductTotalsState) (order : Option OrderState)
    (context : EventContext) (now : Instant) (outcome : String) (code : Option ErrorCode)
    (reason : Option Message) (t : Tables) where
  -- The tables after the batch, one by one.
  abbrev pub changed : Tables
  changed = record t {
    inventory_by_product_zone = (put_rows us t).inventory_by_product_zone;
    inventory_by_product = (put_rows us t).inventory_by_product;
    inventory_by_zone = (put_rows us t).inventory_by_zone;
    inventory_totals_by_product = (put_totals totals t).inventory_totals_by_product;
    orders_by_id = order_table order t.orders_by_id;
    processed_events_by_id = λ i.
        if context.event_id == i
        then some (processed_row context now)
        else t.processed_events_by_id i;
    event_history_by_day = λ d.
        if date_of_ms context.occurred_at == d
        then place_history (history_row context now outcome code reason) (t.event_history_by_day d)
        else t.event_history_by_day d;
  }

  rows_and_totals : put_totals totals (put_rows us t) ≡ record t {
    inventory_by_product_zone = (put_rows us t).inventory_by_product_zone;
    inventory_by_product = (put_rows us t).inventory_by_product;
    inventory_by_zone = (put_rows us t).inventory_by_zone;
    inventory_totals_by_product = (put_totals totals t).inventory_totals_by_product;
  }
  rows_and_totals =
      put_totals_frame totals (put_rows us t) t
        (ap (λ (x : Tables). x.inventory_totals_by_product) (put_rows_frame us t))
      ∙ ap
          (λ (x : Tables). record x {
            inventory_totals_by_product = (put_totals totals t).inventory_totals_by_product;
          })
          (put_rows_frame us t)

  -- The batch that `apply_state_change` builds leaves these tables.
  pub change_batch_lem :
      run_batch (change_batch us totals order context now outcome code reason) t ≡ changed
  unfolding change_batch
  change_batch_lem =
      let tail : List Statement =
        order_statements order
        ++ (insert_processed (processed_row context now)
            ∷ insert_history (history_row context now outcome code reason)
            ∷ []) in
      run_batch-rows us (map upsert_total totals ++ tail) t
      ∙ (run_batch-totals totals tail (put_rows us t)
          ∙ (tail_lem order context now outcome code reason (put_totals totals (put_rows us t))
              ∙ ap
                  (λ (x : Tables). record x {
                    orders_by_id = order_table order x.orders_by_id;
                    processed_events_by_id = λ i.
                        if context.event_id == i
                        then some (processed_row context now)
                        else x.processed_events_by_id i;
                    event_history_by_day = λ d.
                        if date_of_ms context.occurred_at == d
                        then place_history (history_row context now outcome code reason)
                            (x.event_history_by_day d)
                        else x.event_history_by_day d;
                  })
                  rows_and_totals))

  pub apply_state_change-eq-ok :
      (session : Session) (t' : Tables)
      → apply_state_change session now us totals order context outcome code reason t ≡ ok t'
      → t' ≡ changed
  unfolding apply_state_change
  apply_state_change-eq-ok session t' h =
      session.execute_runs t (change_batch us totals order context now outcome code reason) t'
        (or_crash-eq-ok _ h)
      ∙ change_batch_lem
