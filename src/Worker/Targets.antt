-- ===== src/Worker/Targets.antt =====
-- What the targets of a handling have in common.
use smart_warehouse_platform.Prelude.{
  arith, String, ◌≡◌, true, List, [], Option, none, some, sym, subst, ap, Bool-cases,
}
use smart_warehouse_platform.Prelude.Eq.{◌==◌, string_eq}
use text.Mathlib.TextEquality.{eq_iff}
use smart_warehouse_platform.Domain.Models.{
  Instant, EventContext, InventoryState, ProductTotalsState, OrderState,
}
use smart_warehouse_platform.Domain.Result.{ErrorCode, Message, ProcessResult}
use smart_warehouse_platform.Repository.Schema.{Tables}
use smart_warehouse_platform.Repository.{is_event_processed}
use smart_warehouse_platform.Processor.Handlers.{applied_result}
use smart_warehouse_platform.Inventory.Batch.{changed}
use smart_warehouse_platform.Inventory.Coherence.{put_rows}
use smart_warehouse_platform.Inventory.Totals.{put_totals}
use smart_warehouse_platform.Inventory.Consistency.{IsConsistent}
use smart_warehouse_platform.Inventory.Process.{process-IsConsistent}
use smart_warehouse_platform.Worker.State.{World, Services}
use smart_warehouse_platform.Worker.Ends.{
  recorded, IsTarget, leave_duplicate, record_stale, record_rejected, keep_applied,
}

abbrev pub WasProcessed : Tables → String → Type 0
WasProcessed t event_id = is_event_processed t event_id ≡ true

module _ (us : List InventoryState) (totals : List ProductTotalsState) (order : Option OrderState)
    (context : EventContext) (now : Instant) (outcome : String) (code : Option ErrorCode)
    (reason : Option Message) (t : Tables) where
  pub changed-WasProcessed :
      WasProcessed (changed us totals order context now outcome code reason t) context.event_id
  changed-WasProcessed = ground (arith, eq_iff context.event_id context.event_id)

  pub changed_keeps :
      (i : String)
      → WasProcessed t i
      → WasProcessed (changed us totals order context now outcome code reason t) i
  changed_keeps i h = ground (arith, h, Bool-cases (context.event_id == i))

module _ (services : Services) (now : Instant) (context : EventContext) (w : World)
    (r : ProcessResult) (target : World) where
  pub target-WasProcessed :
      IsTarget services now context w r target → WasProcessed target.tables context.event_id
  target-WasProcessed (leave_duplicate seen e same) =
      subst (λ (x : World). WasProcessed x.tables context.event_id) (sym same) seen
  target-WasProcessed (record_stale e same) =
      subst (λ (x : World). WasProcessed x.tables context.event_id) (sym same)
        (changed-WasProcessed [] [] none context now "STALE" r.error_code r.error_reason w.tables)
  target-WasProcessed (record_rejected e d q same) =
      subst (λ (x : World). WasProcessed x.tables context.event_id) (sym same)
        (changed-WasProcessed [] [] none context now "DLQ" (some e.error_code) (some e.message)
          w.tables)
  target-WasProcessed (keep_applied e t' done (us, totals, order, written) same) =
      subst (λ (x : World). WasProcessed x.tables context.event_id) (sym same)
        (subst (λ x. WasProcessed x context.event_id) (sym written)
          (changed-WasProcessed us totals order context now "APPLIED" none none w.tables))

  pub target-commits : IsTarget services now context w r target → target.commits ≡ w.commits
  target-commits (leave_duplicate seen e same) = ap (λ (x : World). x.commits) same
  target-commits (record_stale e same) = ap (λ (x : World). x.commits) same
  target-commits (record_rejected e d q same) = ap (λ (x : World). x.commits) same
  target-commits (keep_applied e t' done written same) = ap (λ (x : World). x.commits) same

  pub target_keeps :
      (i : String)
      → WasProcessed w.tables i
      → IsTarget services now context w r target
      → WasProcessed target.tables i
  target_keeps i h (leave_duplicate seen e same) =
      subst (λ (x : World). WasProcessed x.tables i) (sym same) h
  target_keeps i h (record_stale e same) =
      subst (λ (x : World). WasProcessed x.tables i) (sym same)
        (changed_keeps [] [] none context now "STALE" r.error_code r.error_reason w.tables i h)
  target_keeps i h (record_rejected e d q same) =
      subst (λ (x : World). WasProcessed x.tables i) (sym same)
        (changed_keeps [] [] none context now "DLQ" (some e.error_code) (some e.message) w.tables i
          h)
  target_keeps i h (keep_applied e t' done (us, totals, order, written) same) =
      subst (λ (x : World). WasProcessed x.tables i) (sym same)
        (subst (λ x. WasProcessed x i) (sym written)
          (changed_keeps us totals order context now "APPLIED" none none w.tables i h))

  recorded-IsConsistent :
      (outcome : String) (code : Option ErrorCode) (reason : Option Message) (t : Tables)
      → IsConsistent t
      → IsConsistent (recorded services now context outcome code reason t)
  unfolding put_rows put_totals
  recorded-IsConsistent outcome code reason t h = record {
    coherent = record {
      placed = h.coherent.placed;
      stock = h.coherent.stock;
      product_view = h.coherent.product_view;
      zone_view = h.coherent.zone_view;
      product_distinct = h.coherent.product_distinct;
      zone_distinct = h.coherent.zone_distinct;
    };
    available_total = h.available_total;
    reserved_total = h.reserved_total;
    within_capacity = h.within_capacity;
  }

  pub target-IsConsistent :
      IsConsistent w.tables → IsTarget services now context w r target → IsConsistent target.tables
  target-IsConsistent h (leave_duplicate seen e same) =
      subst (λ (x : World). IsConsistent x.tables) (sym same) h
  target-IsConsistent h (record_stale e same) =
      subst (λ (x : World). IsConsistent x.tables) (sym same)
        (recorded-IsConsistent "STALE" r.error_code r.error_reason w.tables h)
  target-IsConsistent h (record_rejected e d q same) =
      subst (λ (x : World). IsConsistent x.tables) (sym same)
        (recorded-IsConsistent "DLQ" (some e.error_code) (some e.message) w.tables h)
  target-IsConsistent h (keep_applied e t' done written same) =
      subst (λ (x : World). IsConsistent x.tables) (sym same)
        (process-IsConsistent services.session now context w.tables applied_result t' h done)
