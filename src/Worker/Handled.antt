-- ===== src/Worker/Handled.antt =====
-- How the worker's handling of one message ends.
use smart_warehouse_platform.Prelude.{
  ◌≡◌, refl, true, [], ◌∷◌, ◌++◌, some, inl, inr, ◌∙◌, sym, subst,
}
use smart_warehouse_platform.Domain.Models.{Instant, EventContext}
use smart_warehouse_platform.Domain.Result.{
  Result, ok, invalid, crashed, DomainValidationError, ProcessResult,
}
use smart_warehouse_platform.Repository.Schema.{Tables}
use smart_warehouse_platform.Repository.{is_event_processed}
use smart_warehouse_platform.Processor.Handlers.{applied_result, stale_result}
use smart_warehouse_platform.Processor.Process.{process, dispatch, duplicate_result, dlq_result}
use smart_warehouse_platform.Inventory.Settles.{IsApplied}
use smart_warehouse_platform.Inventory.Outcomes.{
  IsOutcome, was_duplicate, was_stale, was_rejected, was_applied, process-IsOutcome,
}
use smart_warehouse_platform.Worker.State.{World, Services}
use smart_warehouse_platform.Worker.{dlq_record, attempt, publish_dlq, finish, handle_event}
use smart_warehouse_platform.Worker.Ends.{
  recorded, attempt_call-Ends, commit-Ends, record_outcome-Ends, IsHandling, leave_duplicate,
  record_stale, record_rejected, keep_applied,
}

module _ (services : Services) (now : Instant) (context : EventContext) where
  module _ (w : World) where
    abbrev Finishes : ProcessResult × Tables → Type 0
    Finishes p =
        IsHandling services now context w
          (finish services now context p.0.action p.0 (record w { tables = p.1 }))

    finish_duplicate :
        is_event_processed w.tables context.event_id ≡ true → Finishes (duplicate_result, w.tables)
    unfolding finish
    finish_duplicate seen = inr (
      duplicate_result,
      w,
      leave_duplicate seen refl refl,
      commit-Ends services now context w w duplicate_result refl,
    )

    finish_stale : Finishes (stale_result, w.tables)
    unfolding finish
    finish_stale = inr (
      stale_result,
      record w {
        tables =
            recorded services now context "STALE" stale_result.error_code stale_result.error_reason
              w.tables;
      },
      record_stale refl refl,
      record_outcome-Ends services now context w w stale_result "STALE" refl refl,
    )

    finish_rejected :
        (e : DomainValidationError)
        → dispatch services.session now context w.tables ≡ invalid e
        → Finishes (dlq_result e, w.tables)
    unfolding finish publish_dlq
    finish_rejected e rejected =
        let letter = dlq_record now context e.error_code e.message in
        let w1 : World = record w { dlq = w.dlq ++ letter ∷ [] } in
        let target : World = record w1 {
          tables =
              recorded services now context "DLQ" (some e.error_code) (some e.message) w.tables;
        } in
        inr (
          dlq_result e,
          target,
          record_rejected e rejected refl refl,
          attempt_call-Ends services now context (services.produces w letter) w target w
              (dlq_result e) _
              (record {
                is_failed = refl;
                same_commits = refl;
                either_tables = inl refl;
                either_dlq = inl refl;
              })
              (record_outcome-Ends services now context w w1 (dlq_result e) "DLQ" refl refl),
        )

    finish_applied :
        (t' : Tables)
        → process services.session now context w.tables ≡ ok (applied_result, t')
        → IsApplied services.session now context w.tables t'
        → Finishes (applied_result, t')
    unfolding finish
    finish_applied t' done a = inr (
      applied_result,
      record w { tables = t' },
      keep_applied refl t' done a refl,
      commit-Ends services now context w (record w { tables = t' }) applied_result refl,
    )

    finish-IsHandling :
        (r : ProcessResult) (t' : Tables)
        → process services.session now context w.tables ≡ ok (r, t')
        → IsOutcome services.session now context w.tables r t'
        → Finishes (r, t')
    finish-IsHandling r t' done (was_duplicate seen e same) =
        subst Finishes (λ i. (sym e i, sym same i)) (finish_duplicate seen)
    finish-IsHandling r t' done (was_stale fresh e same) =
        subst Finishes (λ i. (sym e i, sym same i)) finish_stale
    finish-IsHandling r t' done (was_rejected fresh x d e same) =
        subst Finishes (λ i. (sym e i, sym same i)) (finish_rejected x d)
    finish-IsHandling r t' done (was_applied fresh e a) =
        subst Finishes (λ i. (sym e i, t')) (finish_applied t' (done ∙ λ i. ok (e i, t')) a)

    attempt-IsHandling :
        (m : Result (ProcessResult × Tables))
        → process services.session now context w.tables ≡ m
        → IsHandling services now context w (
            attempt m w λ r. finish services now context r.0.action r.0 (record w { tables = r.1 }))
    attempt-IsHandling (ok r) done =
        finish-IsHandling r.0 r.1 done
          (process-IsOutcome services.session now context w.tables r.0 r.1 done)
    attempt-IsHandling (invalid e) done = inl refl
    attempt-IsHandling crashed done = inl refl

-- The worker's handling of a message, from any state and whatever the clients do, ends in one of
-- two ways: with an exception that leaves the offset uncommitted and each other step done or not;
-- or with the offset committed after all of: nothing for a duplicate, the processed and history
-- rows for a stale event, these rows and a dead letter with the error for a rejected event, and the
-- batch of an applied event.
pub handle_event-IsHandling :
    (services : Services) (now : Instant) (context : EventContext) (w : World)
    → IsHandling services now context w (handle_event services now context w)
unfolding handle_event
handle_event-IsHandling services now context w =
    attempt-IsHandling services now context w (process services.session now context w.tables) refl
