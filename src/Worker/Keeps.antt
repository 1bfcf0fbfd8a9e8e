-- ===== src/Worker/Keeps.antt =====
-- What writing an outcome keeps in the tables, the end of a handling keeps.
use smart_warehouse_platform.Prelude.{
  String, Bool, true, false, [], Option, none, ◌≡◌, refl, sym, subst,
}
use smart_warehouse_platform.Domain.Models.{Instant, EventContext}
use smart_warehouse_platform.Domain.Result.{
  Result, ok, invalid, crashed, ErrorCode, Message, ProcessResult, Action, applied, duplicate,
  stale, dlq,
}
use smart_warehouse_platform.Repository.Schema.{Tables}
use smart_warehouse_platform.Inventory.Batch.{apply_state_change-eq-ok}
use smart_warehouse_platform.Worker.State.{World, Services, Handling}
use smart_warehouse_platform.Worker.{
  attempt, attempt_call, commit_message, record_outcome, publish_dlq, finish,
}
use smart_warehouse_platform.Worker.Ends.{recorded}

module _ {κ} (P : Tables → Type κ) (services : Services) (now : Instant) (context : EventContext)
    (kept : (outcome : String) (code : Option ErrorCode) (reason : Option Message) (t : Tables)
      → P t
      → P (recorded services now context outcome code reason t)) where
  called :
      (returns : Bool) (w : World) (h : Handling × World)
      → P w.tables
      → P h.1.tables
      → P (attempt_call returns w h).1.tables
  called true w h before after = after
  called false w h before after = before

  commit_message_keeps :
      (r : ProcessResult) (w : World)
      → P w.tables
      → P (commit_message services now context r w).1.tables
  unfolding commit_message
  commit_message_keeps r w h = called (services.commits w context.metadata) w _ h h

  written :
      (m : Result Tables) (r : ProcessResult) (w : World)
      → P w.tables
      → ((t : Tables) → m ≡ ok t → P t)
      → P
          (attempt m w
            λ t. commit_message services now context r (record w { tables = t })).1.tables
  written (ok t) r w h new = commit_message_keeps r (record w { tables = t }) (new t refl)
  written (invalid e) r w h new = h
  written crashed r w h new = h

  record_outcome_keeps :
      (r : ProcessResult) (outcome : String) (w : World)
      → P w.tables
      → P (record_outcome services now context r outcome w).1.tables
  unfolding record_outcome
  record_outcome_keeps r outcome w h = written _ r w h λ t e.
      subst P
        (sym (
          apply_state_change-eq-ok [] [] none context now outcome r.error_code r.error_reason
            w.tables services.session t e))
        (kept outcome r.error_code r.error_reason w.tables h)

  pub finish_keeps :
      (a : Action) (r : ProcessResult) (w : World)
      → P w.tables
      → P (finish services now context a r w).1.tables
  unfolding finish publish_dlq
  finish_keeps stale r w h = record_outcome_keeps r "STALE" w h
  finish_keeps dlq r w h = called _ w _ h (record_outcome_keeps r "DLQ" _ h)
  finish_keeps applied r w h = commit_message_keeps r w h
  finish_keeps duplicate r w h = commit_message_keeps r w h
