-- ===== src/Worker/Ends.antt =====
-- How the steps of the worker after `process` end.
use smart_warehouse_platform.Prelude.{
  String, ◌≡◌, refl, Bool, true, false, [], ◌∷◌, ◌++◌, Option, none, some, ◌⊎◌, inl, inr, ◌∙◌, sym,
  subst, ap,
}
use smart_warehouse_platform.Domain.Models.{Instant, EventContext}
use smart_warehouse_platform.Domain.Result.{
  Result, ok, invalid, crashed, ErrorCode, Message, DomainValidationError, ProcessResult,
}
use smart_warehouse_platform.Repository.Schema.{Tables}
use smart_warehouse_platform.Repository.{is_event_processed, apply_state_change}
use smart_warehouse_platform.Processor.Handlers.{applied_result, stale_result}
use smart_warehouse_platform.Processor.Process.{process, dispatch, duplicate_result, dlq_result}
use smart_warehouse_platform.Inventory.Settles.{IsApplied}
use smart_warehouse_platform.Inventory.Batch.{changed, apply_state_change-eq-ok}
use smart_warehouse_platform.Worker.State.{World, Services, Handling, handled, failed}
use smart_warehouse_platform.Worker.{
  dlq_record, attempt, attempt_call, commit_message, record_outcome,
}

module _ (services : Services) (now : Instant) (context : EventContext) where
  -- The tables in which nothing but the outcome of the event is new.
  abbrev pub recorded : String → Option ErrorCode → Option Message → Tables → Tables
  recorded outcome code reason t = changed [] [] none context now outcome code reason t

  abbrev pub committed : World → World
  committed w = record w { commits = w.commits ++ context.metadata ∷ [] }

  -- What the handling of a message sets out to leave, but for the commit.
  pub data IsTarget (w : World) (r : ProcessResult) (target : World) : Type 0 where
    leave_duplicate :
        is_event_processed w.tables context.event_id ≡ true
        → r ≡ duplicate_result
        → target ≡ w
        → IsTarget w r target
    record_stale :
        r ≡ stale_result
        → target ≡ record w { tables = recorded "STALE" r.error_code r.error_reason w.tables }
        → IsTarget w r target
    record_rejected :
        (e : DomainValidationError)
        → dispatch services.session now context w.tables ≡ invalid e
        → r ≡ dlq_result e
        → target ≡ record w {
          tables = recorded "DLQ" (some e.error_code) (some e.message) w.tables;
          dlq = w.dlq ++ dlq_record now context e.error_code e.message ∷ [];
        }
        → IsTarget w r target
    keep_applied :
        r ≡ applied_result
        → (t' : Tables) → process services.session now context w.tables ≡ ok (applied_result, t')
        → IsApplied services.session now context w.tables t'
        → target ≡ record w { tables = t' }
        → IsTarget w r target

  -- An exception on the way commits nothing, and each of the other steps is done or not.
  pub record IsInterrupted (w target : World) (h : Handling × World) : Type 0 where
    pub is_failed : h.0 ≡ failed
    pub same_commits : h.1.commits ≡ w.commits
    pub either_tables : (h.1.tables ≡ w.tables) ⊎ (h.1.tables ≡ target.tables)
    pub either_dlq : (h.1.dlq ≡ w.dlq) ⊎ (h.1.dlq ≡ target.dlq)

  abbrev pub Ends : World → ProcessResult → World → Handling × World → Type 0
  Ends w r target h = (h ≡ (handled r, committed target)) ⊎ IsInterrupted w target h

  pub attempt_call-Ends :
      (returns : Bool) (w target w1 : World) (r : ProcessResult) (rest : Handling × World)
      → IsInterrupted w target (failed, w1)
      → Ends w r target rest
      → Ends w r target (attempt_call returns w1 rest)
  attempt_call-Ends true w target w1 r rest stop go = go
  attempt_call-Ends false w target w1 r rest stop go = inr stop

  pub commit-Ends :
      (w target : World) (r : ProcessResult)
      → w.commits ≡ target.commits
      → Ends w r target (commit_message services now context r target)
  unfolding commit_message
  commit-Ends w target r same =
      attempt_call-Ends (services.commits target context.metadata) w target target r
        (handled r, committed target)
        (record {
          is_failed = refl;
          same_commits = sym same;
          either_tables = inr refl;
          either_dlq = inr refl;
        })
        (inl refl)

  -- The write of an outcome from `w1`, which differs from `w` in the dead letters only.
  attempt-Ends :
      (m : Result Tables) (w w1 : World) (r : ProcessResult) (t' : Tables)
      → w1.tables ≡ w.tables
      → w1.commits ≡ w.commits
      → ((t2 : Tables) → m ≡ ok t2 → t2 ≡ t')
      → Ends w r
          (record w1 { tables = t' })
          (attempt m w1 λ t2. commit_message services now context r (record w1 { tables = t2 }))
  attempt-Ends (ok t2) w w1 r t' same_tables same written =
      subst
        (λ x.
          Ends w r (record w1 { tables = x })
            (commit_message services now context r (record w1 { tables = t2 })))
        (written t2 refl) (commit-Ends w (record w1 { tables = t2 }) r (sym same))
  attempt-Ends (invalid e) w w1 r t' same_tables same written = inr (record {
    is_failed = refl;
    same_commits = same;
    either_tables = inl same_tables;
    either_dlq = inr refl;
  })
  attempt-Ends crashed w w1 r t' same_tables same written = inr (record {
    is_failed = refl;
    same_commits = same;
    either_tables = inl same_tables;
    either_dlq = inr refl;
  })

  pub record_outcome-Ends :
      (w w1 : World) (r : ProcessResult) (outcome : String)
      → w1.tables ≡ w.tables
      → w1.commits ≡ w.commits
      → Ends w r
          (record w1 { tables = recorded outcome r.error_code r.error_reason w.tables })
          (record_outcome services now context r outcome w1)
  unfolding record_outcome
  record_outcome-Ends w w1 r outcome same_tables same =
      attempt-Ends
        (apply_state_change services.session now [] [] none context outcome r.error_code
          r.error_reason w1.tables)
        w w1 r (recorded outcome r.error_code r.error_reason w.tables) same_tables same
        λ t2 written.
          apply_state_change-eq-ok [] [] none context now outcome r.error_code r.error_reason
            w1.tables services.session t2 written
          ∙ ap (recorded outcome r.error_code r.error_reason) same_tables

  -- `process` raises, or the rest ends.
  abbrev pub IsHandling : World → Handling × World → Type 0
  IsHandling w h =
      (h ≡ (failed, w))
      ⊎ ((r : ProcessResult) × (target : World) × IsTarget w r target × Ends w r target h)
