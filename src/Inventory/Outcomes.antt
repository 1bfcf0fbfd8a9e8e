-- ===== src/Inventory/Outcomes.antt =====
-- What `EventProcessor.process` returns, and what it has written when it returns that.
use smart_warehouse_platform.Prelude.{◌⊎◌, arith, Bool-cases, ◌≡◌, refl, true, false, inl, inr, ◌∙◌}
use smart_warehouse_platform.Prelude.Eq.{string_eq}
use smart_warehouse_platform.Domain.Models.{Instant, EventContext}
use smart_warehouse_platform.Domain.Result.{
  Result, ok, invalid, crashed, ProcessResult, DomainValidationError,
}
use smart_warehouse_platform.Repository.Schema.{Tables}
use smart_warehouse_platform.Repository.Cql.{Session}
use smart_warehouse_platform.Repository.{is_event_processed}
use smart_warehouse_platform.Processor.Handlers.{stale_result, applied_result}
use smart_warehouse_platform.Processor.Process.{
  process, dispatch, caught, duplicate_result, dlq_result,
}
use smart_warehouse_platform.Inventory.Settles.{IsApplied, Writes, dispatch-Writes}

module _ (session : Session) (now : Instant) (context : EventContext) (t : Tables) where
  -- A handler that returns has ignored an old event, or has written its batch.
  abbrev Settles : ProcessResult × Tables → Type 0
  Settles r =
      ((r.0 ≡ stale_result) × (r.1 ≡ t))
      ⊎ ((r.0 ≡ applied_result) × IsApplied session now context t r.1)

  dispatch-Settles :
      (r : ProcessResult × Tables) → dispatch session now context t ≡ ok r → Settles r
  dispatch-Settles r done = settles (
      (dispatch-Writes session now context t (λ order. Unit) tt (λ i l n. tt) (λ i o f s. tt)).of r
        done)
    where
      settles :
          Writes session now context t (λ order. Unit) tt (λ i l n. tt) (λ i o f s. tt) r
          → Settles r
      settles (inl old) = inl old
      settles (inr (e, (us, totals, order, written, may))) = inr (e, (us, totals, order, written))

  -- The four ways in which `process` returns.
  pub data IsOutcome (r : ProcessResult) (t' : Tables) : Type 0 where
    was_duplicate :
        is_event_processed t context.event_id ≡ true
        → r ≡ duplicate_result
        → t' ≡ t
        → IsOutcome r t'
    was_stale :
        is_event_processed t context.event_id ≡ false → r ≡ stale_result → t' ≡ t → IsOutcome r t'
    was_rejected :
        is_event_processed t context.event_id ≡ false
        → (e : DomainValidationError) → dispatch session now context t ≡ invalid e
        → r ≡ dlq_result e
        → t' ≡ t
        → IsOutcome r t'
    was_applied :
        is_event_processed t context.event_id ≡ false
        → r ≡ applied_result
        → IsApplied session now context t t'
        → IsOutcome r t'

  module _ (r : ProcessResult) (t' : Tables)
      (fresh : is_event_processed t context.event_id ≡ false) where
    settled : Settles (r, t') → IsOutcome r t'
    settled (inl (e, s)) = was_stale fresh e s
    settled (inr (e, a)) = was_applied fresh e a

    caught-IsOutcome :
        (m : Result (ProcessResult × Tables))
        → dispatch session now context t ≡ m
        → caught t m ≡ ok (r, t')
        → IsOutcome r t'
    caught-IsOutcome (ok a) d e = settled (dispatch-Settles (r, t') (d ∙ e))
    caught-IsOutcome (invalid x) d e = was_rejected fresh x d (cc (e)) (cc (e))
    caught-IsOutcome crashed d e = absurd (cc)

-- When `process` returns, it has written nothing and says that the event is a duplicate (exactly
-- when it was processed before), stale, or rejected with the error that the event's handler raised;
-- or it has written the one batch of an applied event.
pub process-IsOutcome :
    (session : Session) (now : Instant) (context : EventContext) (t : Tables) (r : ProcessResult)
    (t' : Tables)
    → process session now context t ≡ ok (r, t')
    → IsOutcome session now context t r t'
unfolding process
process-IsOutcome session now context t r t' done =
    elim (Bool-cases (is_event_processed t context.event_id)) [
      | inl seen ↦ was_duplicate seen (ground (arith, seen, done)) (ground (arith, seen, done))
      | inr fresh ↦
          caught-IsOutcome session now context t r t' fresh (dispatch session now context t) refl
            (ground (arith, fresh, done))
    ]
