-- ===== src/Worker/Posted.antt =====
-- What the handling of one message posts.
use smart_warehouse_platform.Prelude.{
  All, All-map, String, int_laws, parts_of_eq, [], none, ◌≡◌, refl, sym, subst, ap, inl, inr,
}
use smart_warehouse_platform.Domain.Models.{Instant, EventContext}
use smart_warehouse_platform.Domain.Result.{Result, ok, invalid, crashed, ProcessResult}
use smart_warehouse_platform.Repository.Schema.{Tables}
use smart_warehouse_platform.Processor.Process.{process}
use smart_warehouse_platform.Inventory.Consistency.{IsConsistent}
use smart_warehouse_platform.Inventory.Coherence.{put_rows}
use smart_warehouse_platform.Inventory.Totals.{put_totals}
use smart_warehouse_platform.Inventory.Refinement.{HasEffect, process-HasEffect}
use smart_warehouse_platform.Worker.State.{World, Services, Handling}
use smart_warehouse_platform.Worker.{attempt, finish, handle_event}
use smart_warehouse_platform.Worker.Targets.{WasProcessed, changed-WasProcessed, changed_keeps}
use smart_warehouse_platform.Inventory.Outcomes.{
  IsOutcome, was_duplicate, was_stale, was_rejected, was_applied, process-IsOutcome,
}
use smart_warehouse_platform.Worker.Postings.{
  Posting, posted_by, posted_result, posting, AreShifted, IsPostedBetween,
}
use smart_warehouse_platform.Worker.Keeps.{finish_keeps}
use smart_warehouse_platform.Worker.Shifted.{AreShifted-nothing, AreShifted-kept, unposted}

module _ (services : Services) (now : Instant) (context : EventContext) (w : World) where
  abbrev SameStock : Tables → Tables → Type 0
  SameStock t t' = t'.inventory_by_product_zone ≡ t.inventory_by_product_zone

  finish-SameStock :
      (r : ProcessResult) (t : Tables)
      → SameStock t (finish services now context r.action r (record w { tables = t })).1.tables
  unfolding put_rows put_totals
  finish-SameStock r t =
      finish_keeps (SameStock t) services now context (λ o c m t' h. h) r.action r _ refl

  applied-AreShifted :
      (r : ProcessResult) (t' : Tables)
      → HasEffect services.session now context w.tables (r, t')
      → AreShifted w.tables t' (posted_by r.action (context, w.tables))
  applied-AreShifted r t' (inl (other, same)) =
      subst (AreShifted w.tables t') (sym (unposted r.action (context, w.tables) other))
        (AreShifted-nothing w.tables t' (ap (λ (t : Tables). t.inventory_by_product_zone) same))
  applied-AreShifted r t' (inr (e, shifted)) =
      subst (λ (x : ProcessResult). AreShifted w.tables t' (posted_by x.action (context, w.tables)))
        (sym e)
        λ k.
          (omega (int_laws, parts_of_eq (shifted k).0), omega (int_laws, parts_of_eq (shifted k).1))

  abbrev process_end : Result (ProcessResult × Tables) → Handling × World
  process_end m =
      attempt m w λ r. finish services now context r.0.action r.0 (record w { tables = r.1 })

  finish-WasProcessed :
      (r : ProcessResult) (t : Tables) (i : String)
      → WasProcessed t i
      → WasProcessed (finish services now context r.action r (record w { tables = t })).1.tables i
  finish-WasProcessed r t i h =
      finish_keeps (λ x. WasProcessed x i) services now context
        (λ outcome code reason x. changed_keeps [] [] none context now outcome code reason x i)
        r.action r (record w { tables = t }) h

  abbrev Posts : Result (ProcessResult × Tables) → Type 0
  Posts m = AreShifted w.tables (process_end m).1.tables (posted_result m (context, w.tables))

  pub process-Posts :
      (m : Result (ProcessResult × Tables))
      → IsConsistent w.tables
      → process services.session now context w.tables ≡ m
      → Posts m
  process-Posts (ok (r, t')) h done =
      AreShifted-kept w.tables t'
        (finish services now context r.action r (record w { tables = t' })).1.tables
        (posted_by r.action (context, w.tables))
        (applied-AreShifted r t'
          (process-HasEffect services.session now context w.tables r t' h.coherent done))
        (finish-SameStock r t')
  process-Posts (invalid e) h done = AreShifted-nothing w.tables w.tables refl
  process-Posts crashed h done = AreShifted-nothing w.tables w.tables refl

  abbrev IsPosted : Tables → Posting → Type 0
  IsPosted = IsPostedBetween w.tables

  outcome-IsPosted :
      (r : ProcessResult) (t' : Tables)
      → IsOutcome services.session now context w.tables r t'
      → All (IsPosted t') (posted_by r.action (context, w.tables))
  outcome-IsPosted r t' (was_duplicate seen e same) = rw e tt
  outcome-IsPosted r t' (was_stale fresh e same) = rw e tt
  outcome-IsPosted r t' (was_rejected fresh x d e same) = rw e tt
  outcome-IsPosted r t' (was_applied fresh e (us, totals, order, same)) = rw e (
    (
      fresh,
      subst (λ t. WasProcessed t context.event_id) (sym same)
          (changed-WasProcessed us totals order context now "APPLIED" none none w.tables),
    ),
    tt,
  )

  process-IsPosted :
      (m : Result (ProcessResult × Tables))
      → process services.session now context w.tables ≡ m
      → All (IsPosted (process_end m).1.tables) (posted_result m (context, w.tables))
  process-IsPosted (ok (r, t')) done =
      All-map (IsPosted t') (IsPosted (process_end (ok (r, t'))).1.tables)
        (posted_by r.action (context, w.tables))
        (λ p h. (h.0, finish-WasProcessed r t' p.0.event_id h.1))
        (outcome-IsPosted r t' (process-IsOutcome services.session now context w.tables r t' done))
  process-IsPosted (invalid e) done = tt
  process-IsPosted crashed done = tt

  -- What one handling adds to the ledger.
  pub handle_event-AreShifted :
      IsConsistent w.tables
      → AreShifted w.tables
          (handle_event services now context w).1.tables
          (posting services now w (ok context))
  unfolding handle_event
  handle_event-AreShifted h = process-Posts (process services.session now context w.tables) h refl

  pub handle_event-IsPosted :
      All
        (IsPosted (handle_event services now context w).1.tables)
        (posting services now w (ok context))
  unfolding handle_event
  handle_event-IsPosted = process-IsPosted (process services.session now context w.tables) refl
