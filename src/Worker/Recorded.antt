-- ===== src/Worker/Recorded.antt =====
-- What the worker's runs guarantee: an offset is committed once its event is recorded, a
-- redelivered event changes nothing, and the inventory stays consistent.
use smart_warehouse_platform.Prelude.{
  arith, String, ◌≡◌, refl, Bool, true, false, List, [], ◌∷◌, ◌++◌, ◌⊎◌, inl, inr, ◌∙◌, sym, subst,
  ap, if◌then◌else◌,
}
use smart_warehouse_platform.Prelude.Eq.{string_eq}
use smart_warehouse_platform.Domain.Value.{Fields}
use smart_warehouse_platform.Domain.Models.{Instant, EventContext}
use smart_warehouse_platform.Domain.Result.{ProcessResult, ok, Result, invalid, crashed}
use smart_warehouse_platform.Repository.Schema.{Tables}
use smart_warehouse_platform.Repository.{is_event_processed}
use smart_warehouse_platform.Processor.Process.{process, duplicate_result}
use smart_warehouse_platform.Inventory.Consistency.{IsConsistent}
use smart_warehouse_platform.Worker.State.{KafkaMessage, World, Services, Handling, handled, failed}
use smart_warehouse_platform.Worker.{
  attempt, finish, commit_message, handle_event, build_context, handle_message, handle_messages,
}
use smart_warehouse_platform.Worker.Handled.{handle_event-IsHandling}
use smart_warehouse_platform.Worker.Ends.{committed, IsTarget, Ends, IsHandling}
use smart_warehouse_platform.Worker.Targets.{
  WasProcessed, target-WasProcessed, target-commits, target_keeps, target-IsConsistent,
}

module _ {κ} (P : Tables → Type κ) (services : Services) (now : Instant) (context : EventContext)
    (w : World) where
  Ends-tables :
      (r : ProcessResult) (target : World) (h : Handling × World)
      → P w.tables
      → P target.tables
      → Ends services now context w r target h
      → P h.1.tables
  Ends-tables r target h before after (inl e) =
      subst (λ (x : Handling × World). P x.1.tables) (sym e) after
  Ends-tables r target h before after (inr stop) = elim stop.either_tables [
    | inl e ↦ subst P (sym e) before
    | inr e ↦ subst P (sym e) after
  ]

  -- What every target of a handling keeps, the handling keeps.
  IsHandling-tables :
      (h : Handling × World)
      → P w.tables
      → ((r : ProcessResult) (target : World)
          → IsTarget services now context w r target
          → P target.tables)
      → IsHandling services now context w h
      → P h.1.tables
  IsHandling-tables h before kept (inl e) =
      subst (λ (x : Handling × World). P x.1.tables) (sym e) before
  IsHandling-tables h before kept (inr (r, target, aimed, ends)) =
      Ends-tables r target h before (kept r target aimed) ends

module _ (services : Services) (now : Instant) (context : EventContext) (w : World) where
  handled-IsHandling : IsHandling services now context w (handle_event services now context w)
  handled-IsHandling = handle_event-IsHandling services now context w

  -- The offset of a message is committed only once its event is recorded: the handling, from any
  -- state, leaves the commits as they were, or adds the message's own to them and leaves the event
  -- in the table of processed events.
  pub handle_event-commits :
      (let w' = (handle_event services now context w).1 in
        (w'.commits ≡ w.commits)
        ⊎ ((w'.commits ≡ w.commits ++ context.metadata ∷ [])
            × (is_event_processed w'.tables context.event_id ≡ true)))
  handle_event-commits = elim handled-IsHandling [
    | inl e ↦ inl (ap (λ (x : Handling × World). x.1.commits) e)
    | inr (r, target, aimed, inl e) ↦ inr (
      ap (λ (x : Handling × World). x.1.commits) e
          ∙ ap (λ c. c ++ context.metadata ∷ [])
              (target-commits services now context w r target aimed),
      subst (λ (x : Handling × World). WasProcessed x.1.tables context.event_id) (sym e)
          (target-WasProcessed services now context w r target aimed),
    )
    | inr (r, target, aimed, inr stop) ↦ inl stop.same_commits
  ]

  pub handle_event_keeps :
      (i : String)
      → WasProcessed w.tables i
      → WasProcessed (handle_event services now context w).1.tables i
  handle_event_keeps i h =
      IsHandling-tables (λ t. WasProcessed t i) services now context w
        (handle_event services now context w) h
        (λ r target aimed. target_keeps services now context w r target i h aimed)
        handled-IsHandling

  pub handle_event-IsConsistent :
      IsConsistent w.tables → IsConsistent (handle_event services now context w).1.tables
  handle_event-IsConsistent h =
      IsHandling-tables IsConsistent services now context w (handle_event services now context w) h
        (λ r target aimed. target-IsConsistent services now context w r target h aimed)
        handled-IsHandling

  handled-WasProcessed :
      (r : ProcessResult) (w' : World)
      → handle_event services now context w ≡ (handled r, w')
      → WasProcessed w'.tables context.event_id
  handled-WasProcessed r w' done = elim handled-IsHandling [
    | inl e ↦ absurd (cc (e, done))
    | inr (r', target, aimed, inl e) ↦
        subst (λ (x : Handling × World). WasProcessed x.1.tables context.event_id) (sym e ∙ done)
          (target-WasProcessed services now context w r' target aimed)
    | inr (r', target, aimed, inr stop) ↦
        absurd (cc (stop.is_failed, ap (λ (x : Handling × World). x.0) done))
  ]

  processed-duplicate :
      WasProcessed w.tables context.event_id
      → process services.session now context w.tables ≡ ok (duplicate_result, w.tables)
  unfolding process
  processed-duplicate seen = ground (arith, seen)

  -- The handling of a message whose event was processed before only commits its offset, if the
  -- client does not raise: tables and dead letters stay.
  handle_event-redelivered :
      is_event_processed w.tables context.event_id ≡ true
      → handle_event services now context w ≡ (
          if services.commits w context.metadata
          then (handled duplicate_result, committed services now context w)
          else (failed, w))
  unfolding handle_event finish commit_message
  handle_event-redelivered seen =
      ap
        (λ m.
          attempt m w λ r. finish services now context r.0.action r.0 (record w { tables = r.1 }))
        (processed-duplicate seen)

-- What the handling of every event keeps in the tables, the loop keeps.
module _ {κ} (P : Tables → Type κ) (dumps : Fields → String) (services : Services)
    (kept : (now : Instant) (context : EventContext) (w : World)
      → P w.tables
      → P (handle_event services now context w).1.tables) where
  pub handle_message_keeps :
      (now : Instant) (message : KafkaMessage) (w : World)
      → P w.tables
      → P (handle_message dumps services now message w).1.tables
  unfolding handle_message
  handle_message_keeps now message w h =
      go (build_context dumps message.value message.partition message.offset)
    where
      go :
          (m : Result EventContext)
          → P (attempt m w λ context. handle_event services now context w).1.tables
      go (ok context) = kept now context w h
      go (invalid e) = h
      go crashed = h

  pub handle_messages_keeps :
      (messages : List (Instant × KafkaMessage)) (w : World)
      → P w.tables
      → P (handle_messages dumps services messages w).tables
  unfolding handle_messages
  handle_messages_keeps [] w h = h
  handle_messages_keeps ((now, message) ∷ rest) w h =
      handle_messages_keeps rest (handle_message dumps services now message w).1
        (handle_message_keeps now message w h)

either_way {ℓ κ} :
    {A : Type ℓ} {B : Type κ} (f : A → B) (test : Bool) (x y : A)
    → f x ≡ f y
    → f (if test then x else y) ≡ f y
either_way f true x y e = e
either_way f false x y e = refl

-- An event that the worker has handled takes effect once: if the same event arrives again, in any
-- message and after any others, its handling leaves the tables and the dead letters as they are.
pub handle_messages-once :
    (dumps : Fields → String) (services : Services) (now : Instant) (context : EventContext)
    (w : World) (r : ProcessResult) (w' : World) (messages : List (Instant × KafkaMessage))
    (later : Instant) (again : EventContext)
    → handle_event services now context w ≡ (handled r, w')
    → again.event_id ≡ context.event_id
    → (let before = handle_messages dumps services messages w' in
        let after = (handle_event services later again before).1 in
        (after.tables ≡ before.tables) × (after.dlq ≡ before.dlq))
handle_messages-once dumps services now context w r w' messages later again done same =
    let before = handle_messages dumps services messages w' in
    let seen : WasProcessed before.tables again.event_id =
      subst (WasProcessed before.tables) (sym same) (
        handle_messages_keeps (λ t. WasProcessed t context.event_id) dumps services
          (λ n c v. handle_event_keeps services n c v context.event_id) messages w'
          (handled-WasProcessed services now context w r w' done)) in
    let e = handle_event-redelivered services later again before seen in
    (
      ap (λ (x : Handling × World). x.1.tables) e
          ∙ either_way (λ (x : Handling × World). x.1.tables)
              (services.commits before again.metadata)
              (handled duplicate_result, committed services later again before) (failed, before)
              refl,
      ap (λ (x : Handling × World). x.1.dlq) e
          ∙ either_way (λ (x : Handling × World). x.1.dlq) (services.commits before again.metadata)
              (handled duplicate_result, committed services later again before) (failed, before)
              refl,
    )

-- From consistent tables, a run of the worker over any messages leaves consistent tables, whatever
-- the clients do.
pub handle_messages-IsConsistent :
    (dumps : Fields → String) (services : Services) (messages : List (Instant × KafkaMessage))
    (w : World)
    → IsConsistent w.tables
    → IsConsistent (handle_messages dumps services messages w).tables
handle_messages-IsConsistent dumps services =
    handle_messages_keeps IsConsistent dumps services (handle_event-IsConsistent services)
