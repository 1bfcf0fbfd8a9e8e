-- ===== src/Worker/Ledger.antt =====
-- The stock after a run of the worker is the stock before it and the effects of the events that it
-- applied, each once.
use smart_warehouse_platform.Prelude.{
  All, All-map, All-++, String, false, List, [], ◌∷◌, ◌++◌, ◌≡◌, ◌≢◌, refl, ap, Bool-cases, inl,
  inr,
}
use smart_warehouse_platform.Domain.Value.{Fields}
use smart_warehouse_platform.Domain.Models.{Instant, EventContext}
use smart_warehouse_platform.Domain.Result.{
  Result, ok, invalid, crashed, ProcessResult, Action, applied, duplicate, stale, dlq,
}
use smart_warehouse_platform.Repository.Schema.{Tables}
use smart_warehouse_platform.Repository.{is_event_processed}
use smart_warehouse_platform.Processor.Process.{process}
use smart_warehouse_platform.Inventory.Consistency.{IsConsistent}
use smart_warehouse_platform.Worker.State.{World, Services, KafkaMessage}
use smart_warehouse_platform.Worker.{
  attempt, handle_event, build_context, handle_message, handle_messages,
}
use smart_warehouse_platform.Worker.Targets.{WasProcessed}
use smart_warehouse_platform.Worker.Recorded.{
  handle_event_keeps, handle_event-IsConsistent, handle_message_keeps, handle_messages_keeps,
}
use smart_warehouse_platform.Worker.Postings.{
  Posting, posted_by, posted_result, posting, postings, AreShifted, WasUnprocessed, IsPostedBetween,
  AreDistinct,
}
use smart_warehouse_platform.Worker.Shifted.{AreShifted-nothing, AreShifted-++}
use smart_warehouse_platform.Worker.Posted.{handle_event-AreShifted, handle_event-IsPosted}

-- The events are posted between the tables, each once.
abbrev pub ArePosted : Tables → Tables → List Posting → Type 0
ArePosted t t' ps = AreShifted t t' ps × All (IsPostedBetween t t') ps × AreDistinct ps

abbrev Remembers : Tables → Tables → Type 0
Remembers t t' = (i : String) → WasProcessed t i → WasProcessed t' i

unprocessed_before :
    (t t' : Tables) (i : String)
    → Remembers t t'
    → is_event_processed t' i ≡ false
    → is_event_processed t i ≡ false
unprocessed_before t t' i keeps fresh = elim (Bool-cases (is_event_processed t i)) [
  | inl seen ↦ absurd (cc (keeps i seen, fresh))
  | inr e ↦ e
]

other_event :
    (t : Tables) (i j : String) → WasProcessed t i → is_event_processed t j ≡ false → j ≢ i
other_event t i j seen fresh same = cc (ap (is_event_processed t) same)

AreDistinct-++ :
    (t : Tables) (ps qs : List Posting)
    → All (λ p. WasProcessed t p.0.event_id) ps
    → All (WasUnprocessed t) qs
    → AreDistinct ps
    → AreDistinct qs
    → AreDistinct (ps ++ qs)
AreDistinct-++ t [] qs seen fresh h k = k
AreDistinct-++ t (p ∷ ps) qs seen fresh h k = (
  All-++ (λ q. q.0.event_id ≢ p.0.event_id) ps qs h.0
      (All-map (WasUnprocessed t) (λ q. q.0.event_id ≢ p.0.event_id) qs
        (λ q e. other_event t p.0.event_id q.0.event_id seen.0 e) fresh),
  AreDistinct-++ t ps qs seen.1 fresh h.1 k,
)

ArePosted-++ :
    (t t' t'' : Tables) (ps qs : List Posting)
    → Remembers t t'
    → Remembers t' t''
    → ArePosted t t' ps
    → ArePosted t' t'' qs
    → ArePosted t t'' (ps ++ qs)
ArePosted-++ t t' t'' ps qs first second (shifts, posted, distinct) (shifts', posted', distinct') =
    (
      AreShifted-++ t t' t'' ps qs shifts shifts',
      All-++ (IsPostedBetween t t'') ps qs
          (All-map (IsPostedBetween t t') (IsPostedBetween t t'') ps
            (λ p h. (h.0, second p.0.event_id h.1)) posted)
          (All-map (IsPostedBetween t' t'') (IsPostedBetween t t'') qs
            (λ q h. (unprocessed_before t t' q.0.event_id first h.0, h.1)) posted'),
      AreDistinct-++ t' ps qs
          (All-map (IsPostedBetween t t') (λ p. WasProcessed t' p.0.event_id) ps (λ p h. h.1)
            posted)
          (All-map (IsPostedBetween t' t'') (WasUnprocessed t') qs (λ q h. h.0) posted') distinct
          distinct',
    )

posted_by-AreDistinct : (a : Action) (p : Posting) → AreDistinct (posted_by a p)
posted_by-AreDistinct applied p = (tt, tt)
posted_by-AreDistinct duplicate p = tt
posted_by-AreDistinct stale p = tt
posted_by-AreDistinct dlq p = tt

posted_result-AreDistinct :
    (m : Result (ProcessResult × Tables)) (p : Posting) → AreDistinct (posted_result m p)
posted_result-AreDistinct (ok r) p = posted_by-AreDistinct r.0.action p
posted_result-AreDistinct (invalid e) p = tt
posted_result-AreDistinct crashed p = tt

module _ (services : Services) (now : Instant) (w : World) where
  context-ArePosted :
      (m : Result EventContext)
      → IsConsistent w.tables
      → ArePosted w.tables
          (attempt m w λ context. handle_event services now context w).1.tables
          (posting services now w m)
  context-ArePosted (ok context) h = (
    handle_event-AreShifted services now context w h,
    handle_event-IsPosted services now context w,
    posted_result-AreDistinct (process services.session now context w.tables) (context, w.tables),
  )
  context-ArePosted (invalid e) h = (AreShifted-nothing w.tables w.tables refl, tt, tt)
  context-ArePosted crashed h = (AreShifted-nothing w.tables w.tables refl, tt, tt)

module _ (dumps : Fields → String) (services : Services) where
  message-Remembers :
      (now : Instant) (message : KafkaMessage) (w : World)
      → Remembers w.tables (handle_message dumps services now message w).1.tables
  message-Remembers now message w i h =
      handle_message_keeps (λ t. WasProcessed t i) dumps services
        (λ n c v. handle_event_keeps services n c v i) now message w h

  messages-Remembers :
      (messages : List (Instant × KafkaMessage)) (w : World)
      → Remembers w.tables (handle_messages dumps services messages w).tables
  messages-Remembers messages w i h =
      handle_messages_keeps (λ t. WasProcessed t i) dumps services
        (λ n c v. handle_event_keeps services n c v i) messages w h

  handle_message-ArePosted :
      (now : Instant) (message : KafkaMessage) (w : World)
      → IsConsistent w.tables
      → ArePosted w.tables (handle_message dumps services now message w).1.tables (
          posting services now w
            (build_context dumps message.value message.partition message.offset))
  unfolding handle_message
  handle_message-ArePosted now message w h =
      context-ArePosted services now w
        (build_context dumps message.value message.partition message.offset) h

  -- From consistent tables, a run of the worker over any messages applies events that were not
  -- processed before, no two with one id, and leaves them processed; and the available and the
  -- reserved stock under every key are what they were and the effects of these events.
  pub handle_messages-ArePosted :
      (messages : List (Instant × KafkaMessage)) (w : World)
      → IsConsistent w.tables
      → ArePosted w.tables
          (handle_messages dumps services messages w).tables
          (postings dumps services messages w)
  unfolding handle_messages postings
  handle_messages-ArePosted [] w h = (AreShifted-nothing w.tables w.tables refl, tt, tt)
  handle_messages-ArePosted ((now, message) ∷ rest) w h =
      let next = (handle_message dumps services now message w).1 in
      ArePosted-++ w.tables next.tables (handle_messages dumps services rest next).tables
        (posting services now w
          (build_context dumps message.value message.partition message.offset))
        (postings dumps services rest next) (message-Remembers now message w)
        (messages-Remembers rest next) (handle_message-ArePosted now message w h)
        (handle_messages-ArePosted rest next (
          handle_message_keeps IsConsistent dumps services (handle_event-IsConsistent services) now
            message w h))
