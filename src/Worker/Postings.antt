-- ===== src/Worker/Postings.antt =====
-- The events that a run of consumer_worker.py applies, with the tables that each was applied to.
use smart_warehouse_platform.Prelude.{
  All, String, ℤ, pos, ◌+ℤ◌, true, false, List, [], ◌∷◌, ◌++◌, ◌≡◌, ◌≢◌,
}
use smart_warehouse_platform.Domain.Value.{Fields}
use smart_warehouse_platform.Domain.Models.{Instant, InventoryKey, EventContext}
use smart_warehouse_platform.Domain.Result.{Result, ok, ProcessResult, Action, applied}
use smart_warehouse_platform.Repository.Schema.{Tables}
use smart_warehouse_platform.Repository.{is_event_processed}
use smart_warehouse_platform.Processor.Process.{process}
use smart_warehouse_platform.Inventory.Deltas.{available, reserved}
use smart_warehouse_platform.Inventory.Levels.{level}
use smart_warehouse_platform.Inventory.Effects.{effect}
use smart_warehouse_platform.Worker.State.{World, Services, KafkaMessage}
use smart_warehouse_platform.Worker.{build_context, handle_message}

abbrev pub Posting : Type 0
Posting = EventContext × Tables

abbrev pub posted_by : Action → Posting → List Posting
posted_by applied p = p ∷ []
posted_by _ p = []

abbrev pub posted_result : Result (ProcessResult × Tables) → Posting → List Posting
posted_result (ok r) p = posted_by r.0.action p
posted_result _ p = []

module _ (services : Services) (now : Instant) where
  abbrev pub posting : World → Result EventContext → List Posting
  posting w (ok context) =
      posted_result (process services.session now context w.tables) (context, w.tables)
  posting w _ = []

-- What `handle_messages` applies, message by message.
unfoldable pub postings :
    (Fields → String) → Services → List (Instant × KafkaMessage) → World → List Posting
postings dumps services [] w = []
postings dumps services ((now, message) ∷ rest) w =
    posting services now w (build_context dumps message.value message.partition message.offset)
    ++ postings dumps services rest ((handle_message dumps services now message w).1)

-- The sums of the effects.
abbrev pub posted_available : List Posting → InventoryKey → ℤ
posted_available [] k = pos 0
posted_available ((context, t) ∷ ps) k =
    (effect context t).more_available k +ℤ posted_available ps k

abbrev pub posted_reserved : List Posting → InventoryKey → ℤ
posted_reserved [] k = pos 0
posted_reserved ((context, t) ∷ ps) k = (effect context t).more_reserved k +ℤ posted_reserved ps k

-- The stock under every key is shifted by the sums.
abbrev pub AreShifted : Tables → Tables → List Posting → Type 0
AreShifted t t' ps =
    (k : InventoryKey)
    → (level available t' k ≡ level available t k +ℤ posted_available ps k)
      × (level reserved t' k ≡ level reserved t k +ℤ posted_reserved ps k)

-- The events were not processed in the tables, and are distinct.
abbrev pub WasUnprocessed : Tables → Posting → Type 0
WasUnprocessed t p = is_event_processed t p.0.event_id ≡ false

-- An event of the first tables is new to them, and processed in the second.
abbrev pub IsPostedBetween : Tables → Tables → Posting → Type 0
IsPostedBetween t t' p = WasUnprocessed t p × (is_event_processed t' p.0.event_id ≡ true)

abbrev pub AreDistinct : List Posting → Type 0
AreDistinct [] = Unit
AreDistinct (p ∷ ps) = All (λ q. q.0.event_id ≢ p.0.event_id) ps × AreDistinct ps
