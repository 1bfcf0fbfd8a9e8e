-- ===== src/Worker/Rounds.antt =====
-- The worker's rounds handle the messages that it polls while it is not paused, in order.
use smart_warehouse_platform.Prelude.{
  String, List, [], ◌∷◌, ◌++◌, Bool-cases, inl, inr, ◌≡◌, refl, sym, ap, ◌∙◌,
}
use smart_warehouse_platform.Prelude.Eq.{int_eq}
use smart_warehouse_platform.Domain.Value.{Fields}
use smart_warehouse_platform.Domain.Models.{Instant}
use smart_warehouse_platform.Inventory.Consistency.{IsConsistent}
use smart_warehouse_platform.Worker.State.{World, Services, KafkaMessage}
use smart_warehouse_platform.Worker.{handle_message, handle_messages}
use smart_warehouse_platform.Worker.Recorded.{handle_messages-IsConsistent}
use smart_warehouse_platform.Worker.Loop.{reachable_keeps}
use smart_warehouse_platform.Worker.Control.{ConsumerWorker, hold_all, is_nil, ReachableWorker}

module _ (dumps : Fields → String) (services : Services) where
  handle_messages_snoc :
      (messages : List (Instant × KafkaMessage)) (now : Instant) (m : KafkaMessage) (w : World)
      → handle_messages dumps services (messages ++ (now, m) ∷ []) w
        ≡ (handle_message dumps services now m (handle_messages dumps services messages w)).1
  unfolding handle_messages
  handle_messages_snoc [] now m w = refl
  handle_messages_snoc ((now', m') ∷ messages) now m w =
      handle_messages_snoc messages now m (handle_message dumps services now' m' w).1

  -- What has been done is what some messages' handling does.
  abbrev pub HasHandled : World → World → Type 0
  HasHandled w w' =
      (messages : List (Instant × KafkaMessage)) × (w' ≡ handle_messages dumps services messages w)

  HasHandled-message :
      (w w' : World) (now : Instant) (m : KafkaMessage)
      → HasHandled w w'
      → HasHandled w ((handle_message dumps services now m w').1)
  HasHandled-message w w' now m (messages, e) = (
    messages ++ (now, m) ∷ [],
    ap (λ x. (handle_message dumps services now m x).1) e
        ∙ sym (handle_messages_snoc messages now m w),
  )

  pub hold_all-world : (worker : ConsumerWorker) → (hold_all worker).world ≡ worker.world
  hold_all-world worker = elim (Bool-cases (is_nil worker.assignment)) [
    | inl e ↦ rw e refl
    | inr e ↦ rw e refl
  ]

  module _ (w : World) where
    refl_handled : w ≡ handle_messages dumps services [] w
    unfolding handle_messages
    refl_handled = refl

    -- From consistent tables, in every state that any sequence of `start`, `stop`, `pause`, `resume`,
    -- assignments of partitions and rounds of the loop leads to, what was done is the handling of
    -- some messages one after the other, and the tables are consistent.
    pub ReachableWorker-IsConsistent :
        IsConsistent w.tables
        → (worker : ConsumerWorker) → ReachableWorker dumps services w worker
        → HasHandled w worker.world × IsConsistent worker.world.tables
    ReachableWorker-IsConsistent h worker reached =
        let (messages, e) =
          reachable_keeps dumps services (λ w' lag. HasHandled w w')
            (λ now m w' lag done. HasHandled-message w w' now m done)
            (λ seconds clock client assignment w' lag done. done) w worker ([], refl_handled)
            reached in
        ((messages, e), rw e (handle_messages-IsConsistent dumps services messages w h))
