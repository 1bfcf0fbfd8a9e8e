-- ===== src/Tests/Ledger.antt =====
-- The theorem on the worker's ledger at a run in which a message is delivered twice.
use smart_warehouse_platform.Prelude.{String, pos, [], ◌∷◌, List, ◌≡◌, refl}
use smart_warehouse_platform.Domain.Models.{Instant}
use smart_warehouse_platform.Worker.State.{KafkaMessage}
use smart_warehouse_platform.Worker.{
  handle_messages, handle_message, build_context, handle_event, finish, commit_message,
}
use smart_warehouse_platform.Publisher.{to_envelope}
use smart_warehouse_platform.Worker.Postings.{Posting, postings}
use smart_warehouse_platform.Worker.Ledger.{ArePosted, handle_messages-ArePosted}
use smart_warehouse_platform.Tests.Warehouse.{run, empty_tables, empty-IsConsistent}
use smart_warehouse_platform.Tests.Messages.{
  memory_services, empty_world, dumps, receipt_message, shipment_message,
}

abbrev deliveries : List (Instant × KafkaMessage)
deliveries = (pos 7, receipt_message) ∷ (pos 8, shipment_message) ∷ (pos 9, receipt_message) ∷ []

handle_messages-ArePosted_example :
    ArePosted empty_tables
      (handle_messages dumps memory_services deliveries empty_world).tables
      (postings dumps memory_services deliveries empty_world)
handle_messages-ArePosted_example =
    handle_messages-ArePosted dumps memory_services deliveries empty_world empty-IsConsistent

abbrev event_ids : List Posting → List String
event_ids [] = []
event_ids ((context, t) ∷ ps) = context.event_id ∷ event_ids ps

-- The receipt is applied when it comes first, and not again.
deliveries_test :
    event_ids (postings dumps memory_services deliveries empty_world) ≡ "e9" ∷ "e11" ∷ []
unfolding run postings handle_message build_context handle_event finish commit_message to_envelope
deliveries_test = refl
