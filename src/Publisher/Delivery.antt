-- ===== src/Publisher/Delivery.antt =====
-- What a request to publish leaves in the producer's queue.
use smart_warehouse_platform.Prelude.{
  ◌≡◌, refl, ◌⊎◌, inl, inr, Bool, Bool-cases, List, [], ◌∷◌, ◌++◌, ◌||◌, ap, ◌∙◌,
}
use smart_warehouse_platform.Prelude.Eq.{◌==◌, string_eq}
use smart_warehouse_platform.Domain.Value.{text, get}
use smart_warehouse_platform.Domain.Result.{Result, ok, crashed, ◌>>=◌}
use smart_warehouse_platform.Publisher.Requests.{WarehouseEventRequest, base_of}
use smart_warehouse_platform.Publisher.{
  WarehouseEventEnvelope, ProducedEvent, HttpResponse, accepted, unavailable, to_envelope, publish,
  publish_request, publish_event,
}
use smart_warehouse_platform.Publisher.RoundTrip.{event_id-to_envelope}

-- What is produced for an envelope.
abbrev pub produced_of : WarehouseEventEnvelope → ProducedEvent
produced_of envelope = record {
  key = envelope.routing_key;
  value = envelope.event;
  schema = envelope.schema_version;
}

module _ (produces : List ProducedEvent → ProducedEvent → Bool) (request : WarehouseEventRequest)
    (queue : List ProducedEvent) where
  publish_returns :
      (envelope : WarehouseEventEnvelope)
      → (publish produces envelope queue ≡ ok (queue ++ produced_of envelope ∷ []))
        ⊎ (publish produces envelope queue ≡ crashed)
  unfolding publish
  publish_returns envelope =
      elim (Bool-cases (envelope.schema_version == "v1" || envelope.schema_version == "v2")) [
        | inl known ↦ elim (Bool-cases (produces queue (produced_of envelope))) [
          | inl returns ↦ inl (rw known (rw returns refl))
          | inr raises ↦ inr (rw known (rw raises refl))
        ]
        | inr unknown ↦ inr (rw unknown refl)
      ]

  answer : Result (List ProducedEvent) → HttpResponse × List ProducedEvent
  answer m =
      let sent : Result (WarehouseEventEnvelope × List ProducedEvent) =
        m >>= λ queue'. ok (to_envelope request, queue') in
      elim sent [
        | ok (envelope, queue') ↦ (accepted (get "event_id" envelope.event), queue')
        | _ ↦ (unavailable, queue)
      ]

  -- The route answers 202 with the request's id after the request's one record has been produced, or
  -- 503 with nothing produced.
  pub publish_event_delivers :
      (publish_event produces request queue ≡ (
        accepted (text (base_of request).event_id),
        queue ++ produced_of (to_envelope request) ∷ [],
      ))
      ⊎ (publish_event produces request queue ≡ (unavailable, queue))
  unfolding publish_event publish_request answer
  publish_event_delivers = elim (publish_returns (to_envelope request)) [
    | inl e ↦ inl (
        ap answer e
        ∙ ap (λ id. (accepted id, queue ++ produced_of (to_envelope request) ∷ []))
            (event_id-to_envelope request))
    | inr e ↦ inr (ap answer e)
  ]
