-- ===== src/Generator/Published.antt =====
-- A generated event is published, unless the producer raises.
use smart_warehouse_platform.Prelude.{
  or_true, String, suc, ℤ, Bool, true, ◌||◌, List, [], ◌∷◌, ◌++◌, Option, some, Bool-cases, inl,
  inr, ◌≡◌, refl, if◌then◌else◌,
}
use smart_warehouse_platform.Prelude.Eq.{◌==◌, string_eq}
use smart_warehouse_platform.Domain.Value.{
  Value, null, int, text, array, Fields, get, has_field, or_else,
}
use smart_warehouse_platform.Domain.Result.{Result, ok, crashed}
use smart_warehouse_platform.Publisher.{
  WarehouseEventEnvelope, ProducedEvent, is_private, public_fields, generated_envelope, to_str,
  publish, publish_generated,
}
use smart_warehouse_platform.Publisher.Delivery.{produced_of}
use smart_warehouse_platform.Generator.Apply.{event_record}
use smart_warehouse_platform.Generator.State.{Source}
use smart_warehouse_platform.Generator.Run.{
  GeneratorRuntimeState, Generator, schema_for, schema_of, record_last, end_round, publish_live,
  failed,
}

schema_for-known :
    (event_type supplier_id : Value)
    → (schema_for event_type supplier_id == "v1" || schema_for event_type supplier_id == "v2")
      ≡ true
schema_for-known (text event_type) null = elim (Bool-cases (event_type == "PRODUCT_RECEIVED")) [
  | inl e ↦ rw e refl
  | inr e ↦ rw e refl
]
schema_for-known (text event_type) (int n) = refl
schema_for-known (text event_type) (text s) = refl
schema_for-known (text event_type) (array items) = refl
schema_for-known null supplier_id = refl
schema_for-known (int n) supplier_id = refl
schema_for-known (array items) supplier_id = refl

schema_of-known : (event : Fields) → (schema_of event == "v1" || schema_of event == "v2") ≡ true
unfolding schema_of
schema_of-known event = schema_for-known (get "event_type" event) (get "supplier_id" event)

public_fields-event_record :
    (event_id event_type : String) (occurred_at : ℤ) (rest : Fields)
    → public_fields (event_record event_id event_type occurred_at rest)
      ≡ event_record event_id event_type occurred_at (public_fields rest)
unfolding public_fields is_private
public_fields-event_record event_id event_type occurred_at rest = refl

-- The envelope of a record with an id.
abbrev envelope_of : (Value → String) → Fields → String → WarehouseEventEnvelope
envelope_of show event schema = record {
  event = public_fields event;
  schema_version = schema;
  routing_key = text (
      to_str show (
        or_else
          (or_else (or_else (get "_routing_key" event) (get "product_id" event))
            (get "order_id" event))
          (get "event_id" event)));
}

module _ (produces : List ProducedEvent → ProducedEvent → Bool) (show : Value → String)
    (queue : List ProducedEvent) where
  -- What `publish_generated` gives for an envelope.
  abbrev sent : WarehouseEventEnvelope → Result (WarehouseEventEnvelope × List ProducedEvent)
  sent envelope =
      if produces queue (produced_of envelope)
      then ok (envelope, queue ++ produced_of envelope ∷ [])
      else crashed

  generated_envelope-ok :
      (event : Fields) (schema : String)
      → has_field "event_id" event ≡ true
      → generated_envelope show event schema ≡ ok (envelope_of show event schema)
  unfolding generated_envelope
  generated_envelope-ok event schema has_id = rw has_id (rw (or_true _) refl)

  publish_generated-sent :
      (event : Fields) (schema : String)
      → has_field "event_id" event ≡ true
      → (schema == "v1" || schema == "v2") ≡ true
      → publish_generated produces show event schema queue ≡ sent (envelope_of show event schema)
  unfolding publish_generated publish
  publish_generated-sent event schema has_id is_known =
      rw (generated_envelope-ok event schema has_id) (
        rw is_known
          (elim (Bool-cases (produces queue (produced_of (envelope_of show event schema)))) [
            | inl e ↦ rw e refl
            | inr e ↦ rw e refl
          ]))

-- The state after an event has been published.
abbrev pub counted : String → String → ℤ → GeneratorRuntimeState → GeneratorRuntimeState
counted event_id event_type occurred_at state = record state {
  last_event_id = text event_id;
  last_event_type = text event_type;
  last_occurred_at = some occurred_at;
  live_events_published = suc state.live_events_published;
}

module _ (source : Source) (produces : List ProducedEvent → ProducedEvent → Bool)
    (show : Value → String) (parse : String → Option ℤ) (g : Generator)
    (event_id event_type : String) (occurred_at : ℤ) (rest : Fields) where
  abbrev generated : Fields
  generated = event_record event_id event_type occurred_at rest

  abbrev pub produced : ProducedEvent
  produced = produced_of (envelope_of show generated (schema_of generated))

  end_round-event_record :
      (g' : Generator)
      → end_round g' (record_last source produces show parse (public_fields generated) g.state)
        ≡ record g' { state = counted event_id event_type occurred_at g.state }
  unfolding record_last public_fields is_private
  end_round-event_record g' = refl

  pub publish_live-event_record : publish_live source produces show parse generated g ≡ (
      if produces g.queue produced
      then record g {
        queue = g.queue ++ produced ∷ [];
        state = counted event_id event_type occurred_at g.state;
      }
      else record g { task = failed })
  unfolding publish_live
  publish_live-event_record =
      rw
        (
          publish_live,
          publish_generated-sent produces show g.queue generated (schema_of generated) refl
              (schema_of-known generated),
        )
        (elim (Bool-cases (produces g.queue produced)) [
          | inl e ↦ rw e (end_round-event_record (record g { queue = g.queue ++ produced ∷ [] }))
          | inr e ↦ rw e refl
        ])
