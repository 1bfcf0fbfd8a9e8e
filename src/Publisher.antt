-- ===== src/Publisher.antt =====
-- wms_service/app/application/event_service.py: from a request, or a generated record, to the
-- record that is produced to Kafka.
pub mod Requests
pub mod RoundTrip
pub mod Delivery
pub mod Schemas
pub mod Conforms
use Prim.Native.Char.{code}
use Prim.Native.String.{[], ◌∷◌}
use smart_warehouse_platform.Prelude.{
  String, Bool, true, false, not, ◌||◌, List, ◌++◌, Option, none, some, nat_beq, if◌then◌else◌,
}
use smart_warehouse_platform.Prelude.Eq.{◌==◌, string_eq}
use smart_warehouse_platform.Domain.Value.{
  Value, null, int, text, array, Items, nil, cons, Fields, end, field, get, has_field, is_truthy,
  or_else,
}
use smart_warehouse_platform.Domain.Result.{Result, ok, crashed, ◌>>=◌}
use smart_warehouse_platform.Publisher.Requests.{
  OrderItemRequest, ProductReceivedRequest, ProductShippedRequest, ProductMovedRequest,
  InventoryCountedRequest, OrderCreatedRequest, OrderCompletedRequest, WarehouseEventRequest,
  product_received, product_shipped, product_reserved, product_released, product_moved,
  inventory_counted, order_created, order_completed, event_type, base_of,
}

-- `WarehouseEventEnvelope` of domain/events.py. Its routing key is whatever `or` gives.
pub record WarehouseEventEnvelope : Type 0 where
  pub event : Fields
  pub schema_version : String
  pub routing_key : Value

-- `record[name] = value`
abbrev pub set_field : String → Value → Fields → Fields
set_field name value end = field name value end
set_field name value (field k v rest) =
    let others = set_field name value rest in
    if k == name then field k value rest else field k v others

-- `record.pop(name, None)`
abbrev pub pop_field : String → Fields → Fields
pop_field name end = end
pop_field name (field k v rest) =
    let others = pop_field name rest in if k == name then rest else field k v others

-- `item.model_dump(mode="python")`, for each item.
abbrev pub dump_items : List OrderItemRequest → Items
dump_items List.[] = nil
dump_items (List.◌∷◌ item items) =
    cons
      (field "product_id" (text item.product_id)
        (field "zone_id" (text item.zone_id) (field "quantity" (int item.quantity) end)))
      (dump_items items)

abbrev pub text_or_none : Option String → Value
text_or_none none = null
text_or_none (some s) = text s

-- The record that `_to_envelope` starts with.
unfoldable pub blank_record : WarehouseEventRequest → Fields
blank_record request = field "event_id" (text (base_of request).event_id) (
    field "event_type" (text (event_type request)) (
      field "occurred_at" (int (base_of request).occurred_at) (
        field "product_id" null (
          field "zone_id" null (
            field "quantity" null (
              field "from_zone_id" null (
                field "to_zone_id" null (
                  field "counted_quantity" null (
                    field "order_id" null
                      (field "items" null (field "supplier_id" null end)))))))))))

abbrev fill_quantity : ProductShippedRequest → Fields → Fields
fill_quantity r event =
    set_field "quantity" (int r.quantity)
      (set_field "zone_id" (text r.zone_id) (set_field "product_id" (text r.product_id) event))

-- The chain of tests on the request's class.
unfoldable pub fill_record : WarehouseEventRequest → Fields → Fields
fill_record (product_received r) event = set_field "supplier_id" (text_or_none r.supplier_id) (
    set_field "quantity" (int r.quantity)
      (set_field "zone_id" (text r.zone_id) (set_field "product_id" (text r.product_id) event)))
fill_record (product_shipped r) event = fill_quantity r event
fill_record (product_reserved r) event = fill_quantity r event
fill_record (product_released r) event = fill_quantity r event
fill_record (product_moved r) event = set_field "quantity" (int r.quantity) (
    set_field "to_zone_id" (text r.to_zone_id) (
      set_field "from_zone_id" (text r.from_zone_id)
        (set_field "product_id" (text r.product_id) event)))
fill_record (inventory_counted r) event =
    set_field "counted_quantity" (int r.counted_quantity)
      (set_field "zone_id" (text r.zone_id) (set_field "product_id" (text r.product_id) event))
fill_record (order_created r) event =
    set_field "items" (array (dump_items r.items)) (set_field "order_id" (text r.order_id) event)
fill_record (order_completed r) event = set_field "order_id" (text r.order_id) event

abbrev pub schema_version_of : WarehouseEventRequest → String
schema_version_of (product_received r) = r.schema_version
schema_version_of _ = "v2"

-- `_to_envelope`
unfoldable pub to_envelope : WarehouseEventRequest → WarehouseEventEnvelope
unfolding blank_record fill_record
to_envelope request =
    let filled = fill_record request (blank_record request) in
    let schema_version = schema_version_of request in
    let event = if schema_version == "v1" then pop_field "supplier_id" filled else filled in
    record {
      event = event;
      schema_version = schema_version;
      routing_key =
          or_else (or_else (get "product_id" event) (get "order_id" event)) (get "event_id" event);
    }

-- `key.startswith("_")`
unfoldable pub is_private : String → Bool
is_private [] = false
is_private (c ∷ s) = nat_beq (code c) 0x5f

-- The items of a generated record whose keys are not private.
unfoldable pub public_fields : Fields → Fields
unfolding is_private
public_fields end = end
public_fields (field k v rest) =
    let others = public_fields rest in if not (is_private k) then field k v others else others

-- `str(v)`, where `show` prints what is not a `str`.
abbrev pub to_str : (Value → String) → Value → String
to_str show (text s) = s
to_str show v = show v

-- The envelope of `publish_generated`; a record without an id raises only if nothing before it in
-- the chain is truthy.
unfoldable pub generated_envelope :
    (Value → String) → Fields → String → Result WarehouseEventEnvelope
unfolding public_fields
generated_envelope show event schema_version =
    let subject =
      or_else (or_else (get "_routing_key" event) (get "product_id" event))
        (get "order_id" event) in
    if is_truthy subject || has_field "event_id" event
    then ok (record {
      event = public_fields event;
      schema_version = schema_version;
      routing_key = text (to_str show (or_else subject (get "event_id" event)));
    })
    else crashed

-- What `AvroProducer.produce` is given.
pub record ProducedEvent : Type 0 where
  pub key : Value
  pub value : Fields
  pub schema : String

-- The 202 with the `EventResponse` of an id, or the 503.
pub data HttpResponse : Type 0 where
  accepted : Value → HttpResponse
  unavailable : HttpResponse

-- A record of a schema is handed to the producer's queue, or the call raises: that is up to the
-- client.
module _ (produces : List ProducedEvent → ProducedEvent → Bool) where
  -- `KafkaWarehouseProducer.publish` of infrastructure/kafka_producer.py, which has two schemas.
  unfoldable pub publish : WarehouseEventEnvelope → List ProducedEvent → Result (List ProducedEvent)
  publish envelope queue =
      let produced : ProducedEvent = record {
        key = envelope.routing_key;
        value = envelope.event;
        schema = envelope.schema_version;
      } in
      if envelope.schema_version == "v1" || envelope.schema_version == "v2"
      then (if produces queue produced then ok (queue ++ List.◌∷◌ produced List.[]) else crashed)
      else crashed

  unfoldable pub publish_generated :
      (Value → String)
      → Fields
      → String
      → List ProducedEvent
      → Result (WarehouseEventEnvelope × List ProducedEvent)
  unfolding generated_envelope publish
  publish_generated show event schema_version queue = do
    envelope ← generated_envelope show event schema_version
    queue' ← publish envelope queue
    ok (envelope, queue')

  unfoldable pub publish_request :
      WarehouseEventRequest
      → List ProducedEvent
      → Result (WarehouseEventEnvelope × List ProducedEvent)
  unfolding to_envelope publish
  publish_request request queue = do
    let envelope = to_envelope request
    queue' ← publish envelope queue
    ok (envelope, queue')

  -- The route `publish_event` of api/routes.py: any exception becomes a 503.
  unfoldable pub publish_event :
      WarehouseEventRequest → List ProducedEvent → HttpResponse × List ProducedEvent
  publish_event request queue = elim (publish_request request queue) [
    | ok (envelope, queue') ↦ (accepted (get "event_id" envelope.event), queue')
    | _ ↦ (unavailable, queue)
  ]
