-- ===== src/Tests/Published.antt =====
-- The theorems on published events and migrations at concrete inputs.
use smart_warehouse_platform.Prelude.{pos, ◌≡◌, ◌⊎◌, inl, inr, refl, true, [], ◌∷◌, arith}
use smart_warehouse_platform.Prelude.Eq.{string_eq}
use smart_warehouse_platform.Domain.Value.{text, get}
use smart_warehouse_platform.Domain.Result.{ok}
use smart_warehouse_platform.Processor.Checks.{is_blank}
use smart_warehouse_platform.Processor.Rows.{normalize_items}
use smart_warehouse_platform.Worker.{build_context}
use smart_warehouse_platform.Publisher.{to_envelope, publish_event, accepted, unavailable}
use smart_warehouse_platform.Publisher.Requests.{order_created}
use smart_warehouse_platform.Publisher.RoundTrip.{
  build_context-to_envelope, normalize_items-to_envelope, routing_key-to_envelope, order_items,
}
use smart_warehouse_platform.Publisher.Delivery.{produced_of, publish_event_delivers}
use smart_warehouse_platform.Migrator.{parse_statements}
use smart_warehouse_platform.Migrator.Split.{parse_statements-IsIgnored}
use smart_warehouse_platform.Tests.Messages.{dumps, receive_request, order_request, order_line}

build_context-to_envelope_example :
    build_context dumps (to_envelope receive_request).event (pos 0) (pos 3)
    ≡ ok (record {
      event = (to_envelope receive_request).event;
      raw_json = "{}";
      event_id = "e9";
      event_type = "PRODUCT_RECEIVED";
      occurred_at = pos 100;
      schema_variant = "v1";
      metadata = record { partition = pos 0; offset = pos 3 };
    })
build_context-to_envelope_example =
    build_context-to_envelope dumps receive_request (pos 0) (pos 3) (inl refl)

normalize_items-to_envelope_example :
    normalize_items (get "items" (to_envelope (order_created order_request)).event)
    ≡ ok (order_items order_request.items)
normalize_items-to_envelope_example =
    normalize_items-to_envelope order_request order_line [] refl
      (unfold is_blank in (refl, refl, omega arith, tt))

routing_key-to_envelope_example : (to_envelope receive_request).routing_key ≡ text "SKU-1"
routing_key-to_envelope_example = routing_key-to_envelope receive_request refl

publish_event_delivers_example :
    (publish_event (λ queue r. true) receive_request []
      ≡ (accepted (text "e9"), produced_of (to_envelope receive_request) ∷ []))
    ⊎ (publish_event (λ queue r. true) receive_request [] ≡ (unavailable, []))
publish_event_delivers_example = publish_event_delivers (λ queue r. true) receive_request []

parse_statements-IsIgnored_example :
    parse_statements ("CREATE TYPE item (" ∷ "  -- no columns yet" ∷ ");" ∷ [])
    ≡ parse_statements ("CREATE TYPE item (" ∷ ");" ∷ [])
parse_statements-IsIgnored_example =
    parse_statements-IsIgnored ("CREATE TYPE item (" ∷ []) "  -- no columns yet" (");" ∷ [])
      (inl (refl, inl (refl, inr (refl, refl))))
