-- ===== src/Tests/Messages.antt =====
-- Messages and requests for the tests, and clients that always succeed.
use smart_warehouse_platform.Prelude.{String, ℤ, pos, true, [], ◌∷◌, none}
use smart_warehouse_platform.Domain.Value.{Fields}
use smart_warehouse_platform.Domain.Models.{EventContext}
use smart_warehouse_platform.Worker.State.{World, Services, KafkaMessage}
use smart_warehouse_platform.Worker.{handle_event}
use smart_warehouse_platform.Publisher.{to_envelope}
use smart_warehouse_platform.Publisher.Requests.{
  OrderItemRequest, OrderCreatedRequest, WarehouseEventRequest, product_received, product_shipped,
}
use smart_warehouse_platform.Tests.Warehouse.{memory_session, empty_tables}

abbrev pub memory_services : Services
memory_services = record {
  session = memory_session;
  produces = λ w r. true;
  commits = λ w m. true;
  healthcheck_seconds = pos 10;
  lag_refresh_seconds = pos 5;
}

abbrev pub empty_world : World
empty_world = record { tables = empty_tables; dlq = []; commits = [] }

abbrev pub world_after : EventContext → World → World
world_after c w = (handle_event memory_services (pos 7) c w).1

abbrev pub dumps : Fields → String
dumps event = "{}"

abbrev pub receive_request : WarehouseEventRequest
receive_request = product_received (record {
  base = record { event_id = "e9"; occurred_at = pos 100 };
  product_id = "SKU-1";
  zone_id = "ZONE-A";
  quantity = pos 4;
  supplier_id = none;
  schema_version = "v1";
})

abbrev pub message_of : WarehouseEventRequest → ℤ → KafkaMessage
message_of request offset = record {
  value = (to_envelope request).event;
  partition = pos 0;
  offset = offset;
}

abbrev pub receipt_message : KafkaMessage
receipt_message = message_of receive_request (pos 3)

abbrev pub shipment_message : KafkaMessage
shipment_message =
    message_of
      (product_shipped (record {
        base = record { event_id = "e11"; occurred_at = pos 300 };
        product_id = "SKU-1";
        zone_id = "ZONE-A";
        quantity = pos 3;
      }))
      (pos 4)

abbrev pub order_line : OrderItemRequest
order_line = record { product_id = "SKU-1"; zone_id = "ZONE-A"; quantity = pos 2 }

abbrev pub order_request : OrderCreatedRequest
order_request = record {
  base = record { event_id = "e10"; occurred_at = pos 200 };
  order_id = "ORDER-2";
  items = order_line ∷ [];
}
