-- ===== src/Tests/Schemas.antt =====
-- The theorem on the Avro schemas at a concrete input.
use smart_warehouse_platform.Prelude.{refl, ◌≡◌, ◌&&◌, inr}
use smart_warehouse_platform.Publisher.{to_envelope}
use smart_warehouse_platform.Publisher.Schemas.{conforms, schema_named, is_long}
use smart_warehouse_platform.Publisher.Requests.{base_of, order_created}
use smart_warehouse_platform.Publisher.Conforms.{numbers_fit, conforms-to_envelope}
use smart_warehouse_platform.Tests.Messages.{order_request}

conforms-to_envelope_example :
    conforms
      (schema_named (to_envelope (order_created order_request)).schema_version)
      (to_envelope (order_created order_request)).event
    ≡ is_long (base_of (order_created order_request)).occurred_at
      && numbers_fit (order_created order_request)
conforms-to_envelope_example = conforms-to_envelope (order_created order_request) (inr refl)
