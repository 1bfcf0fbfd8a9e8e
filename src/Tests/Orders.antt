-- ===== src/Tests/Orders.antt =====
-- The theorems on what the consumer reads of generated events, at concrete inputs.
use smart_warehouse_platform.Prelude.{pos, [], ◌∷◌, some, ◌≡◌, refl, arith}
use smart_warehouse_platform.Domain.Value.{Fields}
use smart_warehouse_platform.Processor.Checks.{is_blank}
use smart_warehouse_platform.Generator.State.{SimulatedOrderItem, Simulation, Source}
use smart_warehouse_platform.Generator.Apply.{apply_order_created}
use smart_warehouse_platform.Generator.RoundTrip.{
  AreReadable, IsContext, AgreesWith, apply_order_created-AgreesWith,
}
use smart_warehouse_platform.Tests.Messages.{dumps}

abbrev clock_source : Source
clock_source = record {
  random = λ n. n;
  uuid = λ n. "77aa";
  order_id = λ t suffix. "ORD-19700101-77aa";
  products = "MP-SKU-0001" ∷ [];
  suppliers = "SUP-001" ∷ [];
}

abbrev no_simulation : Simulation
no_simulation = record { inventory = []; open_orders = []; drawn = 0; issued = 0 }

abbrev first_line : SimulatedOrderItem
first_line = record { product_id = "MP-SKU-0001"; zone_id = "ZONE-LIVE-A"; quantity = pos 4 }

abbrev second_line : SimulatedOrderItem
second_line = record { product_id = "MP-SKU-0001"; zone_id = "ZONE-LIVE-B"; quantity = pos 2 }

lines-AreReadable : AreReadable (first_line ∷ second_line ∷ [])
unfolding is_blank
lines-AreReadable = (refl, refl, ground arith, (refl, refl, ground arith, tt))

apply_order_created-AgreesWith_example :
    (found : Fields × Simulation) × (apply_order_created clock_source
        (pos 9)
        first_line
        (second_line ∷ [])
        no_simulation
      ≡ some found)
    × (IsContext dumps (pos 0) (pos 5) "ORDER_CREATED" (pos 9) (found.0)
        × AgreesWith first_line (second_line ∷ []) (found.0) (found.1))
apply_order_created-AgreesWith_example =
    apply_order_created-AgreesWith dumps (pos 0) (pos 5) clock_source (pos 9) first_line
      (second_line ∷ []) lines-AreReadable no_simulation
