-- ===== src/Generator/State.antt =====
-- The state of wms_service/app/application/generator.py. Its zones are the keys of `self._zones`.
use smart_warehouse_platform.Prelude.{String, ℕ, ℤ, pos, ◌+ℤ◌, List, [], ◌∷◌, Option, none, Dict}

pub record SimulatedInventory : Type 0 where
  pub available : ℤ
  pub reserved_manual : ℤ
  pub reserved_order : ℤ
  pub supplier_id : Option String

abbrev pub reserved : SimulatedInventory → ℤ
reserved p = p.reserved_manual +ℤ p.reserved_order

abbrev pub total : SimulatedInventory → ℤ
total p = p.available +ℤ reserved p

-- `SimulatedInventory()`
abbrev pub no_stock : SimulatedInventory
no_stock = record {
  available = pos 0;
  reserved_manual = pos 0;
  reserved_order = pos 0;
  supplier_id = none;
}

pub record SimulatedOrderItem : Type 0 where
  pub product_id : String
  pub zone_id : String
  pub quantity : ℤ

-- Times are in milliseconds since the epoch, as `_ts_ms` gives them.
pub record SimulatedOrder : Type 0 where
  pub order_id : String
  pub items : List SimulatedOrderItem
  pub created_at : ℤ
  pub routing_key : String

pub data Zone : Type 0 where
  live_a live_b live_c : Zone

abbrev pub zone_name : Zone → String
zone_name live_a = "ZONE-LIVE-A"
zone_name live_b = "ZONE-LIVE-B"
zone_name live_c = "ZONE-LIVE-C"

abbrev pub zone_capacity : Zone → ℕ
zone_capacity live_a = 30_000
zone_capacity live_b = 30_000
zone_capacity live_c = 20_000

abbrev pub zones : List Zone
zones = live_a ∷ live_b ∷ live_c ∷ []

abbrev pub Inventory : Type 0
Inventory = Dict String (Dict String SimulatedInventory)

-- `_inventory` and `_open_orders`, and how much of the two sources below has been used.
pub record Simulation : Type 0 where
  pub inventory : Inventory
  pub open_orders : Dict String SimulatedOrder
  pub drawn : ℕ
  pub issued : ℕ

-- What the generator takes from outside: the numbers behind `self._rng`, which may be any; the
-- texts of `uuid.uuid4()`; the order id of a time and a uuid; and the products and suppliers, which
-- the settings count.
pub record Source : Type 0 where
  pub random : ℕ → ℕ
  pub uuid : ℕ → String
  pub order_id : ℤ → String → String
  pub products : List String
  pub suppliers : List String
