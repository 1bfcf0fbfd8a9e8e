-- ===== src/Tests/Traffic.antt =====
-- The theorems on the generator at concrete inputs.
use smart_warehouse_platform.Prelude.{
  String, ◌+◌, ◌*◌, ℤ, pos, ◌+ℤ◌, ◌-ℤ◌, ◌<ℤ◌, Bool, true, List, [], ◌∷◌, Option, none, some, length,
  ◌≡◌, ◌≢◌, refl, arith,
}
use smart_warehouse_platform.Domain.Value.{Value, Fields}
use smart_warehouse_platform.Publisher.{ProducedEvent}
use smart_warehouse_platform.Generator.State.{
  live_a, live_b, live_c, SimulatedInventory, Inventory, Simulation, Source, no_stock,
}
use smart_warehouse_platform.Generator.Stock.{
  position_of, put_position, zone_total, zone_remaining_capacity,
}
use smart_warehouse_platform.Generator.Held.{IsSound, IsSteady}
use smart_warehouse_platform.Generator.Applied.{EventAndSteady}
use smart_warehouse_platform.Generator.Run.{
  Generator, looping, failed, new_generator, start, stop, pause, enter_loop, generate_operation,
  run_round, starts, pauses, enters, runs, initial, after,
}
use smart_warehouse_platform.Generator.ZoneTotals.{share, zone_total-put_position}
use smart_warehouse_platform.Generator.Apply.{apply_receive}
use smart_warehouse_platform.Generator.Capacity.{AreWithin, apply_receive-AreWithin}
use smart_warehouse_platform.Generator.Total.{generate_operation-IsSteady}
use smart_warehouse_platform.Generator.Machine.{
  IsCoherent, Reachable-IsCoherent, rounds, rounds-produce, failed-stays,
}

abbrev source : Source
source = record {
  random = λ n. 7 * n;
  uuid = λ n. "0b5f";
  order_id = λ t suffix. "ORD-19700101-0b5f";
  products = "MP-SKU-0001" ∷ "MP-SKU-0002" ∷ [];
  suppliers = "SUP-001" ∷ [];
}

products : source.products ≢ []
products h = ground arith

suppliers : source.suppliers ≢ []
suppliers h = ground arith

abbrev position : SimulatedInventory
position = record no_stock { available = pos 40; supplier_id = some "SUP-001" }

abbrev inventory : Inventory
inventory =
    ("MP-SKU-0001", ("ZONE-LIVE-A", position) ∷ [])
    ∷ ("MP-SKU-0002", ("ZONE-LIVE-B", no_stock) ∷ [])
    ∷ []

abbrev simulation : Simulation
simulation = record { inventory = inventory; open_orders = []; drawn = 0; issued = 0 }

position-IsSound : IsSound position
position-IsSound = ground arith

no_stock-IsSound : IsSound no_stock
no_stock-IsSound = ground arith

simulation-IsSteady : IsSteady simulation
simulation-IsSteady = (
  (
    (refl, (refl, tt)),
    (((refl, tt), (position-IsSound, tt)), (((refl, tt), (no_stock-IsSound, tt)), tt)),
  ),
  tt,
)

abbrev running : Generator
running = record (new_generator true) { task = looping; simulation = simulation }

abbrev ended : Generator
ended = record (new_generator true) { task = failed }

abbrev accepts_all : List ProducedEvent → ProducedEvent → Bool
accepts_all queue event = true

abbrev show : Value → String
show v = ""

abbrev parse : String → Option ℤ
parse s = none

generate_operation-IsSteady_example :
    (found : Fields × Simulation) × (generate_operation source (pos 36_000_000) simulation
      ≡ some found)
    × EventAndSteady (found.0) (found.1)
generate_operation-IsSteady_example =
    generate_operation-IsSteady source (pos 36_000_000) products suppliers simulation
      simulation-IsSteady

abbrev entered : Generator
entered = enter_loop (pos 0) (start (new_generator true))

Reachable-IsCoherent_example :
    IsCoherent (run_round source accepts_all show parse (pos 400) entered)
unfolding new_generator start enter_loop
Reachable-IsCoherent_example =
    Reachable-IsCoherent source products suppliers accepts_all show parse true
      (run_round source accepts_all show parse (pos 400) entered)
      (after entered (run_round source accepts_all show parse (pos 400) entered)
        (after (start (new_generator true)) entered
          (after (new_generator true) (start (new_generator true)) initial starts)
          (enters (pos 0) refl))
        (runs (pos 400) refl refl))

rounds-produce_example :
    (length
        (rounds source products suppliers accepts_all show parse
          (pos 0 ∷ pos 400 ∷ [])
          running).queue
      ≡ length running.queue + 2)
    × ((rounds source products suppliers accepts_all show parse (pos 0 ∷ pos 400 ∷ []) running).task
        ≡ looping)
unfolding new_generator
rounds-produce_example =
    rounds-produce source products suppliers accepts_all show parse (λ queue event. refl)
      (pos 0 ∷ pos 400 ∷ []) running simulation-IsSteady refl

failed-stays_example :
    ((pause ended).task ≡ failed)
    × ((pause ended).queue ≡ ended.queue)
    × (stop (pause ended) ≡ none)
failed-stays_example = failed-stays source accepts_all show parse ended (pause ended) refl pauses

zone_total-put_position_example :
    zone_total "ZONE-LIVE-A" (put_position "MP-SKU-0001" "ZONE-LIVE-A" no_stock inventory)
      +ℤ share "ZONE-LIVE-A" "ZONE-LIVE-A" (position_of "MP-SKU-0001" "ZONE-LIVE-A" inventory)
    ≡ zone_total "ZONE-LIVE-A" inventory +ℤ share "ZONE-LIVE-A" "ZONE-LIVE-A" no_stock
zone_total-put_position_example =
    zone_total-put_position "ZONE-LIVE-A" "MP-SKU-0001" "ZONE-LIVE-A" no_stock inventory

simulation-AreWithin : AreWithin simulation
unfolding zone_total ◌+ℤ◌
simulation-AreWithin live_a = ground arith
simulation-AreWithin live_b = ground arith
simulation-AreWithin live_c = ground arith

simulation_room : pos 0 <ℤ zone_remaining_capacity live_a simulation.inventory
unfolding zone_remaining_capacity zone_total ◌+ℤ◌ ◌-ℤ◌
simulation_room = ground arith

apply_receive-AreWithin_example :
    (found : Fields × Simulation) × (apply_receive source
        (pos 0)
        "MP-SKU-0002"
        live_a
        (pos 12)
        "SUP-001"
        simulation
      ≡ some found)
    × AreWithin (found.1)
apply_receive-AreWithin_example =
    apply_receive-AreWithin source (pos 0) "MP-SKU-0002" "SUP-001" live_a (pos 12) (ground arith)
      simulation simulation-AreWithin simulation_room
