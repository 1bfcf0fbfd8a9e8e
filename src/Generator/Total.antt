-- ===== src/Generator/Total.antt =====
-- `_generate_operation` returns an event, whatever is drawn.
use smart_warehouse_platform.Prelude.{
  either, String, ℕ, zero, suc, ◌+◌, ◌<◌, ◌≤◌, ℤ, pos, ltb, leb, true, ◌&&◌, List, [], ◌∷◌, Option,
  none, some, ◌≡◌, ◌≢◌, refl, arith,
}
use smart_warehouse_platform.Domain.Value.{Fields}
use smart_warehouse_platform.Generator.State.{Simulation, Source, live_a, zone_name}
use smart_warehouse_platform.Generator.Draws.{Gen, pure}
use smart_warehouse_platform.Generator.Stock.{is_load_above, is_load_below}
use smart_warehouse_platform.Generator.Logic.{
  Post, Post-get, Triple, Triple-bind, Triple-pure, Triple-look,
}
use smart_warehouse_platform.Generator.Chance.{Triple-draw}
use smart_warehouse_platform.Generator.Held.{IsSteady}
use smart_warehouse_platform.Generator.Applied.{EventAndSteady, apply_count-IsSteady}
use smart_warehouse_platform.Generator.Picked.{MaybeEvent}
use smart_warehouse_platform.Generator.Built.{
  build_shipped_event-IsSteady, build_reserved_event-IsSteady, build_release_event-IsSteady,
  build_count_event-IsSteady, build_move_event-IsSteady,
}
use smart_warehouse_platform.Generator.Received.{build_receive_event-IsSteady}
use smart_warehouse_platform.Generator.Ordered.{
  build_order_created_event-IsSteady, build_order_completed_event-IsSteady,
}
use smart_warehouse_platform.Generator.Build.{
  Operation, receive, shipped, move, reserve, release, count, order_created, order_completed, build,
}
use smart_warehouse_platform.Generator.Pick.{
  Weights, hour_of, weights_of, weights_at, at_high_load, at_low_load, sum_of, choices,
  pick_operation,
}
use smart_warehouse_platform.Generator.Run.{
  count_first, fallback, try_operations, generate_operation,
}

lt→ltb : (a b : ℕ) → a < b → ltb a b ≡ true
lt→ltb a b h = ground arith

-- `choices` can choose: there is a weight that is not 0.
abbrev pub CanChoose : Weights → Type 0
CanChoose [] = ⊥
CanChoose ((operation, weight) ∷ rest) = 0 < sum_of ((operation, weight) ∷ rest)

weights_of-CanChoose : (hour : ℕ) → CanChoose (weights_of hour)
unfolding weights_of
weights_of-CanChoose hour = either CanChoose (leb 6 hour && ltb hour 10) _ _ (ground arith) (
    either CanChoose (leb 10 hour && ltb hour 18) _ _ (ground arith)
      (either CanChoose (leb 18 hour && ltb hour 23) _ _ (ground arith) (ground arith)))

sum_of-at_high_load : (weights : Weights) → sum_of weights ≤ sum_of (at_high_load weights)
unfolding at_high_load
sum_of-at_high_load [] = ground arith
sum_of-at_high_load ((operation, weight) ∷ rest) = ground (arith, sum_of-at_high_load rest)

at_high_load-CanChoose : (weights : Weights) → CanChoose weights → CanChoose (at_high_load weights)
unfolding at_high_load
at_high_load-CanChoose [] h = elim h [ ]
at_high_load-CanChoose ((operation, weight) ∷ rest) h = ground (arith, h, sum_of-at_high_load rest)

at_low_load-CanChoose : (weights : Weights) → CanChoose weights → CanChoose (at_low_load weights)
unfolding at_low_load
at_low_load-CanChoose [] h = elim h [ ]
at_low_load-CanChoose ((operation, weight) ∷ rest) h = ground arith

pub weights_at-CanChoose :
    (event_time : ℤ) (sim : Simulation) → CanChoose (weights_at event_time sim)
unfolding weights_at
weights_at-CanChoose event_time sim =
    let weights = weights_of (hour_of event_time) in
    let chosen = weights_of-CanChoose (hour_of event_time) in
    either CanChoose (is_load_above 72 sim.inventory) (at_high_load weights) _
      (at_high_load-CanChoose weights chosen)
      (either CanChoose (is_load_below 22 sim.inventory) (at_low_load weights) weights
        (at_low_load-CanChoose weights chosen) chosen)

-- The cases of `if generated is not None`.
Triple-unless_event :
    {step : Gen Fields}
    → Triple IsSteady step EventAndSteady
    → (found : Option Fields)
    → Triple
        (MaybeEvent found)
        (elim found [ some event ↦ pure event | none ↦ step ])
        EventAndSteady
Triple-unless_event h none = h
Triple-unless_event h (some event) = Triple-pure event (λ sim k. k)

module _ (source : Source) where
  choices-Triple :
      (weights : Weights)
      → CanChoose weights
      → Triple IsSteady (choices source weights) (λ operation. IsSteady)
  unfolding choices
  choices-Triple [] h = elim h [ ]
  choices-Triple ((operation, weight) ∷ rest) h =
      rw (lt→ltb 0 (weight + sum_of rest) h) (
        Triple-bind (Triple-draw source (λ sim drawn issued h. h))
          (λ n. Triple-pure _ (λ sim h. h)))

  module _ (event_time : ℤ) where
    pick_operation-IsSteady :
        Triple IsSteady (pick_operation source event_time) (λ operation. IsSteady)
    unfolding pick_operation
    pick_operation-IsSteady =
        Triple-bind
          (Triple-look {Q = λ weights sim. IsSteady sim × CanChoose weights} _
            (λ sim h. (h, weights_at-CanChoose event_time sim)))
          (λ weights. record { run = λ sim h. (choices-Triple weights h.1).run sim h.0 })

    module _ (products : source.products ≢ []) (suppliers : source.suppliers ≢ []) where
      build-IsSteady :
          (operation : Operation) → Triple IsSteady (build source event_time operation) MaybeEvent
      unfolding build
      build-IsSteady receive = build_receive_event-IsSteady source event_time products suppliers
      build-IsSteady shipped = build_shipped_event-IsSteady source event_time
      build-IsSteady move = build_move_event-IsSteady source event_time
      build-IsSteady reserve = build_reserved_event-IsSteady source event_time
      build-IsSteady release = build_release_event-IsSteady source event_time
      build-IsSteady count = build_count_event-IsSteady source event_time products
      build-IsSteady order_created = build_order_created_event-IsSteady source event_time
      build-IsSteady order_completed = build_order_completed_event-IsSteady source event_time

      count_first-IsSteady :
          (ps : List String)
          → ps ≢ []
          → Triple IsSteady (count_first source event_time ps) EventAndSteady
      unfolding count_first
      count_first-IsSteady [] h = elim (h refl) [ ]
      count_first-IsSteady (p ∷ ps) h =
          apply_count-IsSteady source event_time p (zone_name live_a) (pos 0) (ground arith)

      fallback-IsSteady : Triple IsSteady (fallback source event_time) EventAndSteady
      unfolding fallback
      fallback-IsSteady = Triple-bind (build_shipped_event-IsSteady source event_time) (
          Triple-unless_event (
            Triple-bind (build_count_event-IsSteady source event_time products)
              (Triple-unless_event (count_first-IsSteady source.products products))))

      try_operations-IsSteady :
          (tries : ℕ) → Triple IsSteady (try_operations source event_time tries) EventAndSteady
      unfolding try_operations
      try_operations-IsSteady zero = fallback-IsSteady
      try_operations-IsSteady (suc tries) = Triple-bind pick_operation-IsSteady (λ operation.
          Triple-bind (build-IsSteady operation)
            (Triple-unless_event (try_operations-IsSteady tries)))

      generate_operation-Post :
          (sim : Simulation)
          → IsSteady sim
          → Post EventAndSteady (generate_operation source event_time sim)
      unfolding generate_operation
      generate_operation-Post sim h = (try_operations-IsSteady 20).run sim h

      -- With a product and a supplier, from a stock that is kept as said here and open orders that
      -- are kept under their ids, `_generate_operation` returns an event and does not fail, whatever
      -- is drawn; what is published of the event conforms to the Avro schema that is chosen for it
      -- exactly if its numbers fit the schema's types. It keeps the open orders under their ids, and at every position of the simulated
      -- stock an available quantity of at least -4 and a quantity reserved by hand of at least 0.
      pub generate_operation-IsSteady :
          (sim : Simulation)
          → IsSteady sim
          → (found : Fields × Simulation) × (generate_operation source event_time sim ≡ some found)
            × EventAndSteady (found.0) (found.1)
      generate_operation-IsSteady sim h =
          Post-get EventAndSteady (generate_operation source event_time sim)
            (generate_operation-Post sim h)
