-- ===== src/Generator/Run.antt =====
-- The generator's task: `_generate_operation`, `_publish`, the loop of `run`, and the calls that
-- control it.
use smart_warehouse_platform.Prelude.{
  String, ℕ, zero, suc, ℤ, pos, Bool, true, false, not, ◌||◌, List, [], ◌∷◌, Option, none, some,
  ◌≡◌, if◌then◌else◌,
}
use smart_warehouse_platform.Prelude.Eq.{◌==◌, string_eq}
use smart_warehouse_platform.Domain.Value.{Value, null, int, text, array, Fields, get, has_field}
use smart_warehouse_platform.Domain.Result.{ok}
use smart_warehouse_platform.Publisher.{ProducedEvent, publish_generated}
use smart_warehouse_platform.Generator.State.{live_a, zone_name, Simulation, Source}
use smart_warehouse_platform.Generator.Draws.{Gen, pure, raise, ◌>>=◌}
use smart_warehouse_platform.Generator.Apply.{apply_count}
use smart_warehouse_platform.Generator.Build.{build, build_shipped_event, build_count_event}
use smart_warehouse_platform.Generator.Pick.{pick_operation}

module _ (source : Source) (event_time : ℤ) where
  -- `self._products[0]`
  unfoldable pub count_first : List String → Gen Fields
  count_first [] = raise
  count_first (product_id ∷ rest) =
      apply_count source event_time product_id (zone_name live_a) (pos 0)

  unfoldable pub fallback : Gen Fields
  unfolding count_first
  fallback = build_shipped_event source event_time >>= λ shipped. elim shipped [
    | some event ↦ pure event
    | none ↦ build_count_event source event_time >>= λ counted. elim counted [
      | some event ↦ pure event
      | none ↦ count_first source.products
    ]
  ]

  -- So many rounds of the loop of `_generate_operation`.
  unfoldable pub try_operations : ℕ → Gen Fields
  unfolding fallback
  try_operations zero = fallback
  try_operations (suc tries) = pick_operation source event_time >>= λ operation.
      build source event_time operation >>= λ generated. elim generated [
        | some event ↦ pure event
        | none ↦ try_operations tries
      ]

  unfoldable pub generate_operation : Gen Fields
  unfolding try_operations
  generate_operation = try_operations 20

abbrev pub schema_for : Value → Value → String
schema_for (text event_type) null = if event_type == "PRODUCT_RECEIVED" then "v1" else "v2"
schema_for _ _ = "v2"

-- `_publish`: the schema of a record, from its type and its supplier.
unfoldable pub schema_of : Fields → String
schema_of event = schema_for (get "event_type" event) (get "supplier_id" event)

-- `GeneratorRuntimeState`, which `snapshot` copies. Its id and type are whatever the record holds.
pub record GeneratorRuntimeState : Type 0 where
  pub phase : String
  pub paused : Bool
  pub started_at : Option ℤ
  pub live_events_published : ℕ
  pub last_event_id : Value
  pub last_event_type : Value
  pub last_occurred_at : Option ℤ

-- `self._task`: not created, created and not run yet, in its loop, or ended by an exception.
pub data Task : Type 0 where
  no_task created looping failed : Task

-- The generator with what it has handed to the producer. `is_set` is `self._pause_event`.
pub record Generator : Type 0 where
  pub enabled : Bool
  pub state : GeneratorRuntimeState
  pub is_set : Bool
  pub task : Task
  pub simulation : Simulation
  pub queue : List ProducedEvent

-- `__init__`
unfoldable pub new_generator : Bool → Generator
new_generator enabled = record {
  enabled = enabled;
  state = record {
    phase = if enabled then "idle" else "disabled";
    paused = false;
    started_at = none;
    live_events_published = 0;
    last_event_id = null;
    last_event_type = null;
    last_occurred_at = none;
  };
  is_set = true;
  task = no_task;
  simulation = record { inventory = []; open_orders = []; drawn = 0; issued = 0 };
  queue = [];
}

abbrev pub is_no_task : Task → Bool
is_no_task no_task = true
is_no_task _ = false

unfoldable pub start : Generator → Generator
start g = if not g.enabled || not (is_no_task g.task) then g else record g { task = created }

abbrev pub stop_task : Task → Generator → Option Generator
stop_task no_task g = some g
stop_task failed g = none
stop_task _ g = some (record g { task = no_task; state = record g.state { phase = "stopped" } })

-- `none`: the exception that ended the task comes out of `await self._task`.
unfoldable pub stop : Generator → Option Generator
stop g = stop_task g.task g

unfoldable pub pause : Generator → Generator
pause g = record g { is_set = false; state = record g.state { paused = true } }

unfoldable pub resume : Generator → Generator
resume g = record g { is_set = true; state = record g.state { paused = false } }

unfoldable pub snapshot : Generator → Bool × GeneratorRuntimeState
snapshot g = (g.enabled, g.state)

-- What `run` does up to its loop.
unfoldable pub enter_loop : ℤ → Generator → Generator
enter_loop now g = record g {
  task = looping;
  state = record g.state { phase = "live"; started_at = some now };
}

abbrev pub end_round : Generator → GeneratorRuntimeState × Bool → Generator
end_round g (state, false) = record g { task = failed; state = state }
end_round g (state, true) = record g {
  state = record state { live_events_published = suc state.live_events_published };
}

-- What the producer accepts, `str` of a value that is none, and `int` of a `str`.
module _ (source : Source) (produces : List ProducedEvent → ProducedEvent → Bool)
    (show : Value → String) (parse : String → Option ℤ) where
  abbrev pub to_int : Value → Option ℤ
  to_int null = none
  to_int (int n) = some n
  to_int (text s) = parse s
  to_int (array _) = none

  -- What a published record changes of the state, and whether that ends without an exception: a
  -- field may be missing, or no number.
  unfoldable pub record_last : Fields → GeneratorRuntimeState → GeneratorRuntimeState × Bool
  record_last event state =
      let with_id = record state { last_event_id = get "event_id" event } in
      let with_type = record with_id { last_event_type = get "event_type" event } in
      if has_field "event_id" event
      then (if has_field "event_type" event
          then (elim (to_int (get "occurred_at" event)) [
            | none ↦ (with_type, false)
            | some occurred_at ↦ (record with_type { last_occurred_at = some occurred_at }, true)
          ])
          else (with_id, false))
      else (state, false)

  -- `self._publish(live_event)` and the count of events. An exception ends the task.
  unfoldable pub publish_live : Fields → Generator → Generator
  unfolding schema_of record_last
  publish_live event g = elim (publish_generated produces show event (schema_of event) g.queue) [
    | ok (envelope, queue) ↦
        end_round (record g { queue = queue }) (record_last envelope.event g.state)
    | _ ↦ record g { task = failed }
  ]

  -- One round of the loop. Nothing reads the simulation of a task that has ended.
  unfoldable pub run_round : ℤ → Generator → Generator
  unfolding publish_live generate_operation
  run_round now g = elim (generate_operation source now g.simulation) [
    | none ↦ record g { task = failed }
    | some (event, simulation) ↦ publish_live event (record g { simulation = simulation })
  ]

  -- What can happen to the generator: the calls of its methods, and the task's turns.
  pub data Step (g : Generator) : Generator → Type 0 where
    starts : Step g (start g)
    stops : (later : Generator) → stop g ≡ some later → Step g later
    pauses : Step g (pause g)
    resumes : Step g (resume g)
    enters : (now : ℤ) → g.task ≡ created → Step g (enter_loop now g)
    runs : (now : ℤ) → g.task ≡ looping → g.is_set ≡ true → Step g (run_round now g)

  pub data Reachable (enabled : Bool) : Generator → Type 0 where
    initial : Reachable enabled (new_generator enabled)
    after : (g later : Generator) → Reachable enabled g → Step g later → Reachable enabled later
