-- ===== src/Generator/Machine.antt =====
-- The generator as a whole: its calls and its task's turns, in any order.
use smart_warehouse_platform.Prelude.{
  or_true, String, suc, ◌+◌, ℤ, Bool, true, not, ◌||◌, List, [], ◌∷◌, ◌++◌, Option, none, some,
  length, length_snoc, Bool-cases, inl, inr, ◌≡◌, ◌≢◌, refl, ap, ◌∙◌, arith, if◌then◌else◌,
}
use smart_warehouse_platform.Domain.Value.{Value, Fields}
use smart_warehouse_platform.Publisher.{ProducedEvent}
use smart_warehouse_platform.Generator.State.{Simulation, Source}
use smart_warehouse_platform.Generator.Held.{IsSteady}
use smart_warehouse_platform.Generator.Applied.{IsEvent}
use smart_warehouse_platform.Generator.Total.{generate_operation-IsSteady}
use smart_warehouse_platform.Generator.Published.{counted, produced, publish_live-event_record}
use smart_warehouse_platform.Generator.Run.{
  Generator, Task, no_task, created, looping, failed, is_no_task, stop_task, new_generator, start,
  stop, pause, resume, enter_loop, publish_live, run_round, Step, starts, stops, pauses, resumes,
  enters, runs, Reachable, initial, after,
}

-- The simulated stock is kept, as many events have been counted as produced, and the flag that a
-- snapshot shows is the one that the loop waits for.
abbrev pub IsCoherent : Generator → Type 0
IsCoherent g =
    IsSteady g.simulation
    × (g.state.live_events_published ≡ length g.queue)
    × (g.state.paused ≡ not g.is_set)

new_generator-IsCoherent : (enabled : Bool) → IsCoherent (new_generator enabled)
unfolding new_generator
new_generator-IsCoherent enabled = (((tt, tt), tt), refl, refl)

start-IsCoherent : (g : Generator) → IsCoherent g → IsCoherent (start g)
unfolding start
start-IsCoherent g h = elim (Bool-cases (not g.enabled || not (is_no_task g.task))) [
  | inl e ↦ rw e h
  | inr e ↦ rw e h
]

some_eq : (g later : Generator) → some g ≡ some later → g ≡ later
some_eq g later e = ground (arith, e)

of_some : (g later : Generator) → IsCoherent g → some g ≡ some later → IsCoherent later
of_some g later h e = rw⁻¹ (some_eq g later e) h

stop_task-IsCoherent :
    (task : Task) (g later : Generator)
    → IsCoherent g
    → stop_task task g ≡ some later
    → IsCoherent later
stop_task-IsCoherent no_task g later h e = of_some g later h e
stop_task-IsCoherent created g later h e = of_some _ later h e
stop_task-IsCoherent looping g later h e = of_some _ later h e
stop_task-IsCoherent failed g later h e = ground arith

module _ (source : Source) (products : source.products ≢ []) (suppliers : source.suppliers ≢ [])
    (produces : List ProducedEvent → ProducedEvent → Bool) (show : Value → String)
    (parse : String → Option ℤ) where
  -- What one round leaves: one more event, or an ended task.
  abbrev Round : Generator → Generator → Type 0
  Round g later =
      (sim : Simulation) × (event_id : String) × (event_type : String) × (occurred_at : ℤ)
      × (event : ProducedEvent) × IsSteady sim
      × (later ≡ (
          if produces g.queue event
          then record g {
            simulation = sim;
            queue = g.queue ++ event ∷ [];
            state = counted event_id event_type occurred_at g.state;
          }
          else record g { task = failed; simulation = sim }))

  published-Round :
      (g : Generator) (sim : Simulation) (event : Fields)
      → IsSteady sim
      → IsEvent event
      → Round g (publish_live source produces show parse event (record g { simulation = sim }))
  published-Round g sim event steady (event_id, event_type, occurred_at, rest, is) = (
    sim,
    event_id,
    event_type,
    occurred_at,
    produced source produces show parse (record g { simulation = sim }) event_id event_type
        occurred_at rest,
    steady,
    rw is (
        publish_live-event_record source produces show parse (record g { simulation = sim })
          event_id event_type occurred_at rest),
  )

  run_round-Round :
      (now : ℤ) (g : Generator)
      → IsSteady g.simulation
      → Round g (run_round source produces show parse now g)
  unfolding run_round
  run_round-Round now g h =
      let (found, e, both) =
        generate_operation-IsSteady source now products suppliers g.simulation h in
      rw (run_round, e) (published-Round g (found.1) (found.0) both.0 both.1)

  Round-IsCoherent : (g later : Generator) → IsCoherent g → Round g later → IsCoherent later
  Round-IsCoherent g later h (sim, event_id, event_type, occurred_at, event, steady, e) =
      rw e (elim (Bool-cases (produces g.queue event)) [
        | inl accepted ↦ rw accepted (steady, rw (length_snoc g.queue event) (ap suc h.1), h.2)
        | inr refused ↦ rw refused (steady, h.1, h.2)
      ])

  Step-IsCoherent :
      (g later : Generator)
      → IsCoherent g
      → Step source produces show parse g later
      → IsCoherent later
  unfolding stop pause resume enter_loop
  Step-IsCoherent g later h starts = start-IsCoherent g h
  Step-IsCoherent g later h (stops stopped e) = stop_task-IsCoherent g.task g stopped h e
  Step-IsCoherent g later h pauses = (h.0, h.1, refl)
  Step-IsCoherent g later h resumes = (h.0, h.1, refl)
  Step-IsCoherent g later h (enters now e) = h
  Step-IsCoherent g later h (runs now e is_set) =
      Round-IsCoherent g (run_round source produces show parse now g) h (run_round-Round now g h.0)

  -- If there is a product and a supplier, then in every state that any sequence of `start`, `stop`,
  -- `pause`, `resume` and turns of the task leads to, the count of published events is the number of
  -- records produced, the flag `paused` says whether the loop waits, the simulated stock has at every
  -- position an available quantity of at least -4 and a quantity reserved by hand of at least 0, and
  -- every open order is kept under its id.
  pub Reachable-IsCoherent :
      (enabled : Bool) (g : Generator)
      → Reachable source produces show parse enabled g
      → IsCoherent g
  Reachable-IsCoherent enabled g initial = new_generator-IsCoherent enabled
  Reachable-IsCoherent enabled g (after before later reached step) =
      Step-IsCoherent before later (Reachable-IsCoherent enabled before reached) step

  -- The rounds of the loop, one at each time.
  abbrev pub rounds : List ℤ → Generator → Generator
  rounds [] g = g
  rounds (now ∷ times) g = rounds times (run_round source produces show parse now g)

  module _
      (accepts : (queue : List ProducedEvent) (event : ProducedEvent)
        → produces queue event ≡ true) where
    round_accepted :
        (now : ℤ) (g : Generator)
        → IsSteady g.simulation
        → IsSteady (run_round source produces show parse now g).simulation
          × ((run_round source produces show parse now g).task ≡ g.task)
          × (length (run_round source produces show parse now g).queue ≡ suc (length g.queue))
    round_accepted now g h =
        let (sim, event_id, event_type, occurred_at, event, steady, e) = run_round-Round now g h in
        rw e (rw (accepts g.queue event) (steady, refl, length_snoc g.queue event))

    -- If there is a product and a supplier, the producer accepts every record, the simulated stock has
    -- at every position an available quantity of at least -4 and a quantity reserved by hand of at
    -- least 0, and every open order is kept under its id, then each round of a running loop produces
    -- one more record, whatever is drawn, and the loop goes on.
    pub rounds-produce :
        (times : List ℤ) (g : Generator)
        → IsSteady g.simulation
        → g.task ≡ looping
        → (length (rounds times g).queue ≡ length g.queue + length times)
          × ((rounds times g).task ≡ looping)
    rounds-produce [] g h e = (ground arith, e)
    rounds-produce (now ∷ times) g h e =
        let round = round_accepted now g h in
        let rest =
          rounds-produce times (run_round source produces show parse now g) round.0 (round.1 ∙ e) in
        (ground (arith, rest.0, round.2), rest.1)

start_failed : (g : Generator) → g.task ≡ failed → start g ≡ g
unfolding start
start_failed g e = rw (start, e) (rw (or_true (not g.enabled)) refl)

stop_failed : (g : Generator) → g.task ≡ failed → stop g ≡ none
unfolding stop
stop_failed g e = rw (stop, e) refl

-- Once an exception has ended the task, no call and no turn produces anything or starts it again, and
-- `stop` raises: it is still the generator's task.
pub failed-stays :
    (source : Source) (produces : List ProducedEvent → ProducedEvent → Bool) (show : Value → String)
    (parse : String → Option ℤ) (g later : Generator)
    → g.task ≡ failed
    → Step source produces show parse g later
    → (later.task ≡ failed) × (later.queue ≡ g.queue) × (stop later ≡ none)
unfolding pause resume
failed-stays source produces show parse g later e starts =
    rw (start_failed g e) (e, refl, stop_failed g e)
failed-stays source produces show parse g later e (stops stopped h) =
    ground (arith, stop_failed g e, h)
failed-stays source produces show parse g later e pauses = (e, refl, stop_failed (pause g) e)
failed-stays source produces show parse g later e resumes = (e, refl, stop_failed (resume g) e)
failed-stays source produces show parse g later e (enters now h) = ground (arith, e, h)
failed-stays source produces show parse g later e (runs now h is_set) = ground (arith, e, h)
