-- ===== src/Worker/Paused.antt =====
-- A paused worker changes nothing.
use smart_warehouse_platform.Prelude.{
  either, String, ℤ, true, false, ◌≡◌, refl, ◌∙◌, sym, subst, if◌then◌else◌,
}
use smart_warehouse_platform.Prelude.Eq.{int_eq}
use smart_warehouse_platform.Domain.Value.{Fields}
use smart_warehouse_platform.Worker.State.{Services}
use smart_warehouse_platform.Worker.Refresh.{is_due, refresh_lag}
use smart_warehouse_platform.Worker.Control.{
  Thread, no_thread, looping, over, ConsumerWorker, start_thread, start_worker, stop_worker, is_nil,
  pause_worker, resume_worker, Polled, nothing, error, message, raises, Round, refresh_health, fail,
  paused_round, polled_round, run_loop, WorkerStep, starts, stops, pauses, resumes, assigns, rounds,
}
use smart_warehouse_platform.Worker.Rounds.{hold_all-world}

module _ (dumps : Fields → String) (services : Services) where
  abbrev SameWorld : ConsumerWorker → ConsumerWorker → Type 0
  SameWorld worker later = later.world ≡ worker.world

  started :
      (thread : Thread) (worker : ConsumerWorker) → SameWorld worker (start_thread thread worker)
  started no_thread worker = refl
  started looping worker = refl
  started over worker = refl

  paused_round-SameWorld :
      (polled : Polled) (worker : ConsumerWorker) → SameWorld worker (paused_round polled worker)
  unfolding paused_round
  paused_round-SameWorld nothing worker = hold_all-world dumps services worker
  paused_round-SameWorld error worker = hold_all-world dumps services worker
  paused_round-SameWorld (message m) worker = hold_all-world dumps services worker
  paused_round-SameWorld raises worker = hold_all-world dumps services worker

  refresh_health-same :
      (seconds : ℤ) (round : Round) (worker : ConsumerWorker)
      → ((refresh_health seconds round worker).world ≡ worker.world)
        × ((refresh_health seconds round worker).paused ≡ worker.paused)
  refresh_health-same seconds round worker =
      either (λ (x : ConsumerWorker). (x.world ≡ worker.world) × (x.paused ≡ worker.paused))
        (is_due seconds round.health_clock worker.last_healthcheck) _ worker (refl, refl)
        (refl, refl)

  paused_run_loop :
      (round : Round) (worker : ConsumerWorker)
      → worker.paused ≡ true
      → SameWorld worker (run_loop dumps services round worker)
  unfolding run_loop
  paused_run_loop round worker h =
      let checked = refresh_health services.healthcheck_seconds round worker in
      let result =
        refresh_lag services.lag_refresh_seconds round.lag_clock round.client checked.assignment
          checked.lag in
      let refreshed : ConsumerWorker = record checked { lag = result.1 } in
      let same = refresh_health-same services.healthcheck_seconds round worker in
      either (SameWorld worker) worker.stop_event
        (record worker { thread = over; running = false; kafka_ok = false }) _ refl
        (either (SameWorld worker) (result.0) (fail refreshed) _ same.0 (
          subst
            (λ paused. SameWorld worker (
              if paused
              then paused_round round.polled refreshed
              else polled_round dumps services round.now round.polled refreshed))
            (sym (same.1 ∙ h)) (paused_round-SameWorld round.polled refreshed ∙ same.0)))

  -- A round of a paused worker, and every call of its methods, leaves the tables, the dead letters
  -- and the committed offsets as they are, whatever the round polls.
  pub paused-keeps :
      (worker later : ConsumerWorker)
      → worker.paused ≡ true
      → WorkerStep dumps services worker later
      → later.world ≡ worker.world
  unfolding start_worker stop_worker pause_worker resume_worker
  paused-keeps worker later h starts = started worker.thread worker
  paused-keeps worker later h stops = refl
  paused-keeps worker later h pauses =
      hold_all-world dumps services (record worker { paused = true })
  paused-keeps worker later h resumes =
      either (SameWorld worker) (is_nil worker.assignment) _ _ refl refl
  paused-keeps worker later h (assigns partitions) = refl
  paused-keeps worker later h (rounds round in_loop can) = paused_run_loop round worker h
