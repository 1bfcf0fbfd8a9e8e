-- ===== src/Worker/Loop.antt =====
-- What the handling of a message and a refresh of the lag keep, the worker's thread keeps.
use smart_warehouse_platform.Prelude.{either, String, ℤ, pos, true, false, List, []}
use smart_warehouse_platform.Prelude.Eq.{int_eq}
use smart_warehouse_platform.Domain.Value.{Fields}
use smart_warehouse_platform.Domain.Models.{Instant}
use smart_warehouse_platform.Worker.State.{World, Services, KafkaMessage, Handling, handled, failed}
use smart_warehouse_platform.Worker.{handle_message}
use smart_warehouse_platform.Worker.Refresh.{Clock, is_due, LagState, LagAnswers, refresh_lag}
use smart_warehouse_platform.Worker.Control.{
  Thread, no_thread, looping, over, ConsumerWorker, start_thread, start_worker, stop_worker,
  hold_all, is_nil, pause_worker, resume_worker, Polled, nothing, error, message, raises, Round,
  refresh_health, fail, paused_round, end_message, polled_round, run_loop, WorkerStep, starts,
  stops, pauses, resumes, assigns, rounds, ReachableWorker, initial, after,
}

module _ (dumps : Fields → String) (services : Services) (Q : World → LagState → Type 0)
    (handled_keeps : (now : Instant) (m : KafkaMessage) (w : World) (lag : LagState)
      → Q w lag
      → Q ((handle_message dumps services now m w).1) lag)
    (refresh_keeps : (seconds : ℤ) (clock : Clock) (client : LagAnswers) (assignment : List ℤ)
        (w : World) (lag : LagState)
      → Q w lag
      → Q w ((refresh_lag seconds clock client assignment lag).1)) where
  abbrev P : ConsumerWorker → Type 0
  P worker = Q worker.world worker.lag

  hold_all_kept : (worker : ConsumerWorker) → P worker → P (hold_all worker)
  hold_all_kept worker h = either P (is_nil worker.assignment) worker _ h h

  paused_round_kept :
      (polled : Polled) (worker : ConsumerWorker) → P worker → P (paused_round polled worker)
  unfolding paused_round
  paused_round_kept nothing worker h = hold_all_kept worker h
  paused_round_kept error worker h = hold_all_kept worker h
  paused_round_kept (message m) worker h = hold_all_kept worker h
  paused_round_kept raises worker h = hold_all_kept worker h

  end_message_kept :
      (handling : Handling) (worker : ConsumerWorker) → P worker → P (end_message handling worker)
  end_message_kept failed worker h = h
  end_message_kept (handled result) worker h = h

  polled_round_kept :
      (now : Instant) (polled : Polled) (worker : ConsumerWorker)
      → P worker
      → P (polled_round dumps services now polled worker)
  unfolding polled_round
  polled_round_kept now nothing worker h = h
  polled_round_kept now error worker h = h
  polled_round_kept now raises worker h = h
  polled_round_kept now (message m) worker h =
      let after = handle_message dumps services now m worker.world in
      end_message_kept (after.0) (record worker { kafka_ok = true; world = after.1 })
        (handled_keeps now m worker.world worker.lag h)

  refresh_health_kept :
      (seconds : ℤ) (round : Round) (worker : ConsumerWorker)
      → P worker
      → P (refresh_health seconds round worker)
  refresh_health_kept seconds round worker h =
      either P (is_due seconds round.health_clock worker.last_healthcheck) _ worker h h

  run_loop_kept :
      (round : Round) (worker : ConsumerWorker)
      → P worker
      → P (run_loop dumps services round worker)
  unfolding run_loop
  run_loop_kept round worker h =
      let checked = refresh_health services.healthcheck_seconds round worker in
      let result =
        refresh_lag services.lag_refresh_seconds round.lag_clock round.client checked.assignment
          checked.lag in
      let refreshed : ConsumerWorker = record checked { lag = result.1 } in
      let same =
        refresh_keeps services.lag_refresh_seconds round.lag_clock round.client checked.assignment
          checked.world checked.lag
          (refresh_health_kept services.healthcheck_seconds round worker h) in
      either P worker.stop_event
        (record worker { thread = over; running = false; kafka_ok = false }) _ h
        (either P (result.0) (fail refreshed) _ same (
          either P refreshed.paused (paused_round round.polled refreshed)
            (polled_round dumps services round.now round.polled refreshed)
            (paused_round_kept round.polled refreshed same)
            (polled_round_kept round.now round.polled refreshed same)))

  start_thread_kept :
      (thread : Thread) (worker : ConsumerWorker) → P worker → P (start_thread thread worker)
  start_thread_kept no_thread worker h = h
  start_thread_kept looping worker h = h
  start_thread_kept over worker h = h

  step_kept :
      (worker later : ConsumerWorker) → P worker → WorkerStep dumps services worker later → P later
  unfolding start_worker stop_worker pause_worker resume_worker
  step_kept worker later h starts = start_thread_kept worker.thread worker h
  step_kept worker later h stops = h
  step_kept worker later h pauses = hold_all_kept (record worker { paused = true }) h
  step_kept worker later h resumes = either P (is_nil worker.assignment) _ _ h h
  step_kept worker later h (assigns partitions) = h
  step_kept worker later h (rounds round in_loop can) = run_loop_kept round worker h

  pub reachable_keeps :
      (world : World) (worker : ConsumerWorker)
      → Q world (record { last_lag_refresh = pos 0; consumer_lag = [] })
      → ReachableWorker dumps services world worker
      → Q worker.world worker.lag
  reachable_keeps world worker h initial = h
  reachable_keeps world worker h (after before later reached step) =
      step_kept before later (reachable_keeps world before h reached) step
