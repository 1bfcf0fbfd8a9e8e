-- ===== src/Worker/Control.antt =====
-- The thread of consumer_worker.py: the rounds of `_run`, `start`, `stop`, `pause`, `resume`,
-- `status` and the refresh of health and lag, and the routes of consumer_service/app/api/routes.py.
use smart_warehouse_platform.Prelude.{
  String, ℤ, pos, Bool, true, false, ◌&&◌, List, [], ◌∷◌, Option, none, some, contains, ◌≡◌,
  if◌then◌else◌,
}
use smart_warehouse_platform.Prelude.Eq.{int_eq}
use smart_warehouse_platform.Domain.Value.{Fields}
use smart_warehouse_platform.Domain.Models.{Instant}
use smart_warehouse_platform.Worker.State.{World, Services, KafkaMessage, Handling, handled, failed}
use smart_warehouse_platform.Worker.Refresh.{Clock, is_due, LagState, LagAnswers, refresh_lag}
use smart_warehouse_platform.Worker.{handle_message}

-- `self._thread`: none, in its loop, or over.
pub data Thread : Type 0 where
  no_thread looping over : Thread

-- `ConsumerWorker`, with the partitions that its Kafka client is assigned and those that it holds
-- back, and what the handling of messages acts on.
pub record ConsumerWorker : Type 0 where
  pub thread : Thread
  pub stop_event : Bool
  pub running : Bool
  pub kafka_ok : Bool
  pub cassandra_ok : Bool
  pub paused : Bool
  pub assignment : List ℤ
  pub held : List ℤ
  pub last_healthcheck : ℤ
  pub lag : LagState
  pub world : World

-- `__init__`
abbrev pub new_worker : World → ConsumerWorker
new_worker world = record {
  thread = no_thread;
  stop_event = false;
  running = false;
  kafka_ok = false;
  cassandra_ok = false;
  paused = false;
  assignment = [];
  held = [];
  last_healthcheck = pos 0;
  lag = record { last_lag_refresh = pos 0; consumer_lag = [] };
  world = world;
}

-- `start`, with what `_run` does up to its loop: the client subscribes, and has no partitions yet.
abbrev pub start_thread : Thread → ConsumerWorker → ConsumerWorker
start_thread no_thread worker = record worker { thread = looping; running = true }
start_thread _ worker = worker

unfoldable pub start_worker : ConsumerWorker → ConsumerWorker
start_worker worker = start_thread worker.thread worker

unfoldable pub stop_worker : ConsumerWorker → ConsumerWorker
stop_worker worker = record worker { stop_event = true }

abbrev pub is_nil : List ℤ → Bool
is_nil [] = true
is_nil (p ∷ ps) = false

-- `if partitions: self._consumer.pause(partitions)`: all that is assigned is held.
abbrev pub hold_all : ConsumerWorker → ConsumerWorker
hold_all worker =
    if is_nil worker.assignment then worker else record worker { held = worker.assignment }

unfoldable pub pause_worker : ConsumerWorker → ConsumerWorker
pause_worker worker = hold_all (record worker { paused = true })

unfoldable pub resume_worker : ConsumerWorker → ConsumerWorker
resume_worker worker =
    if is_nil worker.assignment
    then record worker { paused = false }
    else record worker { paused = false; held = [] }

-- `running`, `kafka_ok`, `cassandra_ok`, `paused`.
unfoldable pub status : ConsumerWorker → Bool × Bool × Bool × Bool
status worker = (worker.running, worker.kafka_ok, worker.cassandra_ok, worker.paused)

-- The route `health`: `none` is the 503.
unfoldable pub health : ConsumerWorker → Option (Bool × Bool × Bool × Bool)
unfolding status
health worker = if worker.kafka_ok && worker.cassandra_ok then some (status worker) else none

-- What `poll` gives: nothing in time, an error, a message, or an exception.
pub data Polled : Type 0 where
  nothing : Polled
  error : Polled
  message : KafkaMessage → Polled
  raises : Polled

-- What a round meets: the clock and the answer of the health check, the clock and the answers for the
-- lag, and the poll.
pub record Round : Type 0 where
  pub now : Instant
  pub health_clock : Clock
  pub healthcheck : Bool
  pub lag_clock : Clock
  pub client : LagAnswers
  pub polled : Polled

-- `_refresh_health`
abbrev pub refresh_health : ℤ → Round → ConsumerWorker → ConsumerWorker
refresh_health seconds round worker =
    if is_due seconds round.health_clock worker.last_healthcheck
    then record worker {
      last_healthcheck = round.health_clock.kept;
      cassandra_ok = round.healthcheck;
    }
    else worker

-- `except Exception`
abbrev pub fail : ConsumerWorker → ConsumerWorker
fail worker = record worker { kafka_ok = false }

-- The branch of the paused worker, which drops what it polls.
unfoldable pub paused_round : Polled → ConsumerWorker → ConsumerWorker
paused_round raises worker = fail (hold_all worker)
paused_round _ worker = record (hold_all worker) { kafka_ok = true }

abbrev pub end_message : Handling → ConsumerWorker → ConsumerWorker
end_message failed worker = fail worker
end_message (handled result) worker = worker

module _ (dumps : Fields → String) (services : Services) where
  unfoldable pub polled_round : Instant → Polled → ConsumerWorker → ConsumerWorker
  polled_round now nothing worker = record worker { kafka_ok = true }
  polled_round now error worker = fail worker
  polled_round now raises worker = fail worker
  polled_round now (message m) worker =
      let (handling, world) = handle_message dumps services now m worker.world in
      end_message handling (record worker { kafka_ok = true; world = world })

  -- One round of the loop, whose test is `not self._stop_event.is_set()`.
  unfoldable pub run_loop : Round → ConsumerWorker → ConsumerWorker
  unfolding paused_round polled_round refresh_lag
  run_loop round worker =
      let checked = refresh_health services.healthcheck_seconds round worker in
      let (lag_raises, lag) =
        refresh_lag services.lag_refresh_seconds round.lag_clock round.client checked.assignment
          checked.lag in
      let refreshed = record checked { lag = lag } in
      if worker.stop_event
      then record worker { thread = over; running = false; kafka_ok = false }
      else (if lag_raises
          then fail refreshed
          else (if refreshed.paused
              then paused_round round.polled refreshed
              else polled_round round.now round.polled refreshed))

  -- What the client delivers: a message is of no partition that is held.
  abbrev pub CanPoll : Polled → ConsumerWorker → Type 0
  CanPoll (message m) worker = contains worker.held m.partition ≡ false
  CanPoll _ worker = Unit

  -- What can happen to the worker: its calls, another assignment of partitions, and rounds.
  pub data WorkerStep (worker : ConsumerWorker) : ConsumerWorker → Type 0 where
    starts : WorkerStep worker (start_worker worker)
    stops : WorkerStep worker (stop_worker worker)
    pauses : WorkerStep worker (pause_worker worker)
    resumes : WorkerStep worker (resume_worker worker)
    assigns :
        (partitions : List ℤ)
        → WorkerStep worker (record worker { assignment = partitions; held = [] })
    rounds :
        (round : Round)
        → worker.thread ≡ looping
        → CanPoll round.polled worker
        → WorkerStep worker (run_loop round worker)

  pub data ReachableWorker (world : World) : ConsumerWorker → Type 0 where
    initial : ReachableWorker world (new_worker world)
    after :
        (worker later : ConsumerWorker)
        → ReachableWorker world worker
        → WorkerStep worker later
        → ReachableWorker world later
