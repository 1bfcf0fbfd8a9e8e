-- ===== src/Lib.antt =====
-- A model of the smart warehouse platform: the consumer service, which applies warehouse events to
-- the inventory in Cassandra, and the WMS service, which publishes events and generates traffic.
--
-- A request to the WMS service becomes a record (wms_service/app/application/event_service.py) that
-- is produced to Kafka. The worker of the consumer service (consumer_worker.py) takes one message
-- after the other, lets the processor (processor.py) read the tables and write one batch through the
-- repository (cassandra_repository.py), records stale and rejected events, sends rejected ones to
-- the dead letter topic (dlq_producer.py), and commits the offset.
--
-- Files, with the code under consumer_service/app/ unless it says otherwise:
--   Domain/Models, Domain/Result   domain/models.py; Domain/Value is the decoded event, a dict
--   Repository, Repository/Schema  infrastructure/cassandra_repository.py: its reads are functions of
--     the record `Tables`, and `apply_state_change` runs the batch that it builds
--   Repository/Cql  the CQL that this relies on: an INSERT overwrites the row of its primary key
--   Processor/...  application/processor.py: `process` and each `process_...` are the methods
--     `process` and `_process_...`, with the session, the clock's reading, the event and the tables as
--     arguments, and they return the result with the tables after it
--   Worker, Worker/State  application/consumer_worker.py and infrastructure/dlq_producer.py:
--     `handle_message` is one round of the loop of `_run`, `handle_event` what it does once the
--     context is built, and `handle_messages` the rounds of a run
--   Worker/Control  the worker's thread: `run_loop` is one round of `_run`, with what the round meets as
--     an argument, and `WorkerStep` is what can happen to the worker
--   Worker/Refresh  `_refresh_lag`: `refresh_lag`, and the test of `_refresh_health`
--   Worker/Postings  the abstract view of a run: the events that it applies and the sums of their effects
--   Analytics  application/traffic_analytics.py and api/routes.py (`traffic_analytics`, the counts)
--   Publisher, Publisher/Requests  wms_service/app/application/event_service.py, api/schemas.py,
--     api/routes.py (the route `publish_event`), domain/events.py, infrastructure/kafka_producer.py
--   Generator/State, Draws, Stock, Apply, Build, Pick, Run  wms_service/app/application/generator.py:
--     a step is a function from the simulated stock to what it returns and the stock after it, or an
--     exception; `build_..._event` and `apply_...` are the methods `_build_..._event` and `_apply_...`,
--     `run_round` is one round of the loop of `run`, and `Step` what can happen to the generator
--   Observability  common/observability.py: `install_http_metrics` and the initialization of its series
--   Gates  scripts/check_prometheus_gates.py: `main` gives the exit code and the report's checks
--   Migrator, Migrator/Main  migrator/apply_migrations.py: `parse_statements` and `main`
--   Connection  the loop of 30 attempts in which `main` and the repository connect
--   Repository/Open  infrastructure/cassandra_repository.py: `__init__`, `healthcheck` and `close`
--   Publisher/Schemas  schemas/warehouse_event_v1.avsc and warehouse_event_v2.avsc
--   Inventory/Effects, Inventory/Levels  an abstract description of the events: the stock under each
--     key, and what each event adds to it
--   Inventory/...  proofs on the processor. Coherence, Changes, Grouping, Zones, Fits, Deltas,
--     Totals, Batch and Consistency lead to the invariant; Handlers, Moves, Items, Orders and
--     Process show that it is kept; Exact is about the two checks, Stock about the totals, Settles
--     and Outcomes about what `process` returns, Lifecycle about the orders; Shifts, RowShifts,
--     MoveShifts, OrderRows, OrderLines, OrderMoves and OrderShifts lead to Refinement, which relates
--     `process` to the abstract description
--   Worker/Ends, Handled, Targets, Recorded, Loop, Rounds, Paused, Lag, Offsets, Gauge, Reported  proofs on the
--     worker; Keeps, Shifted, Posted and Ledger relate its runs to the abstract view
--   Analytics/...  proofs on the traffic: Counts is a bucket, Covered the hours, Sums and Summary the
--     sums of the series
--   Publisher/RoundTrip, Publisher/Conforms, Publisher/Delivery, Migrator/Split, Migrator/Runs,
--     Connection/First, Gates/Verdict, Observability/Counted  proofs on these parts
--   Generator/...  proofs on the generator: Shapes is the form of the records, Logic and Chance
--     are its steps and draws, Positions and ZoneTotals the stock, Held to Ordered the methods,
--     Capacity the zones, Lines the lines of a new order, RoundTrip what the consumer reads of it,
--     Total the search for an event, Published a round, and Machine the task
--   Tests/...  a warehouse in memory, runs, and the theorems at concrete inputs
--
-- Errors: `Result` has a value, a `DomainValidationError`, or any other exception (`crashed`).
-- A message is kept as the arguments that its f-string prints. Integers are unbounded as in Python;
-- a value that does not fit its column makes the batch fail, and a session may fail on any batch.
-- A handler writes once and last, so an error leaves the tables as they were. One handling of a
-- message reads the clock once. Loops are recursion on lists; the two loops of the
-- generator that count (20 tries, 12 attempts), and the migrator's 30 attempts to connect, are
-- recursion on what is left of the count. Times of `time.monotonic` are integers of one unit.
--
-- Parameters: the Cassandra session, of which is assumed that a batch which succeeds has run its
-- statements, and that one which raises has run none (a batch that times out and is applied later
-- is not modelled); the migrator's session and clusters, whose calls return or raise, but for their
-- shutdown, which returns; the Kafka clients, whose calls return or raise; `json.dumps` and `str`; the
-- numbers behind `random.Random`, the ids of `uuid4` and the order ids, which may be any; and the
-- counters and histograms of prometheus_client, with the laws that `inc` and `observe` document. The
-- ratios that the generator compares as floats are compared by products.
--
-- Order of sets: Python iterates over a set of zones or keys in some order, the model in the order
-- of insertion. It decides only which of two errors is raised first and the order of a batch's
-- totals, which have distinct keys.
--
-- Not modelled: reads that raise, dates out of the range of `datetime`, the interleaving of threads
-- within a round, the metrics of the worker's events, the text of the repository's prepared
-- statements, the other HTTP routes, configuration, the delay between two generated events, and the
-- HTTP calls of the Prometheus gates, whose floats are a parameter.
pub mod Prelude
pub mod Domain
pub mod Repository
pub mod Processor
pub mod Worker
pub mod Publisher
pub mod Generator
pub mod Gates
pub mod Observability
pub mod Analytics
pub mod Connection
pub mod Migrator
pub mod Inventory
pub mod Tests
