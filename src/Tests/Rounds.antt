-- ===== src/Tests/Rounds.antt =====
-- The theorems on the worker's rounds and the traffic at concrete inputs.
use smart_warehouse_platform.Prelude.{
  All, String, ℤ, pos, negsuc, ◌+ℤ◌, ◌-ℤ◌, ◌≤ℤ◌, true, false, [], ◌∷◌, Option, none, some, inl, inr,
  ◌≡◌, refl, arith, if◌then◌else◌,
}
use smart_warehouse_platform.Prelude.Eq.{◌==◌, string_eq, int_eq}
use smart_warehouse_platform.Repository.Schema.{HistoryRow, Tables}
use smart_warehouse_platform.Inventory.Consistency.{IsConsistent}
use smart_warehouse_platform.Analytics.{build_hourly_traffic, hours_of_days, history_of, up_to}
use smart_warehouse_platform.Analytics.Summary.{rows_in, rows_read, build_hourly_traffic-summary}
use smart_warehouse_platform.Worker.Control.{
  ConsumerWorker, new_worker, looping, start_worker, Round, message, run_loop, starts, rounds,
  initial, after,
}
use smart_warehouse_platform.Worker.Refresh.{LagAnswers, lags}
use smart_warehouse_platform.Worker.Rounds.{HasHandled, ReachableWorker-IsConsistent}
use smart_warehouse_platform.Worker.Paused.{paused-keeps}
use smart_warehouse_platform.Worker.Lag.{lags-bounds}
use smart_warehouse_platform.Tests.Warehouse.{empty_tables, empty-IsConsistent}
use smart_warehouse_platform.Tests.Messages.{memory_services, empty_world, dumps, receipt_message}

abbrev row : String → Option ℤ → HistoryRow
row outcome occurred_at_ms = record {
  event_date = pos 0;
  processed_at = pos 9;
  event_id = "e1";
  event_type = "PRODUCT_RECEIVED";
  outcome = outcome;
  error_reason = none;
  error_code = none;
  schema_variant = "v2";
  kafka_partition = pos 0;
  kafka_offset = pos 3;
  raw_payload = "{}";
  occurred_at_ms = occurred_at_ms;
}

-- Two events of the hours 3 and 5 of the second day, and one without a time.
abbrev history : Tables
history = record empty_tables {
  event_history_by_day = λ date.
      if date == pos 1
      then row "APPLIED" (some (pos 97_200_000))
        ∷ row "DLQ" (some (pos 104_400_000))
        ∷ row "APPLIED" none
        ∷ []
      else [];
}

build_hourly_traffic-summary_example :
    ((build_hourly_traffic history (pos 30) (pos 1)).total_events
      ≡ rows_in
          (pos 30 -ℤ hours_of_days (pos 1))
          (pos 30)
          (λ row. true)
          (rows_read history (pos 30) (pos 1)))
    × ((build_hourly_traffic history (pos 30) (pos 1)).applied_events
        ≡ rows_in
            (pos 30 -ℤ hours_of_days (pos 1))
            (pos 30)
            (λ row. row.outcome == "APPLIED")
            (rows_read history (pos 30) (pos 1)))
    × ((build_hourly_traffic history (pos 30) (pos 1)).dlq_events
        ≡ rows_in
            (pos 30 -ℤ hours_of_days (pos 1))
            (pos 30)
            (λ row. row.outcome == "DLQ")
            (rows_read history (pos 30) (pos 1)))
build_hourly_traffic-summary_example =
    build_hourly_traffic-summary history (pos 30) (pos 1)
      (unfold history_of up_to ◌-ℤ◌ ◌+ℤ◌ in (inl refl, (inr (inr refl), (inl refl, tt))))

abbrev started : ConsumerWorker
started = record (new_worker empty_world) { thread = looping; running = true }

-- A topic of two partitions, the first with committed offset 33.
abbrev pub topic_answers : LagAnswers
topic_answers = record {
  is_closed = false;
  topic = some (some (pos 0 ∷ pos 1 ∷ []));
  committed = some (pos 33 ∷ negsuc 1000 ∷ []);
  high = λ partition. some 40;
}

abbrev pub round : Round
round = record {
  now = pos 7;
  health_clock = record { tested = pos 12; kept = pos 12 };
  healthcheck = true;
  lag_clock = record { tested = pos 12; kept = pos 13 };
  client = topic_answers;
  polled = message receipt_message;
}

ReachableWorker-IsConsistent_example :
    HasHandled dumps memory_services empty_world
      (run_loop dumps memory_services round (start_worker (new_worker empty_world))).world
    × IsConsistent
        (run_loop dumps memory_services round (start_worker (new_worker empty_world))).world.tables
unfolding start_worker
ReachableWorker-IsConsistent_example =
    ReachableWorker-IsConsistent dumps memory_services empty_world empty-IsConsistent
      (run_loop dumps memory_services round (start_worker (new_worker empty_world)))
      (after (start_worker (new_worker empty_world))
        (run_loop dumps memory_services round (start_worker (new_worker empty_world)))
        (after (new_worker empty_world) (start_worker (new_worker empty_world)) initial starts)
        (rounds round refl refl))

paused-keeps_example :
    (run_loop dumps memory_services round (record started { paused = true })).world ≡ empty_world
paused-keeps_example =
    paused-keeps dumps memory_services (record started { paused = true })
      (run_loop dumps memory_services round (record started { paused = true })) refl
      (rounds round refl refl)

abbrev watermark : ℤ → ℤ
watermark partition = pos 40

lags-bounds_example :
    All
      (λ reported. (pos 0 ≤ℤ reported.1) × (reported.1 ≤ℤ watermark (reported.0)))
      (lags watermark ((pos 0, pos 33) ∷ []) (pos 0 ∷ pos 1 ∷ []))
lags-bounds_example =
    lags-bounds watermark ((pos 0, pos 33) ∷ []) (pos 0 ∷ pos 1 ∷ []) (λ partition. ground arith)
