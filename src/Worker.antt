-- ===== src/Worker.antt =====
-- consumer_service/app/application/consumer_worker.py: what the consumer loop does with a message.
pub mod State
pub mod Ends
pub mod Handled
pub mod Targets
pub mod Recorded
pub mod Refresh
pub mod Control
pub mod Loop
pub mod Rounds
pub mod Paused
pub mod Lag
pub mod Offsets
pub mod Gauge
pub mod Reported
pub mod Postings
pub mod Keeps
pub mod Shifted
pub mod Posted
pub mod Ledger
use smart_warehouse_platform.Prelude.{
  String, ℤ, Bool, List, [], ◌∷◌, ◌++◌, Option, none, some, if◌then◌else◌,
}
use smart_warehouse_platform.Domain.Value.{Value, null, int, text, array, Fields, get, has_field}
use smart_warehouse_platform.Domain.Models.{Instant, KafkaMetadata, EventContext}
use smart_warehouse_platform.Domain.Result.{
  ErrorCode, Message, Result, ok, invalid, crashed, ProcessResult, Action, applied, duplicate,
  stale, dlq, dlq_error, unknown_error, ◌>>=◌,
}
use smart_warehouse_platform.Repository.Schema.{Tables}
use smart_warehouse_platform.Repository.Cql.{Session}
use smart_warehouse_platform.Repository.{apply_state_change}
use smart_warehouse_platform.Processor.Process.{process}
use smart_warehouse_platform.Worker.State.{
  World, Services, DlqRecord, KafkaMessage, Handling, handled, failed,
}

-- `event[name]` where the Avro schema says text, and where it says a number.
abbrev pub text_field : String → Fields → Result String
text_field name event = elim (get name event) [ text s ↦ ok s | _ ↦ crashed ]

abbrev pub int_field : String → Fields → Result ℤ
int_field name event = elim (get name event) [ int n ↦ ok n | _ ↦ crashed ]

-- `_build_context`; the JSON text is that of `json.dumps`.
unfoldable pub build_context : (Fields → String) → Fields → ℤ → ℤ → Result EventContext
build_context dumps event partition offset = do
  event_id ← text_field "event_id" event
  event_type ← text_field "event_type" event
  occurred_at ← int_field "occurred_at" event
  ok (record {
    event = event;
    raw_json = dumps event;
    event_id = event_id;
    event_type = event_type;
    occurred_at = occurred_at;
    schema_variant = if has_field "supplier_id" event then "v2" else "v1";
    metadata = record { partition = partition; offset = offset };
  })

-- `DLQProducer.publish`: the record that it produces.
unfoldable pub dlq_record : Instant → EventContext → ErrorCode → Message → DlqRecord
dlq_record now context error_code error_reason = record {
  event_id = context.event_id;
  event_type = context.event_type;
  original_event_json = context.raw_json;
  error_reason = error_reason;
  error_code = error_code;
  failed_at = now;
  kafka_partition = context.metadata.partition;
  kafka_offset = context.metadata.offset;
}

-- `result.error_code or "DLQ_ERROR"`, and so for the reason.
abbrev pub code_or_default : Option ErrorCode → ErrorCode
code_or_default none = dlq_error
code_or_default (some code) = code

abbrev pub reason_or_default : Option Message → Message
reason_or_default none = unknown_error
reason_or_default (some reason) = reason

-- A step that may raise: on an exception the handling ends with what has been done so far.
abbrev pub attempt {ℓ} : {A : Type ℓ} → Result A → World → (A → Handling × World) → Handling × World
attempt (ok a) w rest = rest a
attempt (invalid e) w rest = (failed, w)
attempt crashed w rest = (failed, w)

-- A call of a client, given whether it returns.
abbrev pub attempt_call : Bool → World → Handling × World → Handling × World
attempt_call returns w rest = if returns then rest else (failed, w)

module _ (services : Services) (now : Instant) (context : EventContext) where
  -- `self._consumer.commit(message=msg, asynchronous=True)`
  unfoldable pub commit_message : ProcessResult → World → Handling × World
  commit_message result w =
      attempt_call (services.commits w context.metadata) w
        (handled result, record w { commits = w.commits ++ context.metadata ∷ [] })

  -- `apply_state_change([], [], None, context, …)`, which writes only that the event was handled.
  unfoldable pub record_outcome : ProcessResult → String → World → Handling × World
  unfolding commit_message
  record_outcome result outcome w =
      attempt
        (apply_state_change services.session now [] [] none context outcome result.error_code
          result.error_reason w.tables)
        w λ t. commit_message result (record w { tables = t })

  unfoldable pub publish_dlq : ProcessResult → World → Handling × World
  unfolding record_outcome dlq_record
  publish_dlq result w =
      let r =
        dlq_record now context (code_or_default result.error_code)
          (reason_or_default result.error_reason) in
      attempt_call (services.produces w r) w
        (record_outcome result "DLQ" (record w { dlq = w.dlq ++ r ∷ [] }))

  -- The chain of tests on `result.action`.
  unfoldable pub finish : Action → ProcessResult → World → Handling × World
  unfolding commit_message record_outcome publish_dlq
  finish stale result w = record_outcome result "STALE" w
  finish dlq result w = publish_dlq result w
  finish applied result w = commit_message result w
  finish duplicate result w = commit_message result w

  -- The body of the loop for one decoded message, after `_build_context`.
  unfoldable pub handle_event : World → Handling × World
  unfolding finish
  handle_event w =
      attempt (process services.session now context w.tables) w
        λ r. finish r.0.action r.0 (record w { tables = r.1 })

module _ (dumps : Fields → String) (services : Services) where
  -- One round of the loop: an exception of `_build_context` is one of the round.
  unfoldable pub handle_message : Instant → KafkaMessage → World → Handling × World
  unfolding build_context handle_event
  handle_message now message w =
      attempt (build_context dumps message.value message.partition message.offset) w
        λ context. handle_event services now context w

  -- The loop over the messages that it polls, each with the clock's reading when it is handled:
  -- `except Exception` goes on with the next.
  unfoldable pub handle_messages : List (Instant × KafkaMessage) → World → World
  unfolding handle_message
  handle_messages [] w = w
  handle_messages ((now, message) ∷ rest) w = handle_messages rest (handle_message now message w).1
