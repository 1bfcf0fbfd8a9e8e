-- ===== src/Worker/State.antt =====
-- What the consumer loop acts on: the tables, the dead letter topic and the committed offsets.
use smart_warehouse_platform.Prelude.{String, ℤ, Bool, List}
use smart_warehouse_platform.Domain.Value.{Fields}
use smart_warehouse_platform.Domain.Models.{Instant, KafkaMetadata}
use smart_warehouse_platform.Domain.Result.{ErrorCode, Message, ProcessResult}
use smart_warehouse_platform.Repository.Schema.{Tables}
use smart_warehouse_platform.Repository.Cql.{Session}

-- The payload of `DLQProducer.publish` (infrastructure/dlq_producer.py).
pub record DlqRecord : Type 0 where
  pub event_id : String
  pub event_type : String
  pub original_event_json : String
  pub error_reason : Message
  pub error_code : ErrorCode
  pub failed_at : Instant
  pub kafka_partition : ℤ
  pub kafka_offset : ℤ

-- The stored tables, the records handed to the dead letter topic's producer, and the messages
-- whose offsets the consumer asked to commit, in order.
pub record World : Type 0 where
  pub tables : Tables
  pub dlq : List DlqRecord
  pub commits : List KafkaMetadata

-- The clients of Cassandra and Kafka, and two settings of config.py. Whether a produce with its flush, or a commit, returns or
-- raises is up to the client, and may depend on all that has happened.
pub record Services : Type 0 where
  pub session : Session
  pub produces : World → DlqRecord → Bool
  pub commits : World → KafkaMetadata → Bool
  pub healthcheck_seconds : ℤ
  pub lag_refresh_seconds : ℤ

-- How the handling of a message ends: with the processor's result, or with an exception.
pub data Handling : Type 0 where
  handled : ProcessResult → Handling
  failed : Handling

-- A polled message: its decoded value, and where it stands.
pub record KafkaMessage : Type 0 where
  pub value : Fields
  pub partition : ℤ
  pub offset : ℤ
