-- ===== src/Examples.antt =====
-- Small runs of each part, with the theorems applied to them. A JSON value is a number here.
mod Outbox
mod Received
mod Cache
mod Dispatch
mod Core
mod Worker
mod Storage
mod Kafka
mod Wire
mod Journey
use kafkaman.Base.{ℕ, String, Option, none, some, List, []}
use kafkaman.Base.Int.{ℤ, pos}
use kafkaman.Core.Status.{ReceiveStatus}
use kafkaman.Received.{ReceivedRow, RetryPolicy, ReceivedTable}
use kafkaman.Failure.{ok}

-- The n-th record of one entity in a partition of a topic.
abbrev pub record_of : String → ℤ → ℕ → ReceivedRow ℕ
record_of topic partition n = record {
  message_id = n;
  idempotency_key = "k";
  idempotency_source = none;
  entity_key = some "order-1";
  status = ReceiveStatus.pending;
  attempts = pos 0;
  next_attempt_at = none;
  errors = [];
  source_topic = topic;
  source_partition = partition;
  source_offset = pos n;
  key = none;
  message_type = "order";
  message_version = pos 1;
  headers = [];
  payload = n;
  correlation_id = none;
  causation_id = none;
  trace = none;
  occurred_at = n;
  created_at = n;
  processed_at = none;
  last_failed_at = none;
  last_failure_kind = none;
}

abbrev pub three_attempts : RetryPolicy
three_attempts = record { max_attempts = 3; errors_limit = 2; backoff = λ n. 1000 }

abbrev pub orders : ReceivedTable
orders = record {
  declared_topic = "orders";
  retry = three_attempts;
  cache_table = ok tt;
  from_utf8 = λ bytes. none;
}
