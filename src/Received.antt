-- ===== src/Received.antt =====
-- The received table of crates/kafkaman-sqlx: its rows (`ReceivedRow` and `ReceivedError` of
-- kafkaman-core/src/rows.rs, with the columns `last_failed_at` and `last_failure_kind`), the retry
-- policy of kafkaman-config, and the handle of the table.
pub mod Retry
pub mod Rows
pub mod Claim
pub mod Recording
pub mod Ends
pub mod Storage
pub mod Quarantine
pub mod Dedup
pub mod Once
pub mod Redelivery
pub mod Kept
pub mod Arrival
use kafkaman.Base.{ℕ, String, Option, none, some, List}
use kafkaman.Base.Int.{ℤ}
use kafkaman.Core.Status.{ReceiveStatus}
use kafkaman.Core.Problem.{ReceivedFailureKind, FailureStage, title}
use kafkaman.Failure.{Result}

pub record ReceivedError : Type 0 where
  pub kind : ReceivedFailureKind
  pub heading : String
  pub detail : String
  pub occurred_at : ℕ
  pub stage : Option FailureStage

-- `ReceivedError::new`: the title is the one of the failure class.
unfoldable pub new_error : ReceivedFailureKind → String → ℕ → Option FailureStage → ReceivedError
unfolding title
new_error kind detail occurred_at stage = record {
  kind = kind;
  heading = title kind;
  detail = detail;
  occurred_at = occurred_at;
  stage = stage;
}

pub record ReceivedRow (Json : Type 0) : Type 0 where
  pub message_id : ℕ
  pub idempotency_key : String
  pub idempotency_source : Option Json
  pub entity_key : Option String
  pub status : ReceiveStatus
  pub attempts : ℤ
  pub next_attempt_at : Option ℕ
  pub errors : List ReceivedError
  pub source_topic : String
  pub source_partition : ℤ
  pub source_offset : ℤ
  pub key : Option (List ℕ)
  pub message_type : String
  pub message_version : ℤ
  pub headers : List (String × String)
  pub payload : Json
  pub correlation_id : Option ℕ
  pub causation_id : Option ℕ
  pub trace : Option (String × Option String)
  pub occurred_at : ℕ
  pub created_at : ℕ
  pub processed_at : Option ℕ
  pub last_failed_at : Option ℕ
  pub last_failure_kind : Option ReceivedFailureKind

-- `backoff` is `retry_backoff` of retry_backoff.rs, which multiplies floats: the wait after so many
-- failed attempts.
pub record RetryPolicy : Type 0 where
  pub max_attempts : ℕ
  pub errors_limit : ℕ
  pub backoff : ℕ → ℕ

-- `cache_table` is what `CacheTable::new` answers for the schema and the descriptor, and `from_utf8`
-- is `String::from_utf8`.
pub record ReceivedTable : Type 0 where
  pub declared_topic : String
  pub retry : RetryPolicy
  pub cache_table : Result (Unit {0})
  pub from_utf8 : List ℕ → Option String
