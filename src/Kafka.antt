-- ===== src/Kafka.antt =====
-- crates/kafkaman-rdkafka: records of a Kafka log, the errors of the crate (src/error.rs), and the code
-- of other crates that it calls.
pub mod Headers
pub mod Decode
pub mod Keys
pub mod Namespaces
pub mod Publisher
pub mod Wire
pub mod Carried
pub mod RoundTrip
pub mod Enqueued
pub mod Consumer
pub mod EndToEnd
pub mod Ingest
pub mod Loop
pub mod Named
pub mod Accounted
pub mod Acknowledged
pub mod AtLeastOnce
pub mod Breaker
pub mod Undisturbed
pub mod Totals
use kafkaman.Base.{ℕ, String, Option, none, some, List, ◌≡◌, refl}
use kafkaman.Base.Int.{ℤ}
use kafkaman.Core.Error as CoreError
use kafkaman.Core.Problem.{
  ReceivedIngestFailureKind, invalid_payload_uri, infrastructure_uri, application_panicked_uri,
  idempotency_uri, message_routing_uri, topic_uri,
}
use kafkaman.Failure as SqlxFailure
use kafkaman.Outbox.Enqueue.{Call, Message}

-- A consumed record. A header may have no value.
pub record KafkaRecord : Type 0 where
  pub topic : String
  pub partition : ℤ
  pub offset : ℤ
  pub key : Option (List ℕ)
  pub payload : Option (List ℕ)
  pub headers : Option (List (String × Option (List ℕ)))

-- What the crate calls outside the sources: UTF-8, UUIDs, RFC 3339, JSON, and the decoder of the
-- payload type, which may panic.
pub record Codec (Json : Type 0) : Type 0 where
  pub as_bytes : String → List ℕ
  pub from_utf8_lossy : List ℕ → String
  pub uuid_to_string : ℕ → String
  pub uuid_parse_str : String → CoreError.Parsed ℕ
  pub format_rfc3339 : ℕ → CoreError.Parsed String
  pub parse_rfc3339 : String → CoreError.Parsed ℕ
  pub json_to_string : Json → String
  pub json_from_str : String → Option Json
  pub json_to_vec : Json → CoreError.Parsed (List ℕ)
  pub payload_from_slice : List ℕ → Call (CoreError.Parsed (Message Json))

pub data Error : Type 0 where
  kafka : String → Error
  sqlx : SqlxFailure.Error → Error
  database : SqlxFailure.SqlxError → Error
  serde : String → Error
  delivery : String → Error
  core : CoreError.Error → Error
  topic_admin : String → String → Error
  missing_payload : Error
  payload_panicked : String → Error
  missing_idempotency_key : Error
  invalid_header : String → String → Error
  unexpected_topic : String → String → Error
  consecutive_skip_limit_exceeded : ℕ → ℤ → ℤ → Error

abbrev pub publish_uri : String
publish_uri = "urn:kafkaman:problem:publish"

abbrev pub breaker_tripped_uri : String
breaker_tripped_uri = "urn:kafkaman:problem:breaker-tripped"

-- The quarantine class of a failure that is a property of the record.
unfoldable pub ingest_failure_kind : Error → Option ReceivedIngestFailureKind
ingest_failure_kind missing_payload = some ReceivedIngestFailureKind.missing_payload
ingest_failure_kind (payload_panicked _) = some ReceivedIngestFailureKind.invalid_payload
ingest_failure_kind missing_idempotency_key = some ReceivedIngestFailureKind.missing_idempotency_key
ingest_failure_kind (serde _) = some ReceivedIngestFailureKind.invalid_payload
ingest_failure_kind (invalid_header _ _) = some ReceivedIngestFailureKind.invalid_header
ingest_failure_kind (unexpected_topic _ _) = some ReceivedIngestFailureKind.unexpected_topic
ingest_failure_kind _ = none

unfoldable pub problem_type : Error → String
problem_type (sqlx error) = SqlxFailure.problem_type error
problem_type (core error) = CoreError.problem_type error
problem_type (kafka _) = infrastructure_uri
problem_type (database _) = infrastructure_uri
problem_type (serde _) = invalid_payload_uri
problem_type missing_payload = invalid_payload_uri
problem_type (invalid_header _ _) = invalid_payload_uri
problem_type (payload_panicked _) = application_panicked_uri
problem_type missing_idempotency_key = idempotency_uri
problem_type (unexpected_topic _ _) = message_routing_uri
problem_type (delivery _) = publish_uri
problem_type (topic_admin _ _) = topic_uri
problem_type (consecutive_skip_limit_exceeded _ _ _) = breaker_tripped_uri

pub data Result {ℓ} (A : Type ℓ) : Type ℓ where
  ok : A → Result A
  err : Error → Result A

infixl 5 ◌>>=◌
abbrev pub ◌>>=◌ {ℓ κ} : {A : Type ℓ} {B : Type κ} → Result A → (A → Result B) → Result B
ok a >>= f = f a
err e >>= f = err e

pub bind_ok {ℓ κ} :
    {A : Type ℓ} {B : Type κ} (m : Result A) (f : A → Result B) {b : B}
    → m >>= f ≡ ok b
    → (a : A) × (m ≡ ok a) × (f a ≡ ok b)
bind_ok (ok a) f h = (a, refl, h)
bind_ok (err e) f h = absurd (cc h)

pub ok_inj {ℓ} : {A : Type ℓ} {a b : A} → ok a ≡ ok b → a ≡ b
ok_inj h = cc h
