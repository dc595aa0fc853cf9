-- ===== src/Core/Problem.antt =====
-- crates/kafkaman-core/src/problem.rs and failure_kind.rs: the problem-type vocabulary, the failure
-- kinds that a row stores, and the stages that a dispatch fails in.
use kafkaman.Base.{String, Option, List, [], ◌∷◌, ◌||◌, str_eq, if◌then◌else◌}
use kafkaman.Base.Table.{find_where}

abbrev pub missing_handler_uri : String
missing_handler_uri = "urn:kafkaman:problem:missing-handler"

abbrev pub invalid_payload_uri : String
invalid_payload_uri = "urn:kafkaman:problem:invalid-payload"

abbrev pub infrastructure_uri : String
infrastructure_uri = "urn:kafkaman:problem:infrastructure"

abbrev pub handler_uri : String
handler_uri = "urn:kafkaman:problem:handler"

abbrev pub handler_panicked_uri : String
handler_panicked_uri = "urn:kafkaman:problem:handler-panicked"

abbrev pub application_panicked_uri : String
application_panicked_uri = "urn:kafkaman:problem:application-panicked"

abbrev pub configuration_uri : String
configuration_uri = "urn:kafkaman:problem:configuration"

abbrev pub schema_uri : String
schema_uri = "urn:kafkaman:problem:schema"

abbrev pub message_routing_uri : String
message_routing_uri = "urn:kafkaman:problem:message-routing"

abbrev pub cache_invariant_uri : String
cache_invariant_uri = "urn:kafkaman:problem:cache-invariant"

abbrev pub idempotency_uri : String
idempotency_uri = "urn:kafkaman:problem:idempotency"

abbrev pub topic_uri : String
topic_uri = "urn:kafkaman:problem:topic"

abbrev pub unsafe_replay_uri : String
unsafe_replay_uri = "urn:kafkaman:problem:unsafe-replay"

abbrev pub constraint_uri : String
constraint_uri = "urn:kafkaman:problem:constraint"

abbrev pub contention_uri : String
contention_uri = "urn:kafkaman:problem:contention"

abbrev pub statement_uri : String
statement_uri = "urn:kafkaman:problem:statement"

pub data ReceivedFailureKind : Type 0 where
  missing_handler invalid_payload infrastructure handler : ReceivedFailureKind

abbrev pub kind_all : List ReceivedFailureKind
kind_all =
    ReceivedFailureKind.missing_handler ∷ ReceivedFailureKind.invalid_payload
    ∷ ReceivedFailureKind.infrastructure ∷ ReceivedFailureKind.handler ∷ []

unfoldable pub discriminant : ReceivedFailureKind → String
discriminant ReceivedFailureKind.missing_handler = "MissingHandler"
discriminant ReceivedFailureKind.invalid_payload = "InvalidPayload"
discriminant ReceivedFailureKind.infrastructure = "Infrastructure"
discriminant ReceivedFailureKind.handler = "Handler"

unfoldable pub kind_problem_type : ReceivedFailureKind → String
kind_problem_type ReceivedFailureKind.missing_handler = missing_handler_uri
kind_problem_type ReceivedFailureKind.invalid_payload = invalid_payload_uri
kind_problem_type ReceivedFailureKind.infrastructure = infrastructure_uri
kind_problem_type ReceivedFailureKind.handler = handler_uri

unfoldable pub title : ReceivedFailureKind → String
title ReceivedFailureKind.missing_handler = "No handler registered for message type"
title ReceivedFailureKind.invalid_payload = "Message payload could not be decoded"
title ReceivedFailureKind.infrastructure = "Infrastructure failure during dispatch"
title ReceivedFailureKind.handler = "Handler returned an error"

-- The arms that spell out `Infrastructure` and the catch-all have one value.
unfoldable pub coarsening : String → ReceivedFailureKind
coarsening problem_type =
    if str_eq problem_type missing_handler_uri
    then ReceivedFailureKind.missing_handler
    else if str_eq problem_type invalid_payload_uri
    then ReceivedFailureKind.invalid_payload
    else if str_eq problem_type handler_uri || str_eq problem_type handler_panicked_uri
    then ReceivedFailureKind.handler
    else ReceivedFailureKind.infrastructure

unfoldable pub from_problem_type : String → Option ReceivedFailureKind
unfolding kind_problem_type discriminant find_where
from_problem_type value =
    find_where (λ k. str_eq (kind_problem_type k) value || str_eq (discriminant k) value) kind_all

pub data FailureStage : Type 0 where
  routing handler bookkeeping : FailureStage

-- Why a record could not become a row.
pub data ReceivedIngestFailureKind : Type 0 where
  missing_payload missing_idempotency_key : ReceivedIngestFailureKind
  invalid_payload invalid_header unexpected_topic : ReceivedIngestFailureKind
  message_id_conflict : ReceivedIngestFailureKind

abbrev pub ingest_kind_all : List ReceivedIngestFailureKind
ingest_kind_all =
    ReceivedIngestFailureKind.missing_payload ∷ ReceivedIngestFailureKind.missing_idempotency_key
    ∷ ReceivedIngestFailureKind.invalid_payload ∷ ReceivedIngestFailureKind.invalid_header
    ∷ ReceivedIngestFailureKind.unexpected_topic ∷ ReceivedIngestFailureKind.message_id_conflict
    ∷ []

unfoldable pub ingest_discriminant : ReceivedIngestFailureKind → String
ingest_discriminant ReceivedIngestFailureKind.missing_payload = "MissingPayload"
ingest_discriminant ReceivedIngestFailureKind.missing_idempotency_key = "MissingIdempotencyKey"
ingest_discriminant ReceivedIngestFailureKind.invalid_payload = "InvalidPayload"
ingest_discriminant ReceivedIngestFailureKind.invalid_header = "InvalidHeader"
ingest_discriminant ReceivedIngestFailureKind.unexpected_topic = "UnexpectedTopic"
ingest_discriminant ReceivedIngestFailureKind.message_id_conflict = "MessageIdConflict"

unfoldable pub ingest_from_discriminant : String → Option ReceivedIngestFailureKind
unfolding ingest_discriminant find_where
ingest_from_discriminant value =
    find_where (λ k. str_eq (ingest_discriminant k) value) ingest_kind_all

unfoldable pub ingest_problem_type : ReceivedIngestFailureKind → String
ingest_problem_type ReceivedIngestFailureKind.missing_payload = invalid_payload_uri
ingest_problem_type ReceivedIngestFailureKind.invalid_payload = invalid_payload_uri
ingest_problem_type ReceivedIngestFailureKind.invalid_header = invalid_payload_uri
ingest_problem_type ReceivedIngestFailureKind.missing_idempotency_key = idempotency_uri
ingest_problem_type ReceivedIngestFailureKind.message_id_conflict = idempotency_uri
ingest_problem_type ReceivedIngestFailureKind.unexpected_topic = message_routing_uri
