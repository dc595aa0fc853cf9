-- ===== src/Core/Error.antt =====
-- crates/kafkaman-core/src/error.rs
use kafkaman.Base.{String}
use kafkaman.Core.Problem.{
  configuration_uri, schema_uri, message_routing_uri, idempotency_uri, topic_uri,
}

pub data Error : Type 0 where
  invalid_identifier : String → String → Error
  invalid_outbox_status : String → Error
  invalid_receive_status : String → Error
  invalid_message_descriptor : String → Error
  invalid_idempotency_namespace : String → String → Error
  invalid_idempotency_key : String → String → Error
  invalid_idempotency_source : String → Error
  invalid_relay_config : String → String → Error
  invalid_dispatcher_config : String → String → Error
  invalid_purge_config : String → String → Error
  invalid_topic_spec : String → String → Error
  topic_policy_mismatch : String → String → String → Error
  topic_missing : String → Error
  topic_partitions_undeclared : String → Error

unfoldable pub problem_type : Error → String
problem_type (invalid_identifier value reason) = configuration_uri
problem_type (invalid_relay_config field reason) = configuration_uri
problem_type (invalid_dispatcher_config field reason) = configuration_uri
problem_type (invalid_purge_config field reason) = configuration_uri
problem_type (invalid_topic_spec field reason) = configuration_uri
problem_type (invalid_outbox_status value) = schema_uri
problem_type (invalid_receive_status value) = schema_uri
problem_type (invalid_message_descriptor value) = message_routing_uri
problem_type (invalid_idempotency_namespace value reason) = idempotency_uri
problem_type (invalid_idempotency_key value reason) = idempotency_uri
problem_type (invalid_idempotency_source value) = idempotency_uri
problem_type (topic_policy_mismatch topic expected found) = topic_uri
problem_type (topic_missing topic) = topic_uri
problem_type (topic_partitions_undeclared topic) = topic_uri

-- `kafkaman_core::Result`.
pub data Checked {ℓ} (A : Type ℓ) : Type ℓ where
  accepted : A → Checked A
  rejected : Error → Checked A

-- What a parser outside the sources answers: a value, or its error's text.
pub data Parsed {ℓ} (A : Type ℓ) : Type ℓ where
  parsed : A → Parsed A
  malformed : String → Parsed A
