-- ===== src/Kafka/Decode.antt =====
-- crates/kafkaman-rdkafka/src/ingest_record.rs: decoding a record, and what quarantine keeps of one that
-- cannot be.
use kafkaman.Base.{ℕ, String, Option, none, some, List, [], ◌∷◌, ◌++◌, not, str_eq, if◌then◌else◌}
use kafkaman.Core.Error as CoreError
use kafkaman.Core.Error.{Parsed, parsed, malformed, Checked, accepted, rejected}
use kafkaman.Core.Problem.{ReceivedIngestFailureKind}
use kafkaman.Core.Idempotency.{from_hex, to_hex}
use kafkaman.Core.Rfc9557.{parse}
use kafkaman.Outbox.Enqueue.{Call, returned, panicked, Message, Envelope}
use kafkaman.Received.Quarantine.{ReceivedIngestFailure}
use kafkaman.Kafka.{
  KafkaRecord, Codec, Error, serde, missing_payload, payload_panicked, missing_idempotency_key,
  invalid_header, unexpected_topic, Result, ok, err, ◌>>=◌,
}
use kafkaman.Kafka.Headers.{RecordHeaders, get}

-- `grouped.entry(key).or_default().push(value)`.
unfoldable pub push_value :
    String → String → List (String × List String) → List (String × List String)
push_value k v [] = (k, v ∷ []) ∷ []
push_value k v ((j, vs) ∷ rest) =
    if str_eq j k then (j, vs ++ v ∷ []) ∷ rest else (j, vs) ∷ push_value k v rest

abbrev pub value_text : (List ℕ → String) → Option (List ℕ) → String
value_text lossy none = ""
value_text lossy (some value) = lossy value

unfoldable pub group_headers :
    (List ℕ → String)
    → List (String × Option (List ℕ))
    → List (String × List String)
    → List (String × List String)
unfolding push_value
group_headers lossy [] grouped = grouped
group_headers lossy ((key, value) ∷ rest) grouped =
    group_headers lossy rest (push_value key (value_text lossy value) grouped)

unfoldable pub all_headers :
    (List ℕ → String) → Option (List (String × Option (List ℕ))) → List (String × List String)
unfolding group_headers
all_headers lossy none = []
all_headers lossy (some headers) = group_headers lossy headers []

unfoldable pub ingest_failure_record :
    (List ℕ → String)
    → String
    → KafkaRecord
    → String
    → ReceivedIngestFailureKind
    → String
    → ReceivedIngestFailure
unfolding all_headers
ingest_failure_record lossy message_type message expected_topic kind error = record {
  source_topic = message.topic;
  source_partition = message.partition;
  source_offset = message.offset;
  key = message.key;
  headers = all_headers lossy message.headers;
  payload = message.payload;
  message_type = message_type;
  expected_topic = expected_topic;
  kind = kind;
  error = error;
}

pub record DecodedRecord (Json : Type 0) : Type 0 where
  pub envelope : Envelope Json
  pub key : Option (List ℕ)

-- What `Envelope::new` makes up, and the texts of the errors of kafkaman-core.
pub record Made : Type 0 where
  pub message_id : ℕ
  pub correlation_id : ℕ
  pub now : ℕ
  pub core_text : CoreError.Error → String

abbrev pub require {ℓ} : {A : Type ℓ} → Error → Option A → Result A
require e none = err e
require e (some a) = ok a

abbrev pub header_value {ℓ} : {A : Type ℓ} → String → Parsed A → Result A
header_value name (parsed a) = ok a
header_value name (malformed e) = err (invalid_header name e)

-- A header that is parsed where it is there, with the value to take where it is not.
abbrev pub optional {ℓ} : {A : Type ℓ} → String → (String → Parsed A) → A → Option String → Result A
optional name read default none = ok default
optional name read default (some text) = header_value name (read text)

abbrev pub read_payload : {Json : Type 0} → Call (Parsed (Message Json)) → Result (Message Json)
read_payload (panicked message) = err (payload_panicked message)
read_payload (returned (malformed e)) = err (serde e)
read_payload (returned (parsed payload)) = ok payload

abbrev pub read_key : Made → Checked (List ℕ) → Result String
read_key made (accepted bytes) = ok (to_hex bytes)
read_key made (rejected e) = err (invalid_header "kafkaman-idempotency-key" (made.core_text e))

abbrev pub some_of {ℓ} : {A : Type ℓ} → Parsed A → Parsed (Option A)
some_of (parsed a) = parsed (some a)
some_of (malformed e) = malformed e

abbrev pub and_then {ℓ κ} : {A : Type ℓ} {B : Type κ} → Option A → (A → Option B) → Option B
and_then none f = none
and_then (some a) f = f a

module _ {Json : Type 0} (codec : Codec Json) (made : Made) where
  -- The headers of the envelope, in the order that the code reads them.
  unfoldable pub envelope_of : RecordHeaders → Message Json → Result (Envelope Json)
  unfolding get from_hex parse
  envelope_of headers payload = do
    hex ← require missing_idempotency_key (get "kafkaman-idempotency-key" headers.reserved)
    key ← read_key made (from_hex hex)
    occurred_at ←
        optional "kafkaman-occurred-at" (parse codec.parse_rfc3339) made.now
          (get "kafkaman-occurred-at" headers.reserved)
    message_id ←
        optional "kafkaman-message-id" codec.uuid_parse_str made.message_id
          (get "kafkaman-message-id" headers.reserved)
    correlation_id ←
        optional "kafkaman-correlation-id" codec.uuid_parse_str made.correlation_id
          (get "kafkaman-correlation-id" headers.reserved)
    causation_id ←
        optional "kafkaman-causation-id" (λ text. some_of (codec.uuid_parse_str text)) none
          (get "kafkaman-causation-id" headers.reserved)
    ok (record {
      message_id = message_id;
      idempotency_key = some (record {
        key = key;
        source = and_then (get "kafkaman-idempotency-source" headers.reserved) codec.json_from_str;
      });
      correlation_id = correlation_id;
      causation_id = causation_id;
      headers = headers.user;
      payload = payload;
      occurred_at = occurred_at;
    })

  unfoldable pub record_envelope :
      String → KafkaRecord → RecordHeaders → Result (DecodedRecord Json)
  unfolding envelope_of
  record_envelope expected_topic message headers =
      if not (str_eq message.topic expected_topic)
      then err (unexpected_topic expected_topic message.topic)
      else do
        bytes ← require missing_payload message.payload
        payload ← read_payload (codec.payload_from_slice bytes)
        envelope ← envelope_of headers payload
        ok (record { envelope = envelope; key = message.key })
