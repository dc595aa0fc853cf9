-- ===== src/Kafka/Publisher.antt =====
-- crates/kafkaman-rdkafka/src/publisher.rs: the record that is sent for an outbox row, and `record_key`
-- of kafkaman-core/src/rows.rs.
use kafkaman.Base.{ℕ, String, Option, none, some, List, [], ◌∷◌, ◌++◌, if◌then◌else◌}
use kafkaman.Base.Int.{ℤ}
use kafkaman.Core.Error.{Parsed, parsed, malformed}
use kafkaman.Core.Rfc9557.{render}
use kafkaman.Outbox.{OutboxRow}
use kafkaman.Kafka.{Codec, serde, delivery, Result, ok, err, ◌>>=◌}
use kafkaman.Kafka.Decode.{header_value}
use kafkaman.Kafka.Headers.{is_trace_header}

-- What the producer is given.
pub record FutureRecord : Type 0 where
  pub topic : String
  pub key : Option String
  pub payload : List ℕ
  pub headers : List (String × String)

pub record PublishAck : Type 0 where
  pub topic : String
  pub partition : ℤ
  pub offset : ℤ

abbrev pub or_key : Option String → Option String → Option String
or_key none key = key
or_key (some key) _ = some key

abbrev pub header_if {ℓ} : {A : Type ℓ} → String → (A → String) → Option A → List (String × String)
header_if name text none = []
header_if name text (some a) = (name, text a) ∷ []

abbrev pub trace_headers : Option (String × Option String) → List (String × String)
trace_headers none = []
trace_headers (some (traceparent, tracestate)) =
    ("traceparent", traceparent) ∷ header_if "tracestate" (λ state. state) tracestate

-- `trace.or_else(|| row.trace.clone())`.
abbrev pub or_trace :
    Option (String × Option String)
    → Option (String × Option String)
    → Option (String × Option String)
or_trace none stored = stored
or_trace (some trace) stored = some trace

abbrev pub serialized : Parsed (List ℕ) → Result (List ℕ)
serialized (parsed bytes) = ok bytes
serialized (malformed e) = err (serde e)

abbrev pub acknowledged : String → Parsed (ℤ × ℤ) → Result PublishAck
acknowledged topic (parsed (partition, offset)) =
    ok (record { topic = topic; partition = partition; offset = offset })
acknowledged topic (malformed e) = err (delivery e)

unfoldable pub record_key : {Json : Type 0} → OutboxRow Json → Option String
record_key row = or_key row.partition_key row.entity_key

-- The user's headers without the trace headers.
unfoldable pub kept_headers : List (String × String) → List (String × String)
unfolding is_trace_header
kept_headers [] = []
kept_headers ((key, value) ∷ rest) =
    let kept = kept_headers rest in if is_trace_header key then kept else (key, value) ∷ kept

module _ {Json : Type 0} (codec : Codec Json) where
  -- The identifiers that the message has, behind the two that every message has and its time.
  abbrev pub managed :
      OutboxRow Json → Option (String × Option String) → String → List (String × String)
  managed row trace occurred_at =
      ("kafkaman-message-id", codec.uuid_to_string row.message_id)
      ∷ ("kafkaman-correlation-id", codec.uuid_to_string row.correlation_id)
      ∷ ("kafkaman-occurred-at", occurred_at)
      ∷ (header_if "kafkaman-idempotency-key" (λ key. key) row.idempotency_key
          ++ (header_if "kafkaman-idempotency-source" codec.json_to_string row.idempotency_source
              ++ (header_if "kafkaman-causation-id" codec.uuid_to_string row.causation_id
                  ++ trace_headers (or_trace trace row.trace))))

  unfoldable pub managed_headers :
      OutboxRow Json → Option (String × Option String) → Result (List (String × String))
  unfolding render
  managed_headers row trace = do
    occurred_at ← header_value "kafkaman-occurred-at" (render codec.format_rfc3339 row.occurred_at)
    ok (managed row trace occurred_at)

  unfoldable pub future_record :
      OutboxRow Json → Option (String × Option String) → Result FutureRecord
  unfolding managed_headers kept_headers record_key
  future_record row trace = do
    payload ← serialized (codec.json_to_vec row.payload)
    managed ← managed_headers row trace
    ok (record {
      topic = row.topic;
      key = record_key row;
      payload = payload;
      headers = kept_headers row.headers ++ managed;
    })

  -- `send` is the broker's answer: where it put the record, or why it did not take it.
  unfoldable pub publish_row_traced :
      (FutureRecord → Parsed (ℤ × ℤ))
      → OutboxRow Json
      → Option (String × Option String)
      → Result PublishAck
  unfolding future_record
  publish_row_traced send row trace = do
    sent ← future_record row trace
    acknowledged row.topic (send sent)
