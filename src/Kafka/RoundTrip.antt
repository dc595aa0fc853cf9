-- ===== src/Kafka/RoundTrip.antt =====
-- A published message is decoded as it was enqueued: publisher.rs, ingest_record.rs.
use Prim.Native.String.{◌++◌ as ◌<>◌}
use kafkaman.Base.{
  ℕ, String, Option, none, some, List, ◌++◌, ◌≡◌, ◌≢◌, refl, eq_refl, if◌then◌else◌, All, subst,
  codes,
}
use kafkaman.Base.Int.{ℤ}
use kafkaman.Core.Error.{parsed}
use kafkaman.Core.Idempotency.{IsKey, to_hex}
use kafkaman.Core.Idempotency.Hex.{from_hex-to_hex}
use kafkaman.Core.Rfc9557.{parse, render, before_bracket-append}
use kafkaman.Outbox.{OutboxRow}
use kafkaman.Outbox.Enqueue.{Envelope, Message, returned}
use kafkaman.Kafka.{KafkaRecord, Codec, ok}
use kafkaman.Kafka.Headers.{get, RecordHeaders, record_headers}
use kafkaman.Kafka.Decode.{
  optional, some_of, and_then, DecodedRecord, Made, envelope_of, record_envelope,
}
use kafkaman.Kafka.Keys.{is_user}
use kafkaman.Kafka.Publisher.{
  FutureRecord, kept_headers, managed, managed_headers, future_record, record_key,
}
use kafkaman.Kafka.Wire.{delivered, IsMap}
use kafkaman.Kafka.Carried.{
  IsEnqueued, IsFaithful, ReadsId, ReadsOptionalId, source_read, text_of, has_message_id,
  has_correlation_id, has_occurred_at, has_key, has_source, has_causation_id, has_user,
}

-- The row's own values: its identifiers, its time and its payload have a text that is read back, `message` being what
-- the payload is read as; its key is one of 32 bytes; its headers are a map, as enqueued.
pub record IsSendable {Json : Type 0} (codec : Codec Json) (row : OutboxRow Json) (key : List ℕ)
    (message : Message Json) : Type 0 where
  pub written : String
  pub formats : codec.format_rfc3339 row.occurred_at ≡ parsed written
  pub plain : All (λ c. c ≢ b'[') (codes written)
  pub reads : codec.parse_rfc3339 written ≡ parsed row.occurred_at
  pub bytes : List ℕ
  pub encodes : codec.json_to_vec row.payload ≡ parsed bytes
  pub decodes : codec.payload_from_slice bytes ≡ returned (parsed message)
  pub identity : row.idempotency_key ≡ some (to_hex key)
  pub sized : IsKey key
  pub unique : IsMap row.headers
  pub enqueued : IsEnqueued row.headers
  pub message_id : ReadsId codec row.message_id
  pub correlation_id : ReadsId codec row.correlation_id
  pub causation_id : ReadsOptionalId codec row.causation_id

-- The envelope has what the row has: the identifiers, the time, the payload as `message`, and of each
-- header that is neither reserved nor a trace header its value; of the identity's source, what its
-- text is read as.
pub record IsCarried {Json : Type 0} (codec : Codec Json) (row : OutboxRow Json) (key : List ℕ)
    (message : Message Json) (evt : Envelope Json) : Type 0 where
  pub message_id : evt.message_id ≡ row.message_id
  pub identity :
      evt.idempotency_key
      ≡ some (record { key = to_hex key; source = source_read codec row.idempotency_source })
  pub correlation_id : evt.correlation_id ≡ row.correlation_id
  pub causation_id : evt.causation_id ≡ row.causation_id
  pub occurred_at : evt.occurred_at ≡ row.occurred_at
  pub payload : evt.payload ≡ message
  pub headers :
      (name : String) → get name evt.headers ≡ (if is_user name then get name row.headers else none)

module _ {Json : Type 0} (codec : Codec Json) (faithful : IsFaithful codec) (made : Made)
    (row : OutboxRow Json) (trace : Option (String × Option String)) (key : List ℕ)
    (decoded : Message Json) (sendable : IsSendable codec row key decoded) where
  -- What is sent for the row.
  abbrev sent_of : FutureRecord
  sent_of = record {
    topic = row.topic;
    key = record_key row;
    payload = sendable.bytes;
    headers = kept_headers row.headers ++ managed codec row trace (sendable.written <> "[UTC]");
  }

  future_record-sent_of : future_record codec row trace ≡ ok sent_of
  unfolding future_record managed_headers render
  future_record-sent_of = rw (sendable.encodes, sendable.formats) refl

  module _ (partition offset : ℤ) where
    abbrev arrived : KafkaRecord
    arrived = delivered codec.as_bytes sent_of partition offset

    abbrev found : RecordHeaders
    found = record_headers codec.from_utf8_lossy arrived

    abbrev carried : Envelope Json
    carried = record {
      message_id = row.message_id;
      idempotency_key =
          some (record { key = to_hex key; source = source_read codec row.idempotency_source });
      correlation_id = row.correlation_id;
      causation_id = row.causation_id;
      headers = found.user;
      payload = decoded;
      occurred_at = row.occurred_at;
    }

    source_found :
        (source : Option Json)
        → and_then (text_of codec.json_to_string source) codec.json_from_str
          ≡ source_read codec source
    source_found none = refl
    source_found (some j) = refl

    causation_read :
        (id : Option ℕ)
        → ReadsOptionalId codec id
        → optional "kafkaman-causation-id"
            (λ text. some_of (codec.uuid_parse_str text))
            none
            (text_of codec.uuid_to_string id)
          ≡ ok id
    causation_read none h = refl
    causation_read (some n) h = rw h refl

    envelope_of-carried : envelope_of codec made found decoded ≡ ok carried
    unfolding envelope_of parse
    envelope_of-carried =
        rw
          (
            has_key codec faithful row trace sent_of (sendable.written <> "[UTC]") refl partition
                offset (to_hex key) sendable.identity sendable.enqueued,
            from_hex-to_hex key sendable.sized,
            has_occurred_at codec faithful row trace sent_of (sendable.written <> "[UTC]") refl
                partition offset sendable.enqueued,
            before_bracket-append sendable.written sendable.plain,
            sendable.reads,
            has_message_id codec faithful row trace sent_of (sendable.written <> "[UTC]") refl
                partition offset sendable.enqueued,
            sendable.message_id,
            has_correlation_id codec faithful row trace sent_of (sendable.written <> "[UTC]") refl
                partition offset sendable.enqueued,
            sendable.correlation_id,
            has_causation_id codec faithful row trace sent_of (sendable.written <> "[UTC]") refl
                partition offset sendable.enqueued,
            causation_read row.causation_id sendable.causation_id,
            has_source codec faithful row trace sent_of (sendable.written <> "[UTC]") refl partition
                offset sendable.enqueued,
            source_found row.idempotency_source,
          )
          refl

    abbrev IsDecoded : FutureRecord → Type 0
    IsDecoded sent =
        (r : DecodedRecord Json) × (record_envelope codec made row.topic
            (delivered codec.as_bytes sent partition offset)
            (record_headers codec.from_utf8_lossy (delivered codec.as_bytes sent partition offset))
          ≡ ok r)
        × IsCarried codec row key decoded r.envelope

    carried-IsCarried : IsCarried codec row key decoded carried
    carried-IsCarried = record {
      message_id = refl;
      identity = refl;
      correlation_id = refl;
      causation_id = refl;
      occurred_at = refl;
      payload = refl;
      headers = λ name.
          has_user codec faithful row trace sent_of (sendable.written <> "[UTC]") refl partition
            offset name sendable.unique;
    }

    sent_of-IsDecoded : IsDecoded sent_of
    unfolding record_envelope
    sent_of-IsDecoded = (
      record { envelope = carried; key = arrived.key },
      rw (eq_refl row.topic, sendable.decodes, envelope_of-carried) refl,
      carried-IsCarried,
    )

    -- A row of the outbox that was enqueued with an identity comes back from the log as an envelope
    -- with the same identifiers, key, time and payload, and with the application's headers,
    -- whatever the trace context and wherever the broker put it. Of the identity's source it has what
    -- the JSON text is read as, and nothing where that cannot be read. The row's UUIDs, time and
    -- payload are read back as they are written.
    pub published_is_decoded :
        (sent : FutureRecord)
        → future_record codec row trace ≡ ok sent
        → (r : DecodedRecord Json) × (record_envelope codec made row.topic
              (delivered codec.as_bytes sent partition offset)
              (record_headers codec.from_utf8_lossy
                (delivered codec.as_bytes sent partition offset))
            ≡ ok r)
          × IsCarried codec row key decoded r.envelope
    published_is_decoded sent h =
        let same : sent_of ≡ sent = cc (h, future_record-sent_of) in
        subst IsDecoded same sent_of-IsDecoded
