-- ===== src/Kafka/EndToEnd.antt =====
-- From `enqueue` through the log into the received table: outbox_enqueue.rs, publisher.rs,
-- ingest_record.rs and received_storage.rs.
use kafkaman.Base.{
  ℕ, String, Bool, false, Option, none, some, List, [], ◌∷◌, ◌≡◌, ◌≢◌, refl, ◌∙◌, ap, sym, if_elim,
  lowercase, codes, All,
}
use kafkaman.Base.Int.{ℤ}
use kafkaman.Base.Table.{timestamptz, timestamptz_idem}
use kafkaman.Core.Status.{OutboxStatus}
use kafkaman.Core.Error.{parsed}
use kafkaman.Core.Idempotency.{IsKey, to_hex}
use kafkaman.Failure as SqlxFailure
use kafkaman.Outbox.{OutboxRow}
use kafkaman.Outbox.Enqueue.{
  Envelope, Identity, Message, MessageDescriptor, Prepared, Session, returned, prepare, new_row,
  catch_application_panic, find_reserved_header, has_prefix_ignore_case,
}
use kafkaman.Received.{ReceivedRow}
use kafkaman.Received.Storage.{
  Insertion, Source, Decoded, decode, received_row, insert_received_with_outcome,
}
use kafkaman.Received.Once.{IsQuiet, Stores, insert_outcome}
use kafkaman.Kafka.{KafkaRecord, Codec, ok}
use kafkaman.Kafka.Headers.{
  RecordHeaders, is_trace_header, no_headers, file_header, file_headers, file_all, record_headers,
}
use kafkaman.Kafka.Decode.{DecodedRecord, Made, record_envelope}
use kafkaman.Kafka.Keys.{is_reserved, Raw}
use kafkaman.Kafka.Publisher.{FutureRecord, future_record}
use kafkaman.Kafka.Wire.{Pairs, Without, IsMap, delivered}
use kafkaman.Kafka.Enqueued.{prefix_lowers, insert_header-Without, prepare-IsEnqueued}
use kafkaman.Kafka.Named.{record_envelope-Named}
use kafkaman.Kafka.Carried.{IsFaithful, ReadsId, ReadsOptionalId, source_read}
use kafkaman.Kafka.RoundTrip.{IsSendable, published_is_decoded}

abbrev lowers_reserved : String → Bool
lowers_reserved key = is_reserved (lowercase key)

file_header-Without :
    (key value : String) (h : RecordHeaders)
    → Without lowers_reserved h.user
    → Without lowers_reserved (file_header key value h).user
unfolding file_header
file_header-Without key value h w =
    if_elim (λ (g : RecordHeaders). Without lowers_reserved g.user)
      (is_trace_header (lowercase key)) (λ e. w)
      (λ e.
        if_elim (λ (g : RecordHeaders). Without lowers_reserved g.user)
          (is_reserved (lowercase key)) (λ q. w)
          (λ q. insert_header-Without lowers_reserved key value h.user q w))

file_headers-Without :
    (lossy : List ℕ → String) (raw : Raw) (h : RecordHeaders)
    → Without lowers_reserved h.user
    → Without lowers_reserved (file_headers lossy raw h).user
unfolding file_headers
file_headers-Without lossy [] h w = w
file_headers-Without lossy ((key, none) ∷ rest) h w = file_headers-Without lossy rest h w
file_headers-Without lossy ((key, some value) ∷ rest) h w =
    file_headers-Without lossy rest (file_header key (lossy value) h)
      (file_header-Without key (lossy value) h w)

find_reserved_header-Without :
    (xs : Pairs) → Without lowers_reserved xs → find_reserved_header xs ≡ none
unfolding find_reserved_header
find_reserved_header-Without [] w = refl
find_reserved_header-Without ((key, value) ∷ xs) w =
    let closed : has_prefix_ignore_case "kafkaman-" key ≡ false =
      prefix_lowers "kafkaman-" key ∙ w.0 in
    rw closed (find_reserved_header-Without xs w.1)

-- What a record leaves to the application is never refused as a reserved header.
pub record_headers-unreserved :
    (lossy : List ℕ → String) (message : KafkaRecord)
    → find_reserved_header (record_headers lossy message).user ≡ none
unfolding record_headers
record_headers-unreserved lossy message = settle message.headers
  where
    settle : (headers : Option Raw) → find_reserved_header (file_all lossy headers).user ≡ none
    settle none = find_reserved_header-Without [] tt
    settle (some raw) =
        find_reserved_header-Without (file_headers lossy raw no_headers).user
          (file_headers-Without lossy raw no_headers tt)

module _ {Json : Type 0} where
  decode-ready :
      (d : MessageDescriptor) (evt : Envelope Json) (i : Identity Json) (m : Message Json)
      (payload : Json) (entity_key : String)
      → find_reserved_header evt.headers ≡ none
      → evt.idempotency_key ≡ some i
      → evt.payload ≡ m
      → m.serialize ≡ returned (SqlxFailure.ok payload)
      → m.entity_key ≡ returned entity_key
      → decode d evt
        ≡ SqlxFailure.ok (record { identity = i; payload = payload; entity_key = entity_key })
  unfolding decode catch_application_panic
  decode-ready d evt i m payload entity_key free e q s k = rw (free, e, q, s, k) refl

  -- The message can travel: its identifiers, its time, to the microsecond, and its payload have a text that is read back, the payload as a
  -- `message` that serializes to the same value and has the same entity key; its key is one of 32
  -- bytes; its headers are a map.
  pub record IsCarriable (codec : Codec Json) (evt : Envelope Json) (p : Prepared Json)
      (identity : Identity Json) (key : List ℕ) (message : Message Json) : Type 0 where
    pub written : String
    pub formats : codec.format_rfc3339 (timestamptz evt.occurred_at) ≡ parsed written
    pub plain : All (λ c. c ≢ b'[') (codes written)
    pub reads : codec.parse_rfc3339 written ≡ parsed (timestamptz evt.occurred_at)
    pub bytes : List ℕ
    pub encodes : codec.json_to_vec p.payload ≡ parsed bytes
    pub decodes : codec.payload_from_slice bytes ≡ returned (parsed message)
    pub serializes : message.serialize ≡ returned (SqlxFailure.ok p.payload)
    pub resolves : message.entity_key ≡ returned p.entity_key
    pub identified : evt.idempotency_key ≡ some identity
    pub hex : identity.key ≡ to_hex key
    pub sized : IsKey key
    pub unique : IsMap evt.headers
    pub message_id : ReadsId codec evt.message_id
    pub correlation_id : ReadsId codec evt.correlation_id
    pub causation_id : ReadsOptionalId codec evt.causation_id

  -- The received row is the enqueued message, its time to the microsecond, and of the identity's
  -- source what its text is read as.
  pub record IsReceived (codec : Codec Json) (evt : Envelope Json) (p : Prepared Json)
      (identity : Identity Json) (r : ReceivedRow Json) : Type 0 where
    pub message_id : r.message_id ≡ evt.message_id
    pub idempotency_key : r.idempotency_key ≡ identity.key
    pub idempotency_source : r.idempotency_source ≡ source_read codec identity.source
    pub entity_key : r.entity_key ≡ some p.entity_key
    pub payload : r.payload ≡ p.payload
    pub correlation_id : r.correlation_id ≡ some evt.correlation_id
    pub causation_id : r.causation_id ≡ evt.causation_id
    pub occurred_at : r.occurred_at ≡ timestamptz evt.occurred_at

module _ {Json : Type 0} (codec : Codec Json) (faithful : IsFaithful codec) (made : Made)
    (session : Session Json) (d : MessageDescriptor) (evt : Envelope Json) (p : Prepared Json)
    (prepared : prepare d evt ≡ SqlxFailure.ok p) (identity : Identity Json) (key : List ℕ)
    (message : Message Json) (carriable : IsCarriable codec evt p identity key message) where
  abbrev pub enqueued_row : OutboxRow Json
  enqueued_row = new_row d evt p session OutboxStatus.pending none

  row-IsSendable : IsSendable codec enqueued_row key message
  unfolding new_row
  row-IsSendable = record {
    written = carriable.written;
    formats = carriable.formats;
    plain = carriable.plain;
    reads = carriable.reads;
    bytes = carriable.bytes;
    encodes = carriable.encodes;
    decodes = carriable.decodes;
    identity = rw carriable.identified (ap some carriable.hex);
    sized = carriable.sized;
    unique = (prepare-IsEnqueued d evt carriable.unique prepared).0;
    enqueued = (prepare-IsEnqueued d evt carriable.unique prepared).1;
    message_id = carriable.message_id;
    correlation_id = carriable.correlation_id;
    causation_id = carriable.causation_id;
  }

  enqueued_source : enqueued_row.idempotency_source ≡ identity.source
  unfolding new_row
  enqueued_source = rw carriable.identified refl

  abbrev decoded : Decoded Json
  decoded = record {
    identity = record { key = to_hex key; source = source_read codec identity.source };
    payload = p.payload;
    entity_key = p.entity_key;
  }

  -- A message that is enqueued with an identity, published and consumed is stored as a received row
  -- with the same identifiers, key, entity key and payload, the time to the microsecond, and of the
  -- identity's source what its JSON text is read as, unless a row has its key already, or its id. The
  -- message's UUIDs, time and payload are read back as they are written. The transaction of the insert succeeds with no commit of others between its
  -- statements.
  pub enqueued_is_stored :
      (trace : Option (String × Option String)) (sent : FutureRecord) (partition offset : ℤ)
      (tx : Insertion Json) (source : Source) (rows : List (ReceivedRow Json))
      → future_record codec enqueued_row trace ≡ ok sent
      → IsQuiet tx
      → (r : DecodedRecord Json) × (row : ReceivedRow Json) × (record_envelope codec made d.topic
            (delivered codec.as_bytes sent partition offset)
            (record_headers codec.from_utf8_lossy (delivered codec.as_bytes sent partition offset))
          ≡ ok r)
        × Stores row rows
            (insert_received_with_outcome tx (SqlxFailure.ok d) r.envelope source rows)
        × IsReceived codec evt p identity row
  unfolding new_row received_row
  enqueued_is_stored trace sent partition offset tx source rows h quiet =
      let (r, reads, carried) =
        published_is_decoded codec faithful made enqueued_row trace key message row-IsSendable
          partition offset sent h in
      let (k, names, has, filed) =
        record_envelope-Named codec made d.topic (delivered codec.as_bytes sent partition offset)
          reads in
      let free : find_reserved_header r.envelope.headers ≡ none = rw filed (
        record_headers-unreserved codec.from_utf8_lossy
          (delivered codec.as_bytes sent partition offset)) in
      let identified : r.envelope.idempotency_key ≡ some decoded.identity =
        carried.identity
        ∙ ap (λ (s : Option Json). some (record { key = to_hex key; source = source_read codec s }))
            enqueued_source in
      let ready : decode d r.envelope ≡ SqlxFailure.ok decoded =
        decode-ready d r.envelope decoded.identity message p.payload p.entity_key free identified
          carried.payload carriable.serializes carriable.resolves in
      (
        r,
        received_row d r.envelope decoded source tx.now,
        reads,
        insert_outcome tx d r.envelope decoded source rows quiet ready,
        record {
          message_id = carried.message_id;
          idempotency_key = sym carriable.hex;
          idempotency_source = refl;
          entity_key = refl;
          payload = refl;
          correlation_id = ap some carried.correlation_id;
          causation_id = carried.causation_id;
          occurred_at = ap timestamptz carried.occurred_at ∙ timestamptz_idem evt.occurred_at;
        },
      )
