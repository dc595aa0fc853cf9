-- ===== src/Kafka/Ingest.antt =====
-- crates/kafkaman-rdkafka/src/consumer.rs: storing one record, and `ingest_once`.
use Prim.Native.String.{◌++◌ as ◌<>◌}
use kafkaman.Base.{
  ℕ, String, Bool, true, false, Option, none, some, List, [], ◌∷◌, ◌++◌, if◌then◌else◌,
}
use kafkaman.Core.Error.{Parsed, parsed, malformed}
use kafkaman.Core.Problem.{ReceivedIngestFailureKind}
use kafkaman.Failure as SqlxFailure
use kafkaman.Outbox.Enqueue.{MessageDescriptor}
use kafkaman.Received.{ReceivedRow}
use kafkaman.Received.Storage.{ReceivedInsertOutcome, is_inserted, insert_received_with_outcome}
use kafkaman.Received.Quarantine.{insert_received_ingest_failure}
use kafkaman.Kafka.{KafkaRecord, Error, kafka, sqlx, database, ingest_failure_kind, Result, ok, err}
use kafkaman.Kafka.Headers.{record_headers}
use kafkaman.Kafka.Decode.{DecodedRecord, record_envelope, ingest_failure_record}
use kafkaman.Kafka.Consumer.{
  IngestStats, Ingester, IngestRun, Ingestion, is_conflict, stats_of, count_skip, commit_record,
  after_count, at_commit, after_failure_row, quarantine,
}

abbrev pub is_application_panicked : SqlxFailure.Error → Bool
is_application_panicked (SqlxFailure.application_panicked _ _ _) = true
is_application_panicked _ = false

module _ {Json : Type 0} (cfg : Ingestion Json) (run : IngestRun Json) (message : KafkaRecord) where
  abbrev pub conflict_detail : ℕ → String
  conflict_detail message_id =
      "message_id "
      <> (cfg.codec.uuid_to_string message_id
          <> " conflicts with an existing receive row for another idempotency key")

  -- What comes behind the `COMMIT`: the breaker, and the commit of the position.
  unfoldable pub settle_outcome :
      ReceivedInsertOutcome → Ingester Json → Ingester Json × Result IngestStats
  unfolding count_skip commit_record stats_of
  settle_outcome outcome s =
      if is_conflict outcome
      then after_count run.broker_fault message (stats_of message outcome)
          (count_skip cfg message s)
      else commit_record run.broker_fault message (stats_of message outcome)
          (record s { consecutive_skips = 0 })

  -- The transaction of a record whose insert did not fail. `rows` are those before the insert and
  -- `rows'` those behind it: where the insert is undone, only a new row of ours goes.
  unfoldable pub finish_store :
      MessageDescriptor
      → ℕ
      → Ingester Json
      → List (ReceivedRow Json)
      → ReceivedInsertOutcome
      → Ingester Json × Result IngestStats
  unfolding settle_outcome insert_received_ingest_failure ingest_failure_record
  finish_store d message_id s rows' outcome =
      let before = record s { received = if is_inserted outcome then s.received else rows' } in
      let after = record s { received = rows' } in
      if is_conflict outcome
      then after_failure_row run.commit_fault after
          (insert_received_ingest_failure run.conflict_fault run.insertion.now
            (ingest_failure_record cfg.codec.from_utf8_lossy cfg.message_type message d.topic
              ReceivedIngestFailureKind.message_id_conflict (conflict_detail message_id))
            s.failures)
          (settle_outcome outcome)
      else at_commit run.commit_fault before after (settle_outcome outcome)

  -- A panic of the application's code is a property of the record; any other error is returned.
  abbrev pub after_insert :
      MessageDescriptor
      → ℕ
      → Ingester Json
      → List (ReceivedRow Json) × SqlxFailure.Result ReceivedInsertOutcome
      → Ingester Json × Result IngestStats
  after_insert d message_id s (rows', SqlxFailure.ok outcome) =
      finish_store d message_id s rows' outcome
  after_insert d message_id s (rows', SqlxFailure.err e) =
      if is_application_panicked e
      then quarantine cfg run d message ReceivedIngestFailureKind.invalid_payload
          (cfg.sqlx_error_text e) (record s { received = rows' })
      else (record s { received = rows' }, err (sqlx e))

  unfoldable pub store :
      MessageDescriptor → DecodedRecord Json → Ingester Json → Ingester Json × Result IngestStats
  unfolding finish_store quarantine insert_received_with_outcome
  store d decoded s = elim run.begin_fault [
    | some e ↦ (s, err (database e))
    | none ↦ after_insert d decoded.envelope.message_id s (
        insert_received_with_outcome run.insertion (SqlxFailure.ok d) decoded.envelope
          (record {
            partition = message.partition;
            offset = message.offset;
            key = decoded.key;
            trace = run.trace;
          })
          s.received)
  ]

  abbrev pub quarantine_kind :
      MessageDescriptor
      → Error
      → Ingester Json
      → Option ReceivedIngestFailureKind
      → Ingester Json × Result IngestStats
  quarantine_kind d e s (some kind) = quarantine cfg run d message kind (cfg.error_text e) s
  quarantine_kind d e s none = (s, err e)

  abbrev pub route :
      MessageDescriptor
      → Ingester Json
      → Result (DecodedRecord Json)
      → Ingester Json × Result IngestStats
  route d s (ok decoded) = store d decoded s
  route d s (err e) = quarantine_kind d e s (ingest_failure_kind e)

  unfoldable pub ingest_decoded :
      MessageDescriptor → Ingester Json → Ingester Json × Result IngestStats
  unfolding store record_envelope record_headers ingest_failure_kind
  ingest_decoded d s = route d s (
      record_envelope cfg.codec run.made d.topic message
        (record_headers cfg.codec.from_utf8_lossy message))

module _ {Json : Type 0} (cfg : Ingestion Json) where
  abbrev pub after_recv :
      IngestRun Json
      → MessageDescriptor
      → Ingester Json
      → Parsed KafkaRecord
      → Ingester Json × Result IngestStats
  after_recv run d s (parsed message) =
      ingest_decoded cfg run message d (record s { taken = s.taken ++ message ∷ [] })
  after_recv run d s (malformed e) = (s, err (kafka e))

  abbrev pub with_table :
      IngestRun Json
      → Ingester Json
      → SqlxFailure.Result MessageDescriptor
      → Ingester Json × Result IngestStats
  with_table run s (SqlxFailure.ok d) =
      after_recv run d (record s { received = run.meanwhile s.received }) run.recv
  with_table run s (SqlxFailure.err e) = (s, err (sqlx e))

  -- The topic is resolved ahead of any record.
  unfoldable pub ingest_once : IngestRun Json → Ingester Json → Ingester Json × Result IngestStats
  unfolding ingest_decoded
  ingest_once run s = with_table run s cfg.table
