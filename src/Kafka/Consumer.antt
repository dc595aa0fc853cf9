-- ===== src/Kafka/Consumer.antt =====
-- crates/kafkaman-rdkafka/src/consumer.rs and stats.rs: one record is stored or quarantined, and then
-- its position committed. Spans, metrics and the observer of the feature `internal-hooks` are left out.
use kafkaman.Base.{
  ℕ, suc, String, Bool, true, false, Option, none, some, List, [], ◌∷◌, ◌++◌, leb, if◌then◌else◌,
}
use kafkaman.Base.Int.{ℤ, pos, ◌+ℤ◌}
use kafkaman.Core.Error.{Parsed}
use kafkaman.Core.Problem.{ReceivedIngestFailureKind}
use kafkaman.Failure as SqlxFailure
use kafkaman.Failure.{SqlxError}
use kafkaman.Outbox.Enqueue.{MessageDescriptor}
use kafkaman.Received.{ReceivedRow}
use kafkaman.Received.Storage.{ReceivedInsertOutcome, Insertion, is_inserted}
use kafkaman.Received.Quarantine.{FailureColumns, insert_received_ingest_failure}
use kafkaman.Kafka.{
  KafkaRecord, Codec, Error, kafka, sqlx, database, consecutive_skip_limit_exceeded, Result, ok,
  err,
}
use kafkaman.Kafka.Decode.{Made, ingest_failure_record}

pub record IngestStats : Type 0 where
  pub consumed : ℕ
  pub inserted : ℕ
  pub duplicates : ℕ
  pub skipped : ℕ
  pub committed : ℕ
  pub partition : ℤ
  pub offset : ℤ

-- What the broker keeps for the group on a partition: the offset to go on from. All records below it
-- count as consumed.
pub record Position : Type 0 where
  pub topic : String
  pub partition : ℤ
  pub next : ℤ

-- The position behind a record, which is what `commit_message` commits.
abbrev pub behind : KafkaRecord → Position
behind m = record { topic = m.topic; partition = m.partition; next = m.offset +ℤ pos 1 }

-- The two tables, the breaker's counter, the records that were taken from the broker, and the
-- positions whose commit the broker confirmed, the last one at the end.
pub record Ingester (Json : Type 0) : Type 0 where
  pub received : List (ReceivedRow Json)
  pub failures : List FailureColumns
  pub consecutive_skips : ℕ
  pub taken : List KafkaRecord
  pub commits : List Position

-- The fault of a `COMMIT`, with whether it took effect all the same.
pub record CommitFault : Type 0 where
  pub error : SqlxError
  pub landed : Bool

-- A transaction on the quarantine.
pub record Quarantining : Type 0 where
  pub begin_fault : Option SqlxError
  pub insert_fault : Option SqlxError
  pub commit_fault : Option CommitFault

-- One call of `ingest_once`: what other sessions commit while it waits for a record, the record, and
-- what its surroundings answer.
pub record IngestRun (Json : Type 0) : Type 0 where
  pub meanwhile : List (ReceivedRow Json) → List (ReceivedRow Json)
  pub recv : Parsed KafkaRecord
  pub trace : Option (String × Option String)
  pub made : Made
  pub begin_fault : Option SqlxError
  pub insertion : Insertion Json
  pub conflict_fault : Option SqlxError
  pub commit_fault : Option CommitFault
  pub quarantining : Quarantining
  pub broker_fault : Option String

-- What is fixed for a consumer of one message type.
pub record Ingestion (Json : Type 0) : Type 0 where
  pub codec : Codec Json
  pub message_type : String
  pub table : SqlxFailure.Result MessageDescriptor
  pub max_consecutive_skips : ℕ
  pub error_text : Error → String
  pub sqlx_error_text : SqlxFailure.Error → String

abbrev pub default_max_consecutive_skips : ℕ
default_max_consecutive_skips = 10

-- `with_max_consecutive_skips`.
unfoldable pub with_max_consecutive_skips : {Json : Type 0} → ℕ → Ingestion Json → Ingestion Json
with_max_consecutive_skips n cfg = record cfg { max_consecutive_skips = if leb n 1 then 1 else n }

abbrev pub count_of : Bool → ℕ
count_of true = 1
count_of false = 0

abbrev pub is_duplicate : ReceivedInsertOutcome → Bool
is_duplicate ReceivedInsertOutcome.duplicate_idempotency_key = true
is_duplicate _ = false

abbrev pub is_conflict : ReceivedInsertOutcome → Bool
is_conflict ReceivedInsertOutcome.message_id_conflict = true
is_conflict _ = false

unfoldable pub stats_of : KafkaRecord → ReceivedInsertOutcome → IngestStats
stats_of message outcome = record {
  consumed = 1;
  inserted = count_of (is_inserted outcome);
  duplicates = count_of (is_duplicate outcome);
  skipped = count_of (is_conflict outcome);
  committed = 1;
  partition = message.partition;
  offset = message.offset;
}

unfoldable pub skipped_stats : KafkaRecord → IngestStats
skipped_stats message = record {
  consumed = 1;
  inserted = 0;
  duplicates = 0;
  skipped = 1;
  committed = 1;
  partition = message.partition;
  offset = message.offset;
}

module _ {Json : Type 0} where
  -- `commit_record`.
  unfoldable pub commit_record :
      Option String → KafkaRecord → IngestStats → Ingester Json → Ingester Json × Result IngestStats
  commit_record none message stats s =
      (record s { commits = s.commits ++ behind message ∷ [] }, ok stats)
  commit_record (some e) message stats s = (s, err (kafka e))

  -- The skip is counted, and the position committed if the breaker does not trip.
  abbrev pub after_count :
      Option String
      → KafkaRecord
      → IngestStats
      → Ingester Json × Result (Unit {0})
      → Ingester Json × Result IngestStats
  after_count broker_fault message stats (s, ok done) = commit_record broker_fault message stats s
  after_count broker_fault message stats (s, err e) = (s, err e)

  -- What a `COMMIT` makes of the state: `after` if it took effect.
  abbrev pub at_commit :
      Option CommitFault
      → Ingester Json
      → Ingester Json
      → (Ingester Json → Ingester Json × Result IngestStats)
      → Ingester Json × Result IngestStats
  at_commit none before after next = next after
  at_commit (some fault) before after next =
      (if fault.landed then after else before, err (database fault.error))

  abbrev pub after_failure_row :
      Option CommitFault
      → Ingester Json
      → List FailureColumns × SqlxFailure.Result Bool
      → (Ingester Json → Ingester Json × Result IngestStats)
      → Ingester Json × Result IngestStats
  after_failure_row commit_fault s (failures, SqlxFailure.ok fresh) next =
      at_commit commit_fault s (record s { failures = failures }) next
  after_failure_row commit_fault s (failures, SqlxFailure.err e) next = (s, err (sqlx e))

module _ {Json : Type 0} (cfg : Ingestion Json) where
  -- `count_skip`: the counter goes up, whether or not it trips.
  unfoldable pub count_skip : KafkaRecord → Ingester Json → Ingester Json × Result (Unit {0})
  count_skip message s = (
    record s { consecutive_skips = suc s.consecutive_skips },
    if leb cfg.max_consecutive_skips (suc s.consecutive_skips)
        then err (
            consecutive_skip_limit_exceeded cfg.max_consecutive_skips message.partition
              message.offset)
        else ok tt,
  )

  unfoldable pub quarantine :
      IngestRun Json
      → MessageDescriptor
      → KafkaRecord
      → ReceivedIngestFailureKind
      → String
      → Ingester Json
      → Ingester Json × Result IngestStats
  unfolding count_skip commit_record skipped_stats insert_received_ingest_failure
  quarantine run d message kind error s = elim run.quarantining.begin_fault [
    | some e ↦ (s, err (database e))
    | none ↦
        after_failure_row run.quarantining.commit_fault s
          (insert_received_ingest_failure run.quarantining.insert_fault run.insertion.now
            (ingest_failure_record cfg.codec.from_utf8_lossy cfg.message_type message d.topic kind
              error)
            s.failures)
          (λ t. after_count run.broker_fault message (skipped_stats message) (count_skip message t))
  ]
