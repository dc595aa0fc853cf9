-- ===== src/Kafka/Breaker.antt =====
-- The poison breaker of crates/kafkaman-rdkafka/src/consumer.rs.
use kafkaman.Base.{ℕ, suc, ◌+◌, ◌≤◌, ◌<◌, none, some, List, [], ◌∷◌, ◌++◌, ◌≡◌, length}
use kafkaman.Base.Int.{ℤ}
use kafkaman.Core.Error.{parsed}
use kafkaman.Core.Problem.{ReceivedIngestFailureKind}
use kafkaman.Failure as SqlxFailure
use kafkaman.Outbox.Enqueue.{MessageDescriptor}
use kafkaman.Received.Quarantine.{FailureColumns, insert_received_ingest_failure}
use kafkaman.Kafka.{
  KafkaRecord, Error, consecutive_skip_limit_exceeded, ingest_failure_kind, Result, ok, err,
}
use kafkaman.Kafka.Headers.{record_headers}
use kafkaman.Kafka.Decode.{record_envelope, ingest_failure_record}
use kafkaman.Kafka.Consumer.{IngestStats, Ingester, IngestRun, Ingestion, behind}
use kafkaman.Kafka.Loop.{IngestLoopStats}

module _ {Json : Type 0} where
  -- A record that can never be decoded, read while the database and the broker work.
  pub record IsPoison (cfg : Ingestion Json) (d : MessageDescriptor) (run : IngestRun Json)
      : Type 0 where
    pub message : KafkaRecord
    pub kind : ReceivedIngestFailureKind
    pub error : Error
    pub read : run.recv ≡ parsed message
    pub undecoded :
        record_envelope cfg.codec run.made d.topic message
          (record_headers cfg.codec.from_utf8_lossy message)
        ≡ err error
    pub permanent : ingest_failure_kind error ≡ some kind
    pub begins : run.quarantining.begin_fault ≡ none
    pub inserts : run.quarantining.insert_fault ≡ none
    pub commits : run.quarantining.commit_fault ≡ none
    pub reached : run.broker_fault ≡ none

  -- The state behind a poison record, but for the commit.
  abbrev skipped :
      Ingester Json → KafkaRecord → List FailureColumns → IngestRun Json → Ingester Json
  skipped s message failures run = record s {
    received = run.meanwhile s.received;
    taken = s.taken ++ message ∷ [];
    failures = failures;
  }

  abbrev filed :
      (cfg : Ingestion Json) (d : MessageDescriptor) (run : IngestRun Json) (s : Ingester Json)
      → IsPoison cfg d run
      → List FailureColumns
  filed cfg d run s p =
      (insert_received_ingest_failure none run.insertion.now
        (ingest_failure_record cfg.codec.from_utf8_lossy cfg.message_type p.message d.topic p.kind
          (cfg.error_text p.error))
        s.failures).0

  -- A poison record trips the breaker, or its position is committed and the counter is one higher.
  data PoisonStep (cfg : Ingestion Json) (s : Ingester Json)
      : Ingester Json × Result IngestStats → Type 0 where
    trips :
        (t : Ingester Json) (partition offset : ℤ)
        → cfg.max_consecutive_skips ≤ suc s.consecutive_skips
        → t.commits ≡ s.commits
        → PoisonStep cfg s
            (t, err (consecutive_skip_limit_exceeded cfg.max_consecutive_skips partition offset))
    passes :
        (t : Ingester Json) (stats : IngestStats) (m : KafkaRecord)
        → suc s.consecutive_skips < cfg.max_consecutive_skips
        → t.consecutive_skips ≡ suc s.consecutive_skips
        → t.commits ≡ s.commits ++ behind m ∷ []
        → PoisonStep cfg s (t, ok stats)

  -- What the breaker leaves: the error of its limit, and so many more committed positions.
  pub record IsTripped (cfg : Ingestion Json) (s : Ingester Json) (passed : ℕ)
      (p : Ingester Json × Result IngestLoopStats) : Type 0 where
    pub partition : ℤ
    pub offset : ℤ
    pub error :
        p.1 ≡ err (consecutive_skip_limit_exceeded cfg.max_consecutive_skips partition offset)
    pub committed : length p.0.commits ≡ length s.commits + passed
