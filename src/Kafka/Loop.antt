-- ===== src/Kafka/Loop.antt =====
-- `run_ingester` of crates/kafkaman-rdkafka/src/consumer.rs, and stats.rs.
use kafkaman.Base.{ℕ, ◌+◌, Bool, true, false, List, [], ◌∷◌, if◌then◌else◌}
use kafkaman.Failure as SqlxFailure
use kafkaman.Outbox.Enqueue.{MessageDescriptor}
use kafkaman.Kafka.{Error, sqlx, consecutive_skip_limit_exceeded, Result, ok, err}
use kafkaman.Kafka.Consumer.{IngestStats, Ingester, IngestRun, Ingestion}
use kafkaman.Kafka.Ingest.{ingest_once}

pub record IngestLoopStats : Type 0 where
  pub cycles : ℕ
  pub consumed : ℕ
  pub inserted : ℕ
  pub duplicates : ℕ
  pub skipped : ℕ
  pub committed : ℕ
  pub transient_errors : ℕ

abbrev pub no_cycles : IngestLoopStats
no_cycles = record {
  cycles = 0;
  consumed = 0;
  inserted = 0;
  duplicates = 0;
  skipped = 0;
  committed = 0;
  transient_errors = 0;
}

unfoldable pub record_cycle : IngestLoopStats → IngestStats → IngestLoopStats
record_cycle t stats = record t {
  cycles = t.cycles + 1;
  consumed = t.consumed + stats.consumed;
  inserted = t.inserted + stats.inserted;
  duplicates = t.duplicates + stats.duplicates;
  skipped = t.skipped + stats.skipped;
  committed = t.committed + stats.committed;
}

-- What the loop makes of one result.
pub data Next : Type 0 where
  go_on : IngestLoopStats → Next
  stop : Error → Next

abbrev pub is_skip_limit : Error → Bool
is_skip_limit (consecutive_skip_limit_exceeded _ _ _) = true
is_skip_limit _ = false

unfoldable pub after_ingest : IngestLoopStats → Result IngestStats → Next
unfolding record_cycle
after_ingest t (ok stats) = go_on (record_cycle t stats)
after_ingest t (err e) =
    if is_skip_limit e
    then stop e
    else go_on (record t { transient_errors = t.transient_errors + 1 })

abbrev pub follow :
    {Json : Type 0}
    → Ingester Json
    → (IngestLoopStats → Ingester Json × Result IngestLoopStats)
    → Next
    → Ingester Json × Result IngestLoopStats
follow s rest (go_on t) = rest t
follow s rest (stop e) = (s, err e)

abbrev pub resolve :
    {Json : Type 0}
    → SqlxFailure.Result MessageDescriptor
    → Ingester Json
    → Ingester Json × Result IngestLoopStats
    → Ingester Json × Result IngestLoopStats
resolve (SqlxFailure.ok d) s done = done
resolve (SqlxFailure.err e) s done = (s, err (sqlx e))

module _ {Json : Type 0} (cfg : Ingestion Json) where
  -- The records that come before the shutdown, one after the other.
  unfoldable pub ingest_all :
      List (IngestRun Json)
      → Ingester Json
      → IngestLoopStats
      → Ingester Json × Result IngestLoopStats
  unfolding ingest_once after_ingest
  ingest_all [] s t = (s, ok t)
  ingest_all (run ∷ runs) s t =
      let (s', result) = ingest_once cfg run s in
      follow s' (λ t'. ingest_all runs s' t') (after_ingest t result)

  -- `run_ingester`: the topic is resolved at the start of the loop.
  unfoldable pub run_ingester :
      List (IngestRun Json) → Ingester Json → Ingester Json × Result IngestLoopStats
  unfolding ingest_all
  run_ingester runs s = resolve cfg.table s (ingest_all runs s no_cycles)
