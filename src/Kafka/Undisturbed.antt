-- ===== src/Kafka/Undisturbed.antt =====
-- An ingest loop that met no transient error has stored all that it took: consumer.rs.
use mathlib.Core.List.{Memᴰ}
use kafkaman.Base.{List, ◌≡◌}
use kafkaman.Failure as SqlxFailure
use kafkaman.Kafka.{KafkaRecord, Result, ok}
use kafkaman.Kafka.Consumer.{IngestStats, Ingester, Ingestion}
use kafkaman.Kafka.Loop.{IngestLoopStats}
use kafkaman.Kafka.Accounted.{IsAccounted, taken}

module _ {Json : Type 0} (cfg : Ingestion Json) where
  -- Each record that was taken from the broker has its message or its diagnosis in the database.
  abbrev pub AreStored : Ingester Json → Type 0
  AreStored s = (m : KafkaRecord) → Memᴰ m s.taken → IsAccounted cfg.codec.from_utf8_lossy s m

  -- A call that succeeds keeps this.
  abbrev Succeeds : Ingester Json × Result IngestStats → Type 0
  Succeeds p = (stats : IngestStats) → p.1 ≡ ok stats → AreStored p.0

  -- What a loop that was shut down leaves, if it counts no transient error.
  abbrev Ends : Ingester Json × Result IngestLoopStats → Type 0
  Ends p =
      (totals : IngestLoopStats) → p.1 ≡ ok totals → totals.transient_errors ≡ 0 → AreStored p.0
