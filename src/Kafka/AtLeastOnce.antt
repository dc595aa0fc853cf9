-- ===== src/Kafka/AtLeastOnce.antt =====
-- At least once: what holds of a consumer through any number of records: consumer.rs.
use mathlib.Core.List.{Memᴰ}
use kafkaman.Base.{ℕ, String, List, ◌≡◌, refl, inl, inr}
use kafkaman.Failure as SqlxFailure
use kafkaman.Received.Once.{Keeps}
use kafkaman.Kafka.{KafkaRecord}
use kafkaman.Kafka.Consumer.{Ingester, IngestRun, Ingestion, Position, behind}
use kafkaman.Kafka.Accounted.{Advance, IsAccounted, taken}

module _ {Json : Type 0} (cfg : Ingestion Json) where
  abbrev lossy : List ℕ → String
  lossy = cfg.codec.from_utf8_lossy

  -- Each position that was committed is the one behind a record that is stored or diagnosed.
  abbrev pub IsDurable : Ingester Json → Type 0
  IsDurable s =
      (p : Position)
      → Memᴰ p s.commits
      → (m : KafkaRecord) × (p ≡ behind m) × IsAccounted cfg.codec.from_utf8_lossy s m

  -- Other sessions lose no id and no key of a received row.
  abbrev pub IsShared : IngestRun Json → Type 0
  IsShared run = Keeps run.meanwhile × Keeps run.insertion.seen

  pub IsAccounted-on :
      (s t : Ingester Json) (m : KafkaRecord)
      → Advance s t
      → IsAccounted lossy s m
      → IsAccounted lossy t m
  IsAccounted-on s t m adv (inl (key, names, k)) = inl (key, names, adv.keys key k)
  IsAccounted-on s t m adv (inr q) = inr (adv.places m q)

  pub shared :
      (f : IngestRun Json) (s : Ingester Json)
      → Keeps f.meanwhile
      → Advance s (record s { received = f.meanwhile s.received })
  shared f s keeps = record {
    keys = λ key k. keeps.keys key s.received k;
    places = λ n q. q;
    taken = refl;
  }
