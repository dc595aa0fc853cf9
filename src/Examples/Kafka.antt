-- ===== src/Examples/Kafka.antt =====
-- A consumer takes a message, and then records of another topic.
use kafkaman.Base.{some, ℕ, none, List, [], ◌∷◌, ◌≡◌, refl}
use kafkaman.Base.Int.{pos}
use kafkaman.Failure as SqlxFailure
use kafkaman.Outbox.Enqueue.{MessageDescriptor}
use kafkaman.Received.Storage.{Insertion}
use kafkaman.Kafka.{KafkaRecord, Result, ok, err}
use kafkaman.Core.Error.{parsed}
use kafkaman.Core.Idempotency.{to_hex}
use kafkaman.Kafka.Consumer.{behind, Ingester, IngestRun, Ingestion, Quarantining}
use kafkaman.Kafka.Loop.{IngestLoopStats, run_ingester}
use kafkaman.Kafka.AtLeastOnce.{IsShared}
use kafkaman.Kafka.Totals.{IsTally, loop_totals}
use kafkaman.Kafka.Publisher.{future_record}
use kafkaman.Examples.Wire.{codec, made, arrived, text_of, tally, strokes, repeat}

abbrev descriptor : MessageDescriptor
descriptor = record { message_type = "order"; topic = "orders" }

abbrev ingestion : Ingestion ℕ
ingestion = record {
  codec = codec;
  message_type = "order";
  table = SqlxFailure.ok descriptor;
  max_consecutive_skips = 2;
  error_text = λ e. "no";
  sqlx_error_text = λ e. "no";
}

abbrev working : Quarantining
working = record { begin_fault = none; insert_fault = none; commit_fault = none }

abbrev insertion : Insertion ℕ
insertion = record { now = 9; insert_fault = none; select_fault = none; seen = λ rows. rows }

abbrev run_of : KafkaRecord → IngestRun ℕ
run_of m = record {
  meanwhile = λ rows. rows;
  recv = parsed m;
  trace = none;
  made = made;
  begin_fault = none;
  insertion = insertion;
  conflict_fault = none;
  commit_fault = none;
  quarantining = working;
  broker_fault = none;
}

abbrev stray : ℕ → KafkaRecord
stray n = record {
  topic = "other";
  partition = pos 0;
  offset = pos n;
  key = none;
  payload = none;
  headers = none;
}

abbrev fresh : Ingester ℕ
fresh = record { received = []; failures = []; consecutive_skips = 0; taken = []; commits = [] }

shared : (m : KafkaRecord) → IsShared ingestion (run_of m)
shared m = (
  record { keys = λ key rows k. k; ids = λ id rows k. k },
  record { keys = λ key rows k. k; ids = λ id rows k. k },
)

abbrev runs : List (IngestRun ℕ)
runs = run_of arrived ∷ run_of (stray 8) ∷ []

abbrev no_totals : Result IngestLoopStats → IngestLoopStats
no_totals (ok totals) = totals
no_totals (err e) = record {
  cycles = 0;
  consumed = 0;
  inserted = 0;
  duplicates = 0;
  skipped = 0;
  committed = 0;
  transient_errors = 0;
}

abbrev ended : Ingester ℕ
ended = (run_ingester ingestion runs fresh).0

abbrev totals : IngestLoopStats
totals = no_totals (run_ingester ingestion runs fresh).1

runs_end : run_ingester ingestion runs fresh ≡ (ended, ok totals)
unfolding run_ingester future_record text_of tally strokes repeat to_hex
runs_end = refl

-- The storing of a record fails, and the commit behind the next record of its partition covers it.
abbrev failing : IngestRun ℕ
failing = record (run_of arrived) { begin_fault = some SqlxFailure.driver }

abbrev later : KafkaRecord
later = record (stray 8) { topic = "orders" }

abbrev overtaken : Ingester ℕ
overtaken = (run_ingester ingestion (failing ∷ run_of later ∷ []) fresh).0

overtaken_commits : overtaken.commits ≡ behind later ∷ []
unfolding run_ingester future_record text_of tally strokes repeat to_hex
overtaken_commits = refl

overtaken_received : overtaken.received ≡ []
unfolding run_ingester future_record text_of tally strokes repeat to_hex
overtaken_received = refl

loop_totals_example : IsTally 0 ended totals
loop_totals_example =
    loop_totals ingestion runs fresh ended totals (shared arrived, (shared (stray 8), tt)) runs_end
