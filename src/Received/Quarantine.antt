-- ===== src/Received/Quarantine.antt =====
-- The quarantine of crates/kafkaman-sqlx/src/ingest_failure.rs and received_storage.rs: the records
-- that could not become received rows.
use kafkaman.Base.{
  ℕ, String, Bool, true, false, Option, none, some, List, [], ◌∷◌, ◌++◌, ◌&&◌, str_eq,
  if◌then◌else◌,
}
use kafkaman.Base.Int.{ℤ, eqb_ℤ}
use kafkaman.Base.Table.{exists_where, find_where}
use kafkaman.Core.Problem.{ReceivedIngestFailureKind, ingest_discriminant, ingest_from_discriminant}
use kafkaman.Failure.{SqlxError, Result, ok, err, sqlx, invalid_ingest_failure_kind, ◌>>=◌}

pub record ReceivedIngestFailure : Type 0 where
  pub source_topic : String
  pub source_partition : ℤ
  pub source_offset : ℤ
  pub key : Option (List ℕ)
  pub headers : List (String × List String)
  pub payload : Option (List ℕ)
  pub message_type : String
  pub expected_topic : String
  pub kind : ReceivedIngestFailureKind
  pub error : String

-- A row of the table `received_ingest_failures`.
pub record FailureColumns : Type 0 where
  pub source_topic : String
  pub source_partition : ℤ
  pub source_offset : ℤ
  pub key : Option (List ℕ)
  pub headers : List (String × List String)
  pub payload : Option (List ℕ)
  pub message_type : String
  pub expected_topic : String
  pub failure_kind : String
  pub error : String
  pub created_at : ℕ

pub record ReceivedIngestFailureRow : Type 0 where
  pub failure : ReceivedIngestFailure
  pub created_at : ℕ

unfoldable pub columns_of : ReceivedIngestFailure → ℕ → FailureColumns
unfolding ingest_discriminant
columns_of f now = record {
  source_topic = f.source_topic;
  source_partition = f.source_partition;
  source_offset = f.source_offset;
  key = f.key;
  headers = f.headers;
  payload = f.payload;
  message_type = f.message_type;
  expected_topic = f.expected_topic;
  failure_kind = ingest_discriminant f.kind;
  error = f.error;
  created_at = now;
}

-- The primary key: topic, partition and offset.
unfoldable pub is_source : String → ℤ → ℤ → FailureColumns → Bool
is_source topic partition offset r =
    str_eq r.source_topic topic
    && eqb_ℤ r.source_partition partition
    && eqb_ℤ r.source_offset offset

-- `INSERT … ON CONFLICT (source_topic, source_partition, source_offset) DO NOTHING`.
unfoldable pub insert_received_ingest_failure :
    Option SqlxError
    → ℕ
    → ReceivedIngestFailure
    → List FailureColumns
    → List FailureColumns × Result Bool
unfolding columns_of is_source exists_where
insert_received_ingest_failure (some e) now f rows = (rows, err (sqlx e))
insert_received_ingest_failure none now f rows =
    if exists_where (is_source f.source_topic f.source_partition f.source_offset) rows
    then (rows, ok false)
    else (rows ++ columns_of f now ∷ [], ok true)

abbrev pub require_kind :
    String → Option ReceivedIngestFailureKind → Result ReceivedIngestFailureKind
require_kind text none = err (invalid_ingest_failure_kind text)
require_kind text (some kind) = ok kind

unfoldable pub received_ingest_failure_row_from_pg :
    FailureColumns → Result ReceivedIngestFailureRow
unfolding ingest_from_discriminant
received_ingest_failure_row_from_pg r = do
  kind ← require_kind r.failure_kind (ingest_from_discriminant r.failure_kind)
  ok (record {
    failure = record {
      source_topic = r.source_topic;
      source_partition = r.source_partition;
      source_offset = r.source_offset;
      key = r.key;
      headers = r.headers;
      payload = r.payload;
      message_type = r.message_type;
      expected_topic = r.expected_topic;
      kind = kind;
      error = r.error;
    };
    created_at = r.created_at;
  })

abbrev pub transpose : {A : Type 0} → Option (Result A) → Result (Option A)
transpose none = ok none
transpose (some (ok a)) = ok (some a)
transpose (some (err e)) = err e

abbrev pub read_row : Option FailureColumns → Option (Result ReceivedIngestFailureRow)
read_row none = none
read_row (some r) = some (received_ingest_failure_row_from_pg r)

unfoldable pub received_ingest_failure_by_source :
    Option SqlxError
    → String
    → ℤ
    → ℤ
    → List FailureColumns
    → Result (Option ReceivedIngestFailureRow)
unfolding is_source find_where received_ingest_failure_row_from_pg
received_ingest_failure_by_source (some e) topic partition offset rows = err (sqlx e)
received_ingest_failure_by_source none topic partition offset rows =
    transpose (read_row (find_where (is_source topic partition offset) rows))
