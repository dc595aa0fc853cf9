-- ===== src/Received/Storage.antt =====
-- crates/kafkaman-sqlx/src/received_storage.rs: storing a consumed record as a received row, once for
-- each idempotency key.
use kafkaman.Base.{
  ℕ, String, Bool, true, false, Option, none, some, List, [], ◌∷◌, ◌++◌, ◌||◌, ◌==◌, str_eq,
  if◌then◌else◌,
}
use kafkaman.Base.Int.{ℤ, pos}
use kafkaman.Base.Table.{timestamptz, exists_where, select_where}
use kafkaman.Core.Status.{ReceiveStatus}
use kafkaman.Failure.{SqlxError, Result, ok, err, sqlx, missing_idempotency_key, ◌>>=◌}
use kafkaman.Outbox.Enqueue.{
  MessageDescriptor, Envelope, Identity, unless_reserved, find_reserved_header,
  catch_application_panic,
}
use kafkaman.Received.{ReceivedRow}

pub data ReceivedInsertOutcome : Type 0 where
  inserted duplicate_idempotency_key message_id_conflict : ReceivedInsertOutcome

abbrev pub is_inserted : ReceivedInsertOutcome → Bool
is_inserted ReceivedInsertOutcome.inserted = true
is_inserted _ = false

-- Where the record was read, with its key and the trace context of the ingest.
pub record Source : Type 0 where
  pub partition : ℤ
  pub offset : ℤ
  pub key : Option (List ℕ)
  pub trace : Option (String × Option String)

-- What the insert works out of an envelope before its first statement.
pub record Decoded (Json : Type 0) : Type 0 where
  pub identity : Identity Json
  pub payload : Json
  pub entity_key : String

-- The transaction: its clock, how its statements fail, and the rows that the second statement sees
-- where it saw the first one's.
pub record Insertion (Json : Type 0) : Type 0 where
  pub now : ℕ
  pub insert_fault : Option SqlxError
  pub select_fault : Option SqlxError
  pub seen : List (ReceivedRow Json) → List (ReceivedRow Json)

module _ {Json : Type 0} where
  abbrev pub require_identity : Option (Identity Json) → Result (Identity Json)
  require_identity none = err missing_idempotency_key
  require_identity (some identity) = ok identity

  -- The reserved names, the identity, the payload and the entity key, in this order.
  unfoldable pub decode : MessageDescriptor → Envelope Json → Result (Decoded Json)
  unfolding find_reserved_header catch_application_panic
  decode d evt = unless_reserved (find_reserved_header evt.headers) (do
    identity ← require_identity evt.idempotency_key
    serialized ← catch_application_panic d.message_type "serialize payload" evt.payload.serialize
    payload ← serialized
    entity_key ← catch_application_panic d.message_type "resolve entity key" evt.payload.entity_key
    ok (record { identity = identity; payload = payload; entity_key = entity_key }))

  -- The row of `INSERT … VALUES (…, 'Pending', 0, NULL, '[]', …, 1, …)`, with the table's defaults.
  unfoldable pub received_row :
      MessageDescriptor → Envelope Json → Decoded Json → Source → ℕ → ReceivedRow Json
  received_row d evt p source now = record {
    message_id = evt.message_id;
    idempotency_key = p.identity.key;
    idempotency_source = p.identity.source;
    entity_key = some p.entity_key;
    status = ReceiveStatus.pending;
    attempts = pos 0;
    next_attempt_at = none;
    errors = [];
    source_topic = d.topic;
    source_partition = source.partition;
    source_offset = source.offset;
    key = source.key;
    message_type = d.message_type;
    message_version = pos 1;
    headers = evt.headers;
    payload = p.payload;
    correlation_id = some evt.correlation_id;
    causation_id = evt.causation_id;
    trace = source.trace;
    occurred_at = timestamptz evt.occurred_at;
    created_at = now;
    processed_at = none;
    last_failed_at = none;
    last_failure_kind = none;
  }

  -- `message_id = $1 OR idempotency_key = $2`: the primary key and the unique index of the table.
  unfoldable pub collides : ℕ → String → ReceivedRow Json → Bool
  collides message_id idempotency_key r =
      r.message_id == message_id || str_eq r.idempotency_key idempotency_key

  -- The loop over the rows: the first one with the key decides, and else any with the id.
  unfoldable pub judge_conflict :
      ℕ → String → Bool → List (ReceivedRow Json) → ReceivedInsertOutcome
  judge_conflict message_id idempotency_key saw [] =
      if saw
      then ReceivedInsertOutcome.message_id_conflict
      else ReceivedInsertOutcome.duplicate_idempotency_key
  judge_conflict message_id idempotency_key saw (r ∷ rest) =
      let later =
        judge_conflict message_id idempotency_key (saw || r.message_id == message_id) rest in
      if str_eq r.idempotency_key idempotency_key
      then ReceivedInsertOutcome.duplicate_idempotency_key
      else later

  unfoldable pub received_insert_conflict_outcome :
      Option SqlxError → ℕ → String → List (ReceivedRow Json) → Result ReceivedInsertOutcome
  unfolding collides judge_conflict select_where
  received_insert_conflict_outcome none message_id idempotency_key rows = ok (
      judge_conflict message_id idempotency_key false
        (select_where (collides message_id idempotency_key) rows))
  received_insert_conflict_outcome (some e) message_id idempotency_key rows = err (sqlx e)

  -- `INSERT … ON CONFLICT DO NOTHING`, and the classification where it inserted nothing.
  unfoldable pub insert_row :
      Insertion Json
      → ReceivedRow Json
      → List (ReceivedRow Json)
      → List (ReceivedRow Json) × Result ReceivedInsertOutcome
  unfolding collides exists_where
  insert_row tx row rows = elim tx.insert_fault [
    | some e ↦ (rows, err (sqlx e))
    | none ↦
        if exists_where (collides row.message_id row.idempotency_key) rows
        then (
          tx.seen rows,
          received_insert_conflict_outcome tx.select_fault row.message_id row.idempotency_key
              (tx.seen rows),
        )
        else (rows ++ row ∷ [], ok ReceivedInsertOutcome.inserted)
  ]

  abbrev pub after_decode :
      Insertion Json
      → MessageDescriptor
      → Envelope Json
      → Source
      → List (ReceivedRow Json)
      → Result (Decoded Json)
      → List (ReceivedRow Json) × Result ReceivedInsertOutcome
  after_decode tx d evt source rows (err e) = (rows, err e)
  after_decode tx d evt source rows (ok p) = insert_row tx (received_row d evt p source tx.now) rows

  -- `table` is what `ReceivedTable::for_message` answers: the descriptor of the message type.
  unfoldable pub insert_received_with_outcome :
      Insertion Json
      → Result MessageDescriptor
      → Envelope Json
      → Source
      → List (ReceivedRow Json)
      → List (ReceivedRow Json) × Result ReceivedInsertOutcome
  unfolding decode received_row insert_row
  insert_received_with_outcome tx (err e) evt source rows = (rows, err e)
  insert_received_with_outcome tx (ok d) evt source rows =
      after_decode tx d evt source rows (decode d evt)

  -- `insert_received`: whether the row is new.
  unfoldable pub insert_received :
      Insertion Json
      → Result MessageDescriptor
      → Envelope Json
      → Source
      → List (ReceivedRow Json)
      → List (ReceivedRow Json) × Result Bool
  unfolding insert_received_with_outcome
  insert_received tx table evt source rows =
      let (rows', outcome) = insert_received_with_outcome tx table evt source rows in
      (rows', outcome >>= (λ o. ok (is_inserted o)))
