-- ===== src/Outbox/Enqueue.antt =====
-- crates/kafkaman-sqlx/src/outbox_enqueue.rs. The row lands in the transaction of the caller; the
-- advisory lock on the entity is the atomicity of `enqueue_inner` as a step.
mod Payload
unfoldable pub use Payload.*
use Prim.Native.Char.{code}
use kafkaman.Base.{
  ℕ, ◌+◌, String, Bool, true, false, Option, none, some, List, [], ◌∷◌, ◌++◌, ◌&&◌, ◌==◌, leb,
  str_eq, if◌then◌else◌, ◌≡◌, refl,
}
use kafkaman.Base.Table.{timestamptz, update_where, exists_where}
use kafkaman.Core.Status.{OutboxStatus}
use kafkaman.Failure.{
  SqlxError, Result, ok, err, sqlx, unknown_message_type, reserved_header, application_panicked,
  missing_idempotency_key, ◌>>=◌,
}
use kafkaman.Outbox.{OutboxRow, sql_text_eq, has_status}

-- What `prepare` works out of an envelope.
pub record Prepared (Json : Type 0) : Type 0 where
  pub partition_key : Option String
  pub entity_key : String
  pub headers : List (String × String)
  pub payload : Json

-- The transaction that the row is written in: the clock, the next value of the sequence behind
-- `enqueue_order`, the rows that its snapshot shows, and how the database fails.
pub record Session (Json : Type 0) : Type 0 where
  pub now : ℕ
  pub next_order : ℕ
  pub trace : Option (String × Option String)
  pub visible : OutboxRow Json → Bool
  pub fault : Option SqlxError
  pub unique : SqlxError

abbrev pub unless_reserved {ℓ} : {A : Type ℓ} → Option String → Result A → Result A
unless_reserved none rest = rest
unless_reserved (some reserved) rest = err (reserved_header reserved)

pub unless_reserved-ok :
    {A : Type 0} (o : Option String) (r : Result A) {a : A}
    → unless_reserved o r ≡ ok a
    → (o ≡ none) × (r ≡ ok a)
unless_reserved-ok none r h = (refl, h)
unless_reserved-ok (some reserved) r h = absurd (cc h)

-- The entity key travels in a header where the partition key does not carry it.
abbrev pub row_headers : Option String → String → List (String × String) → List (String × String)
row_headers partition_key entity_key headers =
    if sql_text_eq partition_key (some entity_key)
    then headers
    else insert_header "kafkaman-entity-key" entity_key headers

module _ {Json : Type 0} where
  -- The new row: `INSERT … VALUES (…, status, 0, now(), last_error, …)`.
  unfoldable pub new_row :
      MessageDescriptor
      → Envelope Json
      → Prepared Json
      → Session Json
      → OutboxStatus
      → Option String
      → OutboxRow Json
  new_row d evt p session status last_error = record {
    message_id = evt.message_id;
    idempotency_key = elim evt.idempotency_key [ none ↦ none | some i ↦ some i.key ];
    idempotency_source = elim evt.idempotency_key [ none ↦ none | some i ↦ i.source ];
    status = status;
    attempts = 0;
    next_attempt_at = session.now;
    last_error = last_error;
    claim_id = none;
    claimed_by = none;
    claim_expires_at = none;
    topic = d.topic;
    partition_key = p.partition_key;
    entity_key = some p.entity_key;
    correlation_id = evt.correlation_id;
    causation_id = evt.causation_id;
    trace = session.trace;
    headers = p.headers;
    payload = p.payload;
    occurred_at = timestamptz evt.occurred_at;
    created_at = session.now;
    published_at = none;
    enqueue_order = session.next_order;
  }

  -- The insert is refused with `unique` where the primary key is taken.
  unfoldable pub insert_row :
      SqlxError → OutboxRow Json → List (OutboxRow Json) → Result (List (OutboxRow Json))
  unfolding exists_where
  insert_row unique r rows =
      if exists_where (λ s. s.message_id == r.message_id) rows
      then err (sqlx unique)
      else ok (rows ++ r ∷ [])

  unfoldable pub is_pending_of : (OutboxRow Json → Bool) → String → OutboxRow Json → Bool
  unfolding sql_text_eq
  is_pending_of visible entity_key r =
      visible r && (sql_text_eq r.entity_key (some entity_key) && has_status OutboxStatus.pending r)

  unfoldable pub to_overtaken : OutboxRow Json → OutboxRow Json
  to_overtaken r = record r {
    status = OutboxStatus.superseded;
    claim_id = none;
    claimed_by = none;
    claim_expires_at = none;
  }

  -- `UPDATE … SET status = 'Superseded' WHERE entity_key = $1 AND status = 'Pending'`. `visible` says
  -- which rows the snapshot of the caller's transaction shows: a fixed snapshot may miss some.
  unfoldable pub supersede_pending_outbox_rows :
      (OutboxRow Json → Bool) → String → List (OutboxRow Json) → List (OutboxRow Json)
  unfolding is_pending_of to_overtaken update_where
  supersede_pending_outbox_rows visible entity_key rows =
      update_where (is_pending_of visible entity_key) to_overtaken rows

  -- The application's code runs before any statement: the reserved names, the keys, the headers and
  -- the payload, in this order.
  unfoldable pub prepare : MessageDescriptor → Envelope Json → Result (Prepared Json)
  unfolding find_reserved_header catch_application_panic insert_header
  prepare d evt = unless_reserved (find_reserved_header evt.headers) (do
    partition_key ←
        catch_application_panic d.message_type "resolve partition key" evt.payload.partition_key
    entity_key ← catch_application_panic d.message_type "resolve entity key" evt.payload.entity_key
    serialized ← catch_application_panic d.message_type "serialize payload" evt.payload.serialize
    payload ← serialized
    ok (record {
      partition_key = partition_key;
      entity_key = entity_key;
      headers = row_headers partition_key entity_key evt.headers;
      payload = payload;
    }))

  -- The table after an insert, with the result that a successful one gives.
  abbrev pub finish :
      List (OutboxRow Json)
      → Result (Unit {0})
      → Result (List (OutboxRow Json))
      → List (OutboxRow Json) × Result (Unit {0})
  finish rows good (ok rows') = (rows', good)
  finish rows good (err e) = (rows, err e)

  -- Without an identity the audit row alone is inserted; with one, the nested transaction runs.
  abbrev pub settle :
      List (OutboxRow Json)
      → Option (Identity Json)
      → Option SqlxError
      → List (OutboxRow Json) × Result (Unit {0})
      → List (OutboxRow Json) × Result (Unit {0})
      → List (OutboxRow Json) × Result (Unit {0})
  settle rows identity (some e) audited queued = (rows, err (sqlx e))
  settle rows none none audited queued = audited
  settle rows (some identity) none audited queued = queued

  -- The statements. `fault` is a failure of the audit insert, or of the nested transaction (`BEGIN`,
  -- the lock, the supersede, the insert or `COMMIT`), which is rolled back: the table is as it was.
  -- `unique` is the error where the primary key is taken.
  unfoldable pub store :
      Session Json
      → MessageDescriptor
      → Envelope Json
      → Prepared Json
      → List (OutboxRow Json)
      → List (OutboxRow Json) × Result (Unit {0})
  unfolding new_row supersede_pending_outbox_rows
  store session d evt p rows =
      let row = new_row d evt p session in
      settle rows evt.idempotency_key session.fault
        (finish rows (err missing_idempotency_key) (
          insert_row session.unique (row OutboxStatus.failed (some "missing idempotency identity"))
            rows))
        (finish rows (ok tt) (
          insert_row session.unique (row OutboxStatus.pending none)
            (supersede_pending_outbox_rows session.visible p.entity_key rows)))

  abbrev pub after_prepare :
      Session Json
      → MessageDescriptor
      → Envelope Json
      → List (OutboxRow Json)
      → Result (Prepared Json)
      → List (OutboxRow Json) × Result (Unit {0})
  after_prepare session d evt rows (err e) = (rows, err e)
  after_prepare session d evt rows (ok p) = store session d evt p rows

  -- `enqueue_inner`: what it leaves in the table, and its result. The descriptor is what the
  -- configuration holds for the message type.
  unfoldable pub enqueue_inner :
      Session Json
      → String
      → Option MessageDescriptor
      → Envelope Json
      → List (OutboxRow Json)
      → List (OutboxRow Json) × Result (Unit {0})
  enqueue_inner session message_type none evt rows = (rows, err (unknown_message_type message_type))
  enqueue_inner session message_type (some d) evt rows =
      after_prepare session d evt rows (prepare d evt)
