-- ===== src/Outbox/Stored.antt =====
-- What an enqueue leaves in the outbox: nothing, an audit row, or the entity's one pending row.
use kafkaman.Base.{
  ◌≡◌, refl, false, List, [], ◌∷◌, ◌++◌, Option, none, some, ◌==◌, Bool-cases, inl, inr,
}
use kafkaman.Base.Table.{exists_where}
use kafkaman.Core.Status.{OutboxStatus}
use kafkaman.Failure.{SqlxError, Error, Result, ok, err, sqlx, missing_idempotency_key}
use kafkaman.Outbox.{OutboxRow}
use kafkaman.Outbox.Enqueue.{
  insert_row, new_row, supersede_pending_outbox_rows, Session, Envelope, MessageDescriptor,
  Prepared, finish, settle, Identity, store,
}

pub data InsertCases {Json : Type 0} (n : OutboxRow Json) (rows : List (OutboxRow Json))
    : Result (List (OutboxRow Json)) → Type 0 where
  inserted :
      exists_where (λ s. s.message_id == n.message_id) rows ≡ false
      → InsertCases n rows (ok (rows ++ n ∷ []))
  refused : (e : Error) → InsertCases n rows (err e)

module _ {Json : Type 0} (session : Session Json) (d : MessageDescriptor)
    (evt : Envelope Json) where
  -- The row that is inserted with the status `Failed`, to record a message with no identity.
  abbrev pub audit_row : Prepared Json → OutboxRow Json
  audit_row p = new_row d evt p session OutboxStatus.failed (some "missing idempotency identity")

  abbrev pub pending_row : Prepared Json → OutboxRow Json
  pending_row p = new_row d evt p session OutboxStatus.pending none

  abbrev superseded : Prepared Json → List (OutboxRow Json) → List (OutboxRow Json)
  superseded p rows = supersede_pending_outbox_rows session.visible p.entity_key rows

  pub data Stored (p : Prepared Json) (rows : List (OutboxRow Json))
      : List (OutboxRow Json) × Result (Unit {0}) → Type 0 where
    unchanged : (e : Error) → Stored p rows (rows, err e)
    audited :
        exists_where (λ s. s.message_id == (audit_row p).message_id) rows ≡ false
        → evt.idempotency_key ≡ none
        → Stored p rows (rows ++ audit_row p ∷ [], err missing_idempotency_key)
    queued :
        exists_where (λ s. s.message_id == (pending_row p).message_id) (superseded p rows) ≡ false
        → Stored p rows (superseded p rows ++ pending_row p ∷ [], ok tt)

module _ {Json : Type 0} where
  insert_row-InsertCases :
      (session : Session Json) (n : OutboxRow Json) (rows : List (OutboxRow Json))
      → InsertCases n rows (insert_row session.unique n rows)
  unfolding insert_row
  insert_row-InsertCases session n rows =
      elim (Bool-cases (exists_where (λ s. s.message_id == n.message_id) rows)) [
        | inl e ↦ rw e (refused (sqlx session.unique))
        | inr e ↦ rw e (inserted e)
      ]

module _ {Json : Type 0} (session : Session Json) (d : MessageDescriptor) (evt : Envelope Json)
    (p : Prepared Json) (rows : List (OutboxRow Json)) where
  finish-audited :
      {r : Result (List (OutboxRow Json))}
      → InsertCases (audit_row session d evt p) rows r
      → evt.idempotency_key ≡ none
      → Stored session d evt p rows (finish rows (err missing_idempotency_key) r)
  finish-audited (inserted fresh) h = audited fresh h
  finish-audited (refused e) h = unchanged e

  finish-queued :
      {r : Result (List (OutboxRow Json))}
      → InsertCases (pending_row session d evt p) (superseded session d evt p rows) r
      → Stored session d evt p rows (finish rows (ok tt) r)
  finish-queued (inserted fresh) = queued fresh
  finish-queued (refused e) = unchanged e

  settle-Stored :
      (given : Option (Identity Json)) (fault : Option SqlxError)
      {a q : List (OutboxRow Json) × Result (Unit {0})}
      → (given ≡ none → Stored session d evt p rows a)
      → Stored session d evt p rows q
      → Stored session d evt p rows (settle rows given fault a q)
  settle-Stored given (some e) ha hq = unchanged (sqlx e)
  settle-Stored none none ha hq = ha refl
  settle-Stored (some identity) none ha hq = hq

  -- The statements of an enqueue end in one of three ways: an error, with the table as it was; with
  -- no idempotency key, the error for that, with the audit row behind the old rows; or success, with
  -- the visible pending rows of the entity superseded and the new row, pending, behind all.
  pub store-Stored : Stored session d evt p rows (store session d evt p rows)
  unfolding store
  store-Stored =
      settle-Stored evt.idempotency_key session.fault
        (finish-audited (insert_row-InsertCases session _ _))
        (finish-queued (insert_row-InsertCases session _ _))
