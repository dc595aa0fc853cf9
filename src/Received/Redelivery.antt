-- ===== src/Received/Redelivery.antt =====
-- Redelivery of a record that was stored: received_storage.rs.
use kafkaman.Base.{ℕ, Bool, true, false, List, ◌≡◌, refl, ap, ◌∙◌, inl, inr, subst, if_elim}
use kafkaman.Base.Table.{mem-append_last, update_where, mem-update_where}
use kafkaman.Failure.{Result, ok}
use kafkaman.Outbox.Enqueue.{MessageDescriptor, Envelope}
use kafkaman.Received.{ReceivedRow, RetryPolicy}
use kafkaman.Received.Rows.{
  is_open, mark_received_processed, record_received_failure, ReceivedFailureRecord, to_processed,
  to_failed, schedule_for,
}
use kafkaman.Received.Storage.{
  ReceivedInsertOutcome, Insertion, Source, Decoded, decode, received_row,
  insert_received_with_outcome,
}
use kafkaman.Received.Once.{
  IsQuiet, Keeps, Stores, new_message, known_key, known_id, insert_outcome,
}
use kafkaman.Received.Dedup.{
  HasKey, Inserting, insert_row-Inserting, failed, added, repeated, clashing, vanished, unread,
}

abbrev pub is_absorbed : ReceivedInsertOutcome → Bool
is_absorbed ReceivedInsertOutcome.message_id_conflict = false
is_absorbed _ = true

module _ {Json : Type 0} where
  Inserting-HasKey :
      (tx : Insertion Json) (row : ReceivedRow Json) (rows : List (ReceivedRow Json))
      {rows' : List (ReceivedRow Json)} {o : ReceivedInsertOutcome}
      {p : List (ReceivedRow Json) × Result ReceivedInsertOutcome}
      → Keeps tx.seen
      → Inserting tx row rows p
      → p ≡ (rows', ok o)
      → is_absorbed o ≡ true
      → HasKey row.idempotency_key rows'
  Inserting-HasKey tx row rows keeps (failed e q) h a = absurd (cc)
  Inserting-HasKey tx row rows keeps (added n) h a =
      subst (HasKey row.idempotency_key)
        (ap (λ (p : List (ReceivedRow Json) × Result ReceivedInsertOutcome). p.0) h)
        (row, mem-append_last rows row, refl)
  Inserting-HasKey tx row rows keeps (repeated k) h a =
      subst (HasKey row.idempotency_key)
        (ap (λ (p : List (ReceivedRow Json) × Result ReceivedInsertOutcome). p.0) h) k
  Inserting-HasKey tx row rows keeps (clashing n k) h a = absurd (cc)
  Inserting-HasKey tx row rows keeps (vanished c n) h a = absurd (elim c [
    | inl k ↦ n.0 (keeps.keys row.idempotency_key rows k)
    | inr k ↦ n.1 (keeps.ids row.message_id rows k)
  ])
  Inserting-HasKey tx row rows keeps (unread e q) h a = absurd (cc)

  pub stored-HasKey :
      (tx : Insertion Json) (d : MessageDescriptor) (evt : Envelope Json) (p : Decoded Json)
      (source : Source) (rows : List (ReceivedRow Json)) {rows' : List (ReceivedRow Json)}
      {o : ReceivedInsertOutcome}
      → Keeps tx.seen
      → decode d evt ≡ ok p
      → insert_received_with_outcome tx (ok d) evt source rows ≡ (rows', ok o)
      → is_absorbed o ≡ true
      → HasKey p.identity.key rows'
  unfolding insert_received_with_outcome received_row
  stored-HasKey tx d evt p source rows keeps h e a =
      Inserting-HasKey tx (received_row d evt p source tx.now) rows keeps
        (insert_row-Inserting tx (received_row d evt p source tx.now) rows) (rw h at e) a

  known_key-Stores :
      (row : ReceivedRow Json) (rows : List (ReceivedRow Json))
      {p : List (ReceivedRow Json) × Result ReceivedInsertOutcome}
      → HasKey row.idempotency_key rows
      → Stores row rows p
      → p ≡ (rows, ok ReceivedInsertOutcome.duplicate_idempotency_key)
  known_key-Stores row rows k (new_message n) = absurd (n.0 k)
  known_key-Stores row rows k (known_key h) = refl
  known_key-Stores row rows k (known_id n h) = absurd (n k)

  -- The same record read again: ids and times that the ingest makes up may differ.
  pub record IsRedelivery (evt again : Envelope Json) : Type 0 where
    pub headers : again.headers ≡ evt.headers
    pub identity : again.idempotency_key ≡ evt.idempotency_key
    pub payload : again.payload ≡ evt.payload

  decode-IsRedelivery :
      (d : MessageDescriptor) (evt again : Envelope Json)
      → IsRedelivery evt again
      → decode d again ≡ decode d evt
  unfolding decode
  decode-IsRedelivery d evt again r = rw (r.headers, r.identity, r.payload) refl

  -- Once a message was stored, or was known, a later delivery of its record changes nothing and is
  -- reported as a duplicate, whatever statements ran in between that keep the rows' ids and keys;
  -- the later transaction succeeds with no commit of others between its statements.
  pub redelivery_absorbed :
      (tx later : Insertion Json) (d : MessageDescriptor) (evt again : Envelope Json)
      (p : Decoded Json) (source source' : Source)
      (between : List (ReceivedRow Json) → List (ReceivedRow Json))
      (rows rows' : List (ReceivedRow Json)) (o : ReceivedInsertOutcome)
      → Keeps tx.seen
      → Keeps between
      → IsQuiet later
      → IsRedelivery evt again
      → decode d evt ≡ ok p
      → insert_received_with_outcome tx (ok d) evt source rows ≡ (rows', ok o)
      → is_absorbed o ≡ true
      → insert_received_with_outcome later (ok d) again source' (between rows')
        ≡ (between rows', ok ReceivedInsertOutcome.duplicate_idempotency_key)
  unfolding received_row
  redelivery_absorbed tx later d evt again p source source' between rows rows' o keeps kept quiet
        same h e a =
      let known =
        kept.keys p.identity.key rows' (stored-HasKey tx d evt p source rows keeps h e a) in
      known_key-Stores (received_row d again p source' later.now) (between rows') known (
        insert_outcome later d again p source' (between rows') quiet
          (decode-IsRedelivery d evt again same ∙ h))

  update-Keeps :
      (p : ReceivedRow Json → Bool) (f : ReceivedRow Json → ReceivedRow Json)
      → ((r : ReceivedRow Json) → (f r).message_id ≡ r.message_id)
      → ((r : ReceivedRow Json) → (f r).idempotency_key ≡ r.idempotency_key)
      → Keeps (update_where p f)
  update-Keeps p f i k = record {
    keys = λ key rows (r, m, q). (
      _,
      mem-update_where p f m,
      if_elim (λ (s : ReceivedRow Json). s.idempotency_key ≡ key) (p r) (λ e. k r ∙ q) (λ e. q),
    );
    ids = λ id rows (r, m, q). (
      _,
      mem-update_where p f m,
      if_elim (λ (s : ReceivedRow Json). s.message_id ≡ id) (p r) (λ e. i r ∙ q) (λ e. q),
    );
  }

  pub mark-Keeps :
      (id now : ℕ)
      → Keeps (λ (rows : List (ReceivedRow Json)). (mark_received_processed id now rows).0)
  unfolding mark_received_processed to_processed
  mark-Keeps id now = update-Keeps (is_open id) (to_processed now) (λ r. refl) (λ r. refl)

  pub record-Keeps :
      (draw : ℕ → ℕ) (policy : RetryPolicy) (f : ReceivedFailureRecord)
      → Keeps (λ (rows : List (ReceivedRow Json)). (record_received_failure draw policy f rows).0)
  unfolding record_received_failure to_failed
  record-Keeps draw policy f =
      update-Keeps (is_open f.message_id) (to_failed (schedule_for draw policy f) f) (λ r. refl)
        (λ r. refl)
