-- ===== src/Received/Once.antt =====
-- Each message is stored once: theorems on the storage of received records, received_storage.rs.
use mathlib.Core.List.{Memᴰ}
use kafkaman.Base.{ℕ, String, none, List, [], ◌∷◌, ◌++◌, ◌≡◌, refl, sym, ap, ◌∙◌, inl, inr}
use kafkaman.Base.Table.{append-mem}
use kafkaman.Failure.{Result, ok, err}
use kafkaman.Outbox.Enqueue.{MessageDescriptor, Envelope}
use kafkaman.Received.{ReceivedRow}
use kafkaman.Received.Storage.{
  ReceivedInsertOutcome, Insertion, Source, Decoded, decode, received_row, after_decode,
  insert_received_with_outcome,
}
use kafkaman.Received.Dedup.{
  HasKey, HasId, IsNew, Inserting, insert_row-Inserting, failed, added, repeated, clashing,
  vanished, unread,
}

module _ {Json : Type 0} where
  -- No statement of the transaction fails, and no other session commits between its statements.
  pub record IsQuiet (tx : Insertion Json) : Type 0 where
    pub inserts : tx.insert_fault ≡ none
    pub selects : tx.select_fault ≡ none
    pub alone : (rows : List (ReceivedRow Json)) → tx.seen rows ≡ rows

  -- No row's id or key is lost.
  pub record Keeps (f : List (ReceivedRow Json) → List (ReceivedRow Json)) : Type 0 where
    pub keys :
        (key : String) (rows : List (ReceivedRow Json)) → HasKey key rows → HasKey key (f rows)
    pub ids : (id : ℕ) (rows : List (ReceivedRow Json)) → HasId id rows → HasId id (f rows)

  -- What storing `row` does, by the rows that are there.
  pub data Stores (row : ReceivedRow Json) (rows : List (ReceivedRow Json))
      : List (ReceivedRow Json) × Result ReceivedInsertOutcome → Type 0 where
    new_message :
        IsNew row rows → Stores row rows (rows ++ row ∷ [], ok ReceivedInsertOutcome.inserted)
    known_key :
        HasKey row.idempotency_key rows
        → Stores row rows (rows, ok ReceivedInsertOutcome.duplicate_idempotency_key)
    known_id :
        ¬ HasKey row.idempotency_key rows
        → HasId row.message_id rows
        → Stores row rows (rows, ok ReceivedInsertOutcome.message_id_conflict)

  quiet_row :
      (tx : Insertion Json) (row : ReceivedRow Json) (rows : List (ReceivedRow Json))
      {p : List (ReceivedRow Json) × Result ReceivedInsertOutcome}
      → IsQuiet tx
      → Inserting tx row rows p
      → Stores row rows p
  quiet_row tx row rows q (failed e h) = absurd (cc (q.inserts, h))
  quiet_row tx row rows q (added n) = new_message n
  quiet_row tx row rows q (repeated k) = rw (q.alone rows) (known_key (rw (q.alone rows) at k))
  quiet_row tx row rows q (clashing n k) =
      rw (q.alone rows) (known_id (rw (q.alone rows) at n) (rw (q.alone rows) at k))
  quiet_row tx row rows q (vanished c n) =
      absurd (elim (rw (sym (q.alone rows)) at c) [ inl k ↦ n.0 k | inr k ↦ n.1 k ])
  quiet_row tx row rows q (unread e h) = absurd (cc (q.selects, h))

  -- In a transaction whose statements succeed with no commit of others between them, a decoded
  -- message is stored exactly when no row has its id or its key; it is a duplicate, and the table as
  -- it was, when a row has its key; and it is a conflict, and the table as it was, when a row has its
  -- id and none its key.
  pub insert_outcome :
      (tx : Insertion Json) (d : MessageDescriptor) (evt : Envelope Json) (p : Decoded Json)
      (source : Source) (rows : List (ReceivedRow Json))
      → IsQuiet tx
      → decode d evt ≡ ok p
      → Stores
          (received_row d evt p source tx.now)
          rows
          (insert_received_with_outcome tx (ok d) evt source rows)
  unfolding insert_received_with_outcome
  insert_outcome tx d evt p source rows q h = rw h (
      quiet_row tx (received_row d evt p source tx.now) rows q
        (insert_row-Inserting tx (received_row d evt p source tx.now) rows))

  -- No two rows share an id or a key.
  abbrev pub IsKeyed : List (ReceivedRow Json) → Type 0
  IsKeyed [] = Unit
  IsKeyed (r ∷ rows) = IsNew r rows × IsKeyed rows

  IsNew-append :
      (r row : ReceivedRow Json) (rows : List (ReceivedRow Json))
      → IsNew r rows
      → IsNew row (r ∷ rows)
      → IsNew r (rows ++ row ∷ [])
  IsNew-append r row rows n fresh = (
    λ (s, m, q). elim (append-mem rows (row ∷ []) m) [
      | inl k ↦ n.0 (s, k, q)
      | inr k ↦
          fresh.0
            (r, Memᴰ.head refl, sym q ∙ ap (λ (u : ReceivedRow Json). u.idempotency_key) (last k))
    ],
    λ (s, m, q). elim (append-mem rows (row ∷ []) m) [
      | inl k ↦ n.1 (s, k, q)
      | inr k ↦
          fresh.1 (r, Memᴰ.head refl, sym q ∙ ap (λ (u : ReceivedRow Json). u.message_id) (last k))
    ],
  )
    where
      last : {s : ReceivedRow Json} → Memᴰ s (row ∷ []) → s ≡ row
      last (Memᴰ.head q) = q
      last (Memᴰ.tail m) = elim m [ ]

  IsKeyed-append :
      (row : ReceivedRow Json) (rows : List (ReceivedRow Json))
      → IsKeyed rows
      → IsNew row rows
      → IsKeyed (rows ++ row ∷ [])
  IsKeyed-append row [] k n = (n, tt)
  IsKeyed-append row (r ∷ rows) k n = (
    IsNew-append r row rows k.0 n,
    IsKeyed-append row rows k.1
        (λ (s, m, q). n.0 (s, Memᴰ.tail m, q), λ (s, m, q). n.1 (s, Memᴰ.tail m, q)),
  )

  Inserting-IsKeyed :
      (tx : Insertion Json) (row : ReceivedRow Json) (rows : List (ReceivedRow Json))
      {p : List (ReceivedRow Json) × Result ReceivedInsertOutcome}
      → IsKeyed rows
      → IsKeyed (tx.seen rows)
      → Inserting tx row rows p
      → IsKeyed p.0
  Inserting-IsKeyed tx row rows k s (failed e q) = k
  Inserting-IsKeyed tx row rows k s (added n) = IsKeyed-append row rows k n
  Inserting-IsKeyed tx row rows k s (repeated h) = s
  Inserting-IsKeyed tx row rows k s (clashing h i) = s
  Inserting-IsKeyed tx row rows k s (vanished c n) = s
  Inserting-IsKeyed tx row rows k s (unread e q) = s

  -- Whatever is stored, and however its statements end, no two rows come to share an id or a key, if
  -- the commits of other sessions keep to this.
  pub insert-IsKeyed :
      (tx : Insertion Json) (table : Result MessageDescriptor) (evt : Envelope Json)
      (source : Source) (rows : List (ReceivedRow Json))
      → IsKeyed rows
      → IsKeyed (tx.seen rows)
      → IsKeyed (insert_received_with_outcome tx table evt source rows).0
  unfolding insert_received_with_outcome
  insert-IsKeyed tx (err e) evt source rows k s = k
  insert-IsKeyed tx (ok d) evt source rows k s = settle (decode d evt)
    where
      settle : (r : Result (Decoded Json)) → IsKeyed (after_decode tx d evt source rows r).0
      settle (err e) = k
      settle (ok p) =
          Inserting-IsKeyed tx (received_row d evt p source tx.now) rows k s
            (insert_row-Inserting tx (received_row d evt p source tx.now) rows)
