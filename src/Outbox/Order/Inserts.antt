-- ===== src/Outbox/Order/Inserts.antt =====
-- Enqueueing keeps the order of the outbox.
use mathlib.Core.List.{Memᴰ}
use kafkaman.Base.{
  ℕ, ◌+◌, refl, ◌<◌, ◌≡◌, ◌≢◌, Bool, false, List, [], ◌∷◌, ◌++◌, ◌⊎◌, inl, inr, arith, String,
  Option, none, some, sym, ◌∙◌, ◌==◌, if◌then◌else◌,
}
use kafkaman.Base.Table.{update_where-mem, exists_where, not-exists_where, append-mem, Memᴰ-cases}
use kafkaman.Core.Status.{OutboxStatus}
use kafkaman.Failure.{Result, ok, err}
use kafkaman.Outbox.{OutboxRow}
use kafkaman.Outbox.Enqueue.{
  new_row, is_pending_of, to_overtaken, supersede_pending_outbox_rows, Session, Envelope,
  MessageDescriptor, Prepared, prepare, after_prepare, enqueue_inner,
}
use kafkaman.Outbox.Stored.{
  Stored, unchanged, audited, queued, audit_row, pending_row, store-Stored,
}
use kafkaman.Outbox.Order.{IsOrdered}
use kafkaman.Outbox.Order.Image.{IsOrdered-image}

-- Every ordinal of the table is below the sequence.
abbrev pub IsBelow : {Json : Type 0} → ℕ → List (OutboxRow Json) → Type 0
IsBelow {Json} next rows = (r : OutboxRow Json) → Memᴰ r rows → r.enqueue_order < next

module _ {Json : Type 0} {rows : List (OutboxRow Json)} (i : IsOrdered rows) where
  pub supersede-IsOrdered :
      (visible : OutboxRow Json → Bool) (key : String)
      → IsOrdered (supersede_pending_outbox_rows visible key rows)
  unfolding supersede_pending_outbox_rows
  supersede-IsOrdered visible key =
      IsOrdered-image i (λ r. if is_pending_of visible key r then to_overtaken r else r)
        (record { id = λ r. ground arith; ordinal = λ r. ground arith; entity = λ r. ground arith })
        (λ r' mr. update_where-mem (is_pending_of visible key) to_overtaken rows mr)
        (λ r s mr ms e a b. ground (arith, i.one_in_flight r s mr ms))
        (λ r s mr ms e a b. ground (arith, i.in_flight_first r s mr ms))
        (λ r s mr ms e a b. ground (arith, i.published_first r s mr ms))

  -- A row behind the others, in no state but `Pending` or `Failed`, and with a new id.
  append-IsOrdered :
      (n : OutboxRow Json)
      → IsBelow n.enqueue_order rows
      → exists_where (λ s. s.message_id == n.message_id) rows ≡ false
      → (n.status ≡ OutboxStatus.pending) ⊎ (n.status ≡ OutboxStatus.failed)
      → IsOrdered (rows ++ n ∷ [])
  append-IsOrdered n below fresh state = record {
    one_row = λ r s mr ms e. elim (last mr) [
      | inl a ↦ elim (last ms) [
        | inl b ↦ i.one_row r s a b e
        | inr q ↦ absurd (ground (arith, new_id r a))
      ]
      | inr p ↦ elim (last ms) [ inl b ↦ absurd (ground (arith, new_id s b)) | inr q ↦ p ∙ sym q ]
    ];
    one_ordinal = λ r s mr ms e. elim (last mr) [
      | inl a ↦ elim (last ms) [
        | inl b ↦ i.one_ordinal r s a b e
        | inr q ↦ absurd (ground (arith, below r a))
      ]
      | inr p ↦ elim (last ms) [ inl b ↦ absurd (ground (arith, below s b)) | inr q ↦ p ∙ sym q ]
    ];
    one_in_flight = λ r s mr ms e a b. elim (last mr) [
      | inl c ↦ elim (last ms) [ inl d ↦ i.one_in_flight r s c d e a b | inr q ↦ ground arith ]
      | inr p ↦ ground arith
    ];
    in_flight_first = λ r s mr ms e a b. elim (last mr) [
      | inl c ↦ elim (last ms) [
        | inl d ↦ i.in_flight_first r s c d e a b
        | inr q ↦ ground (arith, below r c)
      ]
      | inr p ↦ ground arith
    ];
    published_first = λ r s mr ms e a b. elim (last mr) [
      | inl c ↦ elim (last ms) [
        | inl d ↦ i.published_first r s c d e a b
        | inr q ↦ ground (arith, below r c)
      ]
      | inr p ↦ ground arith
    ];
  }
    where
      new_id : (r : OutboxRow Json) → Memᴰ r rows → r.message_id ≢ n.message_id
      new_id r m e = ground (arith, not-exists_where (λ s. s.message_id == n.message_id) m fresh)

      last : {r : OutboxRow Json} → Memᴰ r (rows ++ n ∷ []) → Memᴰ r rows ⊎ (r ≡ n)
      last m = elim (append-mem rows (n ∷ []) m) [
        | inl a ↦ inl a
        | inr b ↦ elim (Memᴰ-cases b) [ inl q ↦ inr q | inr k ↦ elim k [ ] ]
      ]

module _ {Json : Type 0} where
  supersede-IsBelow :
      (next : ℕ) (visible : OutboxRow Json → Bool) (key : String) (rows : List (OutboxRow Json))
      → IsBelow next rows
      → IsBelow next (supersede_pending_outbox_rows visible key rows)
  unfolding supersede_pending_outbox_rows
  supersede-IsBelow next visible key rows below r m =
      let (s, ms, q) = update_where-mem (is_pending_of visible key) to_overtaken rows m in
      ground (arith, below s ms)

  append-IsBelow :
      (n : OutboxRow Json) (rows : List (OutboxRow Json))
      → IsBelow n.enqueue_order rows
      → IsBelow (n.enqueue_order + 1) (rows ++ n ∷ [])
  append-IsBelow n rows below r m = elim (append-mem rows (n ∷ []) m) [
    | inl a ↦ omega (arith, below r a)
    | inr b ↦ elim (Memᴰ-cases b) [ inl q ↦ ground arith | inr k ↦ elim k [ ] ]
  ]

module _ {Json : Type 0} (session : Session Json) (d : MessageDescriptor) (evt : Envelope Json)
    (p : Prepared Json) {rows : List (OutboxRow Json)} (i : IsOrdered rows)
    (below : IsBelow session.next_order rows) where
  Stored-IsOrdered :
      {out : List (OutboxRow Json) × Result (Unit {0})}
      → Stored session d evt p rows out
      → IsOrdered out.0
  unfolding new_row
  Stored-IsOrdered (unchanged e) = i
  Stored-IsOrdered (audited fresh absent) = append-IsOrdered i _ below fresh (inr refl)
  Stored-IsOrdered (queued fresh) =
      append-IsOrdered (supersede-IsOrdered i session.visible p.entity_key) _
        (supersede-IsBelow session.next_order session.visible p.entity_key rows below) fresh
        (inl refl)

  Stored-IsBelow :
      {out : List (OutboxRow Json) × Result (Unit {0})}
      → Stored session d evt p rows out
      → IsBelow (session.next_order + 1) out.0
  unfolding new_row
  Stored-IsBelow (unchanged e) = λ r m. omega (arith, below r m)
  Stored-IsBelow (audited fresh absent) = append-IsBelow (audit_row session d evt p) rows below
  Stored-IsBelow (queued fresh) =
      append-IsBelow (pending_row session d evt p) _
        (supersede-IsBelow session.next_order session.visible p.entity_key rows below)

module _ {Json : Type 0} (session : Session Json) (message_type : String)
    (d : Option MessageDescriptor) (evt : Envelope Json) {rows : List (OutboxRow Json)}
    (i : IsOrdered rows) (below : IsBelow session.next_order rows) where
  -- An enqueue keeps the order of the outbox, whatever its snapshot shows and however it ends, and
  -- leaves each ordinal below the next value of the sequence.
  pub enqueue_inner-IsOrdered :
      IsOrdered (enqueue_inner session message_type d evt rows).0
      × IsBelow (session.next_order + 1) (enqueue_inner session message_type d evt rows).0
  unfolding enqueue_inner
  enqueue_inner-IsOrdered = go d
    where
      unchanged_below : IsBelow (session.next_order + 1) rows
      unchanged_below r m = omega (arith, below r m)

      after :
          (d : MessageDescriptor) (r : Result (Prepared Json))
          → IsOrdered (after_prepare session d evt rows r).0
            × IsBelow (session.next_order + 1) (after_prepare session d evt rows r).0
      after d (err e) = (i, unchanged_below)
      after d (ok p) =
          let stored = store-Stored session d evt p rows in
          (
            Stored-IsOrdered session d evt p i below stored,
            Stored-IsBelow session d evt p i below stored,
          )

      go :
          (d : Option MessageDescriptor)
          → IsOrdered (enqueue_inner session message_type d evt rows).0
            × IsBelow (session.next_order + 1) (enqueue_inner session message_type d evt rows).0
      go none = (i, unchanged_below)
      go (some d) = after d (prepare d evt)
