-- ===== src/Outbox/Order/Origins.antt =====
-- Where the rows that an enqueue leaves come from.
use mathlib.Core.List.{Memᴰ}
use kafkaman.Base.{
  refl, ◌≡◌, List, [], ◌∷◌, ◌++◌, ◌⊎◌, inl, inr, arith, String, Option, none, some, ap,
  if◌then◌else◌,
}
use kafkaman.Base.Table.{update_where-mem, append-mem, Memᴰ-cases}
use kafkaman.Failure.{Result, ok, err}
use kafkaman.Outbox.{OutboxRow}
use kafkaman.Outbox.Enqueue.{
  new_row, is_pending_of, to_overtaken, supersede_pending_outbox_rows, Session, Envelope,
  MessageDescriptor, Prepared, prepare, after_prepare, enqueue_inner,
}
use kafkaman.Outbox.Stored.{Stored, unchanged, audited, queued, store-Stored}
use kafkaman.Outbox.Order.{IsActive}
use kafkaman.Outbox.Order.Image.{Descends, Descends-image}

module _ {Json : Type 0} (session : Session Json) (message_type : String)
    (d : Option MessageDescriptor) (evt : Envelope Json) (rows : List (OutboxRow Json)) where
  last_or_old :
      (xs : List (OutboxRow Json)) (n r : OutboxRow Json)
      → Memᴰ r (xs ++ n ∷ [])
      → Memᴰ r xs ⊎ (r ≡ n)
  last_or_old xs n r m = elim (append-mem xs (n ∷ []) m) [
    | inl a ↦ inl a
    | inr b ↦ elim (Memᴰ-cases b) [ inl q ↦ inr q | inr k ↦ elim k [ ] ]
  ]

  overtaken-Descends :
      (key : String) (r : OutboxRow Json)
      → Memᴰ r (supersede_pending_outbox_rows session.visible key rows)
      → IsActive r
      → Descends rows r
  unfolding supersede_pending_outbox_rows
  overtaken-Descends key =
      Descends-image (λ r. if is_pending_of session.visible key r then to_overtaken r else r)
        (record { id = λ r. ground arith; ordinal = λ r. ground arith; entity = λ r. ground arith })
        (λ r' mr. update_where-mem (is_pending_of session.visible key) to_overtaken rows mr)
        (λ r mr a. ground arith)

  Stored-Descends :
      {d : MessageDescriptor} {p : Prepared Json} {out : List (OutboxRow Json) × Result (Unit {0})}
      → Stored session d evt p rows out
      → (r : OutboxRow Json) → Memᴰ r out.0
      → IsActive r
      → Descends rows r ⊎ (r.enqueue_order ≡ session.next_order)
  unfolding new_row
  Stored-Descends (unchanged e) r m a = inl (r, m, a, refl, refl)
  Stored-Descends (audited fresh absent) r m a = elim (last_or_old rows _ r m) [
    | inl k ↦ inl (r, k, a, refl, refl)
    | inr q ↦ inr (ap (λ x. x.enqueue_order) q)
  ]
  Stored-Descends {p} (queued fresh) r m a = elim (last_or_old _ _ r m) [
    | inl k ↦ inl (overtaken-Descends p.entity_key r k a)
    | inr q ↦ inr (ap (λ x. x.enqueue_order) q)
  ]

  pub enqueue-Descends :
      (r : OutboxRow Json)
      → Memᴰ r (enqueue_inner session message_type d evt rows).0
      → IsActive r
      → Descends rows r ⊎ (r.enqueue_order ≡ session.next_order)
  unfolding enqueue_inner
  enqueue-Descends = go d
    where
      after :
          (d : MessageDescriptor) (o : Result (Prepared Json)) (r : OutboxRow Json)
          → Memᴰ r (after_prepare session d evt rows o).0
          → IsActive r
          → Descends rows r ⊎ (r.enqueue_order ≡ session.next_order)
      after d (err e) r m a = inl (r, m, a, refl, refl)
      after d (ok p) r m a = Stored-Descends (store-Stored session d evt p rows) r m a

      go :
          (d : Option MessageDescriptor) (r : OutboxRow Json)
          → Memᴰ r (enqueue_inner session message_type d evt rows).0
          → IsActive r
          → Descends rows r ⊎ (r.enqueue_order ≡ session.next_order)
      go none r m a = inl (r, m, a, refl, refl)
      go (some d) r m a = after d (prepare d evt) r m a
