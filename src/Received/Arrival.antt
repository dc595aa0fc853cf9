-- ===== src/Received/Arrival.antt =====
-- A stored message waits for the dispatcher: received_storage.rs with received_rows.rs.
use kafkaman.Base.{ℕ, ◌<◌, List, [], ◌∷◌, ◌++◌, refl, inl, inr, arith, subst, sym}
use kafkaman.Base.Table.{append-mem, Memᴰ-cases}
use kafkaman.Failure.{Result, ok, err}
use kafkaman.Outbox.Enqueue.{MessageDescriptor, Envelope}
use kafkaman.Received.{ReceivedRow, RetryPolicy}
use kafkaman.Received.Recording.{IsBudgeted, IsBudgetedTable}
use kafkaman.Received.Storage.{
  ReceivedInsertOutcome, Insertion, Source, Decoded, decode, received_row, after_decode,
  insert_received_with_outcome,
}
use kafkaman.Received.Dedup.{
  Inserting, insert_row-Inserting, failed, added, repeated, clashing, vanished, unread,
}

module _ {Json : Type 0} (policy : RetryPolicy) (some_attempt : 0 < policy.max_attempts) where
  received_row-IsBudgeted :
      (d : MessageDescriptor) (evt : Envelope Json) (p : Decoded Json) (source : Source) (now : ℕ)
      → IsBudgeted policy (received_row d evt p source now)
  unfolding received_row
  received_row-IsBudgeted d evt p source now = record {
    count = 0;
    attempts = refl;
    within = omega arith;
    left = λ h. some_attempt;
    scheduled = λ h. absurd (cc h);
    settled = λ h. refl;
    history = omega arith;
  }

  append-IsBudgetedTable :
      (r : ReceivedRow Json) (rows : List (ReceivedRow Json))
      → IsBudgeted policy r
      → IsBudgetedTable policy rows
      → IsBudgetedTable policy (rows ++ r ∷ [])
  append-IsBudgetedTable r rows b t s m = elim (append-mem rows (r ∷ []) m) [
    | inl k ↦ t s k
    | inr k ↦ elim (Memᴰ-cases k) [
      | inl q ↦ subst (IsBudgeted policy) (sym q) b
      | inr k ↦ elim k [ ]
    ]
  ]

  Inserting-IsBudgetedTable :
      (tx : Insertion Json) (d : MessageDescriptor) (evt : Envelope Json) (p : Decoded Json)
      (source : Source) (rows : List (ReceivedRow Json))
      {q : List (ReceivedRow Json) × Result ReceivedInsertOutcome}
      → IsBudgetedTable policy rows
      → IsBudgetedTable policy (tx.seen rows)
      → Inserting tx (received_row d evt p source tx.now) rows q
      → IsBudgetedTable policy q.0
  Inserting-IsBudgetedTable tx d evt p source rows b s (failed e q) = b
  Inserting-IsBudgetedTable tx d evt p source rows b s (added n) =
      append-IsBudgetedTable (received_row d evt p source tx.now) rows
        (received_row-IsBudgeted d evt p source tx.now) b
  Inserting-IsBudgetedTable tx d evt p source rows b s (repeated h) = s
  Inserting-IsBudgetedTable tx d evt p source rows b s (clashing h i) = s
  Inserting-IsBudgetedTable tx d evt p source rows b s (vanished c n) = s
  Inserting-IsBudgetedTable tx d evt p source rows b s (unread e q) = s

  -- Under a policy that allows an attempt, storing a message keeps every row of the table within its
  -- retry budget, if the commits of other sessions do.
  pub insert-IsBudgetedTable :
      (tx : Insertion Json) (table : Result MessageDescriptor) (evt : Envelope Json)
      (source : Source) (rows : List (ReceivedRow Json))
      → IsBudgetedTable policy rows
      → IsBudgetedTable policy (tx.seen rows)
      → IsBudgetedTable policy (insert_received_with_outcome tx table evt source rows).0
  unfolding insert_received_with_outcome
  insert-IsBudgetedTable tx (err e) evt source rows b s = b
  insert-IsBudgetedTable tx (ok d) evt source rows b s = settle (decode d evt)
    where
      settle :
          (r : Result (Decoded Json))
          → IsBudgetedTable policy (after_decode tx d evt source rows r).0
      settle (err e) = b
      settle (ok p) =
          Inserting-IsBudgetedTable tx d evt p source rows b s
            (insert_row-Inserting tx (received_row d evt p source tx.now) rows)
