-- ===== src/Examples/Storage.antt =====
-- A message is stored, and delivered again.
use kafkaman.Base.{ℕ, none, some, List, [], ◌∷◌, ◌≡◌, refl, arith}
use kafkaman.Base.Int.{pos}
use kafkaman.Failure.{ok}
use kafkaman.Outbox.Enqueue.{returned, MessageDescriptor, Envelope}
use kafkaman.Received.{ReceivedRow}
use kafkaman.Received.Recording.{IsBudgetedTable}
use kafkaman.Received.Rows.{mark_received_processed}
use kafkaman.Received.Storage.{
  ReceivedInsertOutcome, Insertion, Source, Decoded, decode, received_row,
  insert_received_with_outcome,
}
use kafkaman.Received.Once.{IsQuiet, Keeps, Stores, IsKeyed, insert_outcome, insert-IsKeyed}
use kafkaman.Received.Redelivery.{redelivery_absorbed, mark-Keeps}
use kafkaman.Received.Arrival.{insert-IsBudgetedTable}
use kafkaman.Examples.{three_attempts}

abbrev descriptor : MessageDescriptor
descriptor = record { message_type = "order"; topic = "orders" }

abbrev envelope : ℕ → Envelope ℕ
envelope n = record {
  message_id = n;
  idempotency_key = some (record { key = "ab"; source = none });
  correlation_id = 7;
  causation_id = none;
  headers = ("tenant", "a") ∷ [];
  payload = record {
    partition_key = returned none;
    entity_key = returned "order-1";
    serialize = returned (ok 3);
  };
  occurred_at = n;
}

abbrev source : ℕ → Source
source n = record { partition = pos 0; offset = pos n; key = none; trace = none }

abbrev quiet : ℕ → Insertion ℕ
quiet n = record { now = n; insert_fault = none; select_fault = none; seen = λ rows. rows }

quiet-IsQuiet : (n : ℕ) → IsQuiet (quiet n)
quiet-IsQuiet n = record { inserts = refl; selects = refl; alone = λ rows. refl }

quiet-Keeps : (n : ℕ) → Keeps (quiet n).seen
quiet-Keeps n = record { keys = λ key rows k. k; ids = λ id rows k. k }

abbrev decoded : Decoded ℕ
decoded = record {
  identity = record { key = "ab"; source = none };
  payload = 3;
  entity_key = "order-1";
}

envelope-decoded : (n : ℕ) → decode descriptor (envelope n) ≡ ok decoded
unfolding decode
envelope-decoded n = refl

insert_outcome_example :
    Stores
      (received_row descriptor (envelope 1) decoded (source 4) 9)
      []
      (insert_received_with_outcome (quiet 9) (ok descriptor) (envelope 1) (source 4) [])
insert_outcome_example =
    insert_outcome (quiet 9) descriptor (envelope 1) decoded (source 4) [] (quiet-IsQuiet 9)
      (envelope-decoded 1)

insert-IsKeyed_example :
    IsKeyed (insert_received_with_outcome (quiet 9) (ok descriptor) (envelope 1) (source 4) []).0
insert-IsKeyed_example = insert-IsKeyed (quiet 9) (ok descriptor) (envelope 1) (source 4) [] tt tt

abbrev stored : List (ReceivedRow ℕ)
stored = received_row descriptor (envelope 1) decoded (source 4) 9 ∷ []

first_stored :
    insert_received_with_outcome (quiet 9) (ok descriptor) (envelope 1) (source 4) []
    ≡ (stored, ok ReceivedInsertOutcome.inserted)
unfolding insert_received_with_outcome
first_stored = refl

redelivery_absorbed_example :
    insert_received_with_outcome
      (quiet 12)
      (ok descriptor)
      (envelope 2)
      (source 5)
      (mark_received_processed 1 10 stored).0
    ≡ ((mark_received_processed 1 10 stored).0, ok ReceivedInsertOutcome.duplicate_idempotency_key)
redelivery_absorbed_example =
    redelivery_absorbed (quiet 9) (quiet 12) descriptor (envelope 1) (envelope 2) decoded (source 4)
      (source 5) (λ rows. (mark_received_processed 1 10 rows).0) [] stored
      ReceivedInsertOutcome.inserted (quiet-Keeps 9) (mark-Keeps 1 10) (quiet-IsQuiet 12)
      (record { headers = refl; identity = refl; payload = refl }) (envelope-decoded 1) first_stored
      refl

insert-IsBudgetedTable_example :
    IsBudgetedTable three_attempts
      (insert_received_with_outcome (quiet 9) (ok descriptor) (envelope 1) (source 4) []).0
insert-IsBudgetedTable_example =
    insert-IsBudgetedTable three_attempts (omega arith) (quiet 9) (ok descriptor) (envelope 1)
      (source 4) [] (λ r m. elim m [ ]) (λ r m. elim m [ ])
