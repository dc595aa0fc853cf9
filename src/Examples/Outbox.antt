-- ===== src/Examples/Outbox.antt =====
-- Two states of one order are enqueued, claimed and published.
use kafkaman.Base.{ℕ, ◌+◌, refl, false, true, none, some, [], arith, ◌∷◌, ◌≡◌}
use kafkaman.Base.Table.{find_where}
use kafkaman.Failure.{driver, ok}
use kafkaman.Outbox.Enqueue.{
  returned, MessageDescriptor, Envelope, Session, Prepared, enqueue_inner,
}
use kafkaman.Outbox.Claim.{claim_rows, is_candidate}
use kafkaman.Outbox.Mark.{mark_published, holds_claim}
use kafkaman.Core.Status.{OutboxStatus}
use mathlib.Core.List.{Memᴰ}
use kafkaman.Outbox.Order.Progress.{claim_progresses}
use kafkaman.Outbox.Enqueue.{new_row}
use kafkaman.Outbox.{OutboxRow}
use kafkaman.Outbox.Order.{IsOrdered}
use kafkaman.Outbox.Order.System.{
  System, logged, enqueue, claim, publish, Reach, here, next, start, IsAscending,
}
use kafkaman.Outbox.Order.Traces.{publication_order, reachable-IsOrdered}

abbrev pub session : ℕ → Session ℕ
session n = record {
  now = n;
  next_order = n;
  trace = none;
  visible = λ r. true;
  fault = none;
  unique = driver;
}

abbrev pub descriptor : MessageDescriptor
descriptor = record { message_type = "order"; topic = "orders" }

abbrev pub envelope : ℕ → Envelope ℕ
envelope n = record {
  message_id = n;
  idempotency_key = some (record { key = "k"; source = none });
  correlation_id = 7;
  causation_id = none;
  headers = [];
  payload = record {
    partition_key = returned (some "order-1");
    entity_key = returned "order-1";
    serialize = returned (ok n);
  };
  occurred_at = n;
}

abbrev pub enqueued : ℕ → System ℕ → System ℕ
enqueued n s = record s {
  rows = (enqueue_inner (session n) "order" (some descriptor) (envelope n) s.rows).0;
  next_order = s.next_order + 1;
}

abbrev claimed : ℕ → System ℕ → System ℕ
claimed n s = record s { rows = claim_rows 9 10 (λ r. false) 30 n "worker" s.rows }

abbrev published : ℕ → System ℕ → System ℕ
published n s = record s {
  rows = (mark_published 9 n n s.rows).0;
  log = logged (find_where (holds_claim n n) s.rows) s.log;
}

abbrev first_done : System ℕ
first_done = published 0 (claimed 0 (enqueued 0 start))

abbrev both_done : System ℕ
both_done = published 1 (claimed 1 (enqueued 1 first_done))

first_run : Reach start first_done
first_run =
    next
      (next (next here (enqueue start (session 0) "order" (some descriptor) (envelope 0) refl))
        (claim _ 9 10 (λ r. false) 30 0 "worker"))
      (publish _ 9 0 0)

both_run : Reach start both_done
both_run =
    next
      (next (next first_run (enqueue _ (session 1) "order" (some descriptor) (envelope 1) refl))
        (claim _ 9 10 (λ r. false) 30 1 "worker"))
      (publish _ 9 1 1)

publication_order_example : IsAscending both_done.log
publication_order_example = publication_order {t = both_done} both_run

reachable-IsOrdered_example : IsOrdered both_done.rows
reachable-IsOrdered_example = reachable-IsOrdered {t = both_done} both_run

abbrev prepared : Prepared ℕ
prepared = record {
  partition_key = some "order-1";
  entity_key = "order-1";
  headers = [];
  payload = 0;
}

abbrev waiting : OutboxRow ℕ
waiting = new_row descriptor (envelope 0) prepared (session 0) OutboxStatus.pending none

waiting_due : is_candidate 9 (waiting ∷ []) waiting ≡ true
unfolding is_candidate new_row
waiting_due = refl

claim_progresses_example :
    (t : OutboxRow ℕ) × Memᴰ t (claim_rows 9 10 (λ r. false) 30 4 "worker" (waiting ∷ []))
    × (t.status ≡ OutboxStatus.publishing)
    × (t.claim_id ≡ some 4)
claim_progresses_example =
    claim_progresses 9 10 (λ r. false) 30 4 "worker" (waiting ∷ []) waiting (Memᴰ.head refl)
      waiting_due refl (omega arith)
