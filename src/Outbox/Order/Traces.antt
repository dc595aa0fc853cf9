-- ===== src/Outbox/Order/Traces.antt =====
-- Every step keeps the system sound: the order of publications under any interleaving.
use kafkaman.Base.{ℕ, ◌+◌, ◌≡◌, ◌∙◌, refl, inl, inr, arith, String, Option, if◌then◌else◌}
use kafkaman.Base.Table.{update_where-mem}
use kafkaman.Outbox.Enqueue.{Session, Envelope, MessageDescriptor, enqueue_inner}
use kafkaman.Outbox.Claim.{stale_behind, to_superseded, collapse_stale_pending_rows}
use kafkaman.Outbox.Mark.{holds_claim, to_retry, mark_publish_failed}
use kafkaman.Outbox.Order.{IsOrdered}
use kafkaman.Outbox.Order.Marks.{holds_claim-publishing, mark_publish_failed-IsOrdered}
use kafkaman.Outbox.Order.Candidates.{stale_behind-IsOrdered}
use kafkaman.Outbox.Order.Claims.{
  claimed_row, claimed_row-KeepsIdentity, claim_rows-mem, claimed_row-IsActive,
  claim_rows-IsOrdered,
}
use kafkaman.Outbox.Order.Inserts.{IsBelow, enqueue_inner-IsOrdered}
use kafkaman.Outbox.Order.Deletes.{delete-IsOrdered, purge-mem}
use kafkaman.Outbox.Order.Origins.{enqueue-Descends}
use kafkaman.Outbox.Order.System.{
  System, Step, enqueue, collapse, claim, publish, fail, purge, Reach, here, next, start,
  IsAscending, IsSound,
}
use kafkaman.Outbox.Order.Sound.{
  IsBehind-Descends, IsBehind-below, log-weaken, IsSound-update, IsSound-image, published-IsSound,
}

module _ {Json : Type 0} where
  enqueue-IsSound :
      {s : System Json}
      → IsSound s
      → (session : Session Json) (message_type : String) (d : Option MessageDescriptor)
        (evt : Envelope Json)
      → session.next_order ≡ s.next_order
      → IsSound (record s {
        rows = (enqueue_inner session message_type d evt s.rows).0;
        next_order = s.next_order + 1;
      })
  enqueue-IsSound {s} h session message_type d evt e =
      let below : IsBelow session.next_order s.rows = λ r m. ground (arith, h.below r m) in
      let kept = enqueue_inner-IsOrdered session message_type d evt h.ordered below in
      record {
        ordered = kept.0;
        below = λ r m. ground (arith, kept.1 r m);
        log_below = log-weaken s.log s.next_order h.log_below;
        behind = λ r m a. elim (enqueue-Descends session message_type d evt s.rows r m a) [
          | inl (old, mo, ao, k, o) ↦ IsBehind-Descends s.log r old k o (h.behind old mo ao)
          | inr new ↦ IsBehind-below s.log s.next_order r (new ∙ e) h.log_below
        ];
        ascending = h.ascending;
      }

  collapse-IsSound :
      {s : System Json}
      → IsSound s
      → (now limit : ℕ) → IsSound (record s { rows = collapse_stale_pending_rows now limit s.rows })
  unfolding collapse_stale_pending_rows
  collapse-IsSound {s} h now limit =
      IsSound-image h (λ r. if stale_behind _ r then to_superseded r else r)
        (record { id = λ r. ground arith; ordinal = λ r. ground arith; entity = λ r. ground arith })
        (λ r' m. update_where-mem (stale_behind _) to_superseded s.rows m) (λ r m a. ground arith)
        (stale_behind-IsOrdered h.ordered _)

  fail-IsSound :
      {s : System Json}
      → IsSound s
      → (now m c : ℕ) (error : String) (retry_after : ℕ)
      → IsSound (record s { rows = (mark_publish_failed now m c error retry_after s.rows).0 })
  unfolding mark_publish_failed
  fail-IsSound {s} h now m c error retry_after =
      IsSound-image h (λ r. if holds_claim m c r then to_retry now error retry_after r else r)
        (record { id = λ r. ground arith; ordinal = λ r. ground arith; entity = λ r. ground arith })
        (λ r' k. update_where-mem (holds_claim m c) (to_retry now error retry_after) s.rows k)
        (λ r k a. ground (arith, holds_claim-publishing m c r))
        (mark_publish_failed-IsOrdered now m c h.ordered error retry_after)

  -- Every statement of every session keeps the outbox and its log sound.
  pub Step-IsSound : {s t : System Json} → Step s t → IsSound s → IsSound t
  Step-IsSound (enqueue s session message_type d evt e) h =
      enqueue-IsSound h session message_type d evt e
  Step-IsSound (collapse s now limit) h = collapse-IsSound h now limit
  Step-IsSound (claim s now limit locked lease_for claim_id worker_id) h =
      let i = h.ordered in
      IsSound-image h (claimed_row now limit locked lease_for claim_id worker_id i)
        (claimed_row-KeepsIdentity now limit locked lease_for claim_id worker_id i)
        (claim_rows-mem now limit locked lease_for claim_id worker_id i)
        (claimed_row-IsActive now limit locked lease_for claim_id worker_id i)
        (claim_rows-IsOrdered now limit locked lease_for claim_id worker_id i)
  Step-IsSound (publish s now m c) h = published-IsSound h now m c _ refl
  Step-IsSound (fail s now m c error retry_after) h = fail-IsSound h now m c error retry_after
  Step-IsSound (purge s now cfg locked e) h =
      let old = purge-mem now cfg locked e in
      IsSound-update h (delete-IsOrdered h.ordered old) (λ r m. h.below r (old r m))
        (λ r m a. (r, old r m, a, refl, refl))

  start-IsSound : IsSound (start {Json = Json})
  start-IsSound = record {
    ordered = record {
      one_row = λ r s m k. elim m [ ];
      one_ordinal = λ r s m k. elim m [ ];
      one_in_flight = λ r s m k. elim m [ ];
      in_flight_first = λ r s m k. elim m [ ];
      published_first = λ r s m k. elim m [ ];
    };
    below = λ r m. elim m [ ];
    log_below = tt;
    behind = λ r m. elim m [ ];
    ascending = tt;
  }

  pub Reach-IsSound : {s t : System Json} → Reach s t → IsSound s → IsSound t
  Reach-IsSound here h = h
  Reach-IsSound (next r step) h = Step-IsSound step (Reach-IsSound r h)

  -- From an empty outbox, under any interleaving of enqueues, claims, marks and purges by any number
  -- of sessions: the rows of one entity are marked published in strictly ascending enqueue order.
  pub publication_order : {t : System Json} → Reach start t → IsAscending t.log
  publication_order r = (Reach-IsSound r start-IsSound).ascending

  -- In every reachable state at most one row of an entity is in flight, and what is published of an
  -- entity is older than all that is still pending or in flight.
  pub reachable-IsOrdered : {t : System Json} → Reach start t → IsOrdered t.rows
  reachable-IsOrdered r = (Reach-IsSound r start-IsSound).ordered
