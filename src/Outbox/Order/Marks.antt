-- ===== src/Outbox/Order/Marks.antt =====
-- The two marks keep the order of the outbox.
use kafkaman.Base.{ℕ, ◌≡◌, true, List, arith, String, if◌then◌else◌}
use kafkaman.Base.Table.{update_where-mem}
use kafkaman.Core.Status.{OutboxStatus}
use kafkaman.Outbox.{OutboxRow}
use kafkaman.Outbox.Mark.{holds_claim, to_published, mark_published, to_retry, mark_publish_failed}
use kafkaman.Outbox.Order.{IsOrdered}
use kafkaman.Outbox.Order.Image.{IsOrdered-image}

module _ {Json : Type 0} where
  pub holds_claim-publishing :
      (m c : ℕ) (r : OutboxRow Json)
      → holds_claim m c r ≡ true
      → (r.status ≡ OutboxStatus.publishing) × (r.message_id ≡ m)
  unfolding holds_claim
  holds_claim-publishing m c r h = ground arith

module _ {Json : Type 0} (now m c : ℕ) {rows : List (OutboxRow Json)} (i : IsOrdered rows) where
  -- A mark of a publication, by whichever worker, keeps the order of the outbox.
  pub mark_published-IsOrdered : IsOrdered (mark_published now m c rows).0
  unfolding mark_published
  mark_published-IsOrdered =
      IsOrdered-image i (λ r. if holds_claim m c r then to_published now r else r)
        (record { id = λ r. ground arith; ordinal = λ r. ground arith; entity = λ r. ground arith })
        (λ r' mr. update_where-mem (holds_claim m c) (to_published now) rows mr)
        (λ r s mr ms e a b. ground (arith, i.one_in_flight r s mr ms))
        (λ r s mr ms e a b. ground (arith, i.in_flight_first r s mr ms))
        (λ r s mr ms e a b. ground (
          arith,
          i.published_first r s mr ms,
          i.in_flight_first r s mr ms,
          i.one_in_flight r s mr ms,
          holds_claim-publishing m c r,
          holds_claim-publishing m c s,
        ))

  -- So does a mark of a failed publication.
  pub mark_publish_failed-IsOrdered :
      (error : String) (retry_after : ℕ)
      → IsOrdered (mark_publish_failed now m c error retry_after rows).0
  unfolding mark_publish_failed
  mark_publish_failed-IsOrdered error retry_after =
      IsOrdered-image i (λ r. if holds_claim m c r then to_retry now error retry_after r else r)
        (record { id = λ r. ground arith; ordinal = λ r. ground arith; entity = λ r. ground arith })
        (λ r' mr. update_where-mem (holds_claim m c) (to_retry now error retry_after) rows mr)
        (λ r s mr ms e a b. ground (arith, i.one_in_flight r s mr ms))
        (λ r s mr ms e a b. ground (
          arith,
          i.in_flight_first r s mr ms,
          i.one_in_flight r s mr ms,
          holds_claim-publishing m c r,
          holds_claim-publishing m c s,
        ))
        (λ r s mr ms e a b.
          ground (arith, i.published_first r s mr ms, holds_claim-publishing m c s))
