-- ===== src/Outbox/Mark.antt =====
-- crates/kafkaman-sqlx/src/outbox_mark.rs: what is recorded about a claimed row.
use kafkaman.Base.{ℕ, ◌+◌, String, Bool, false, Option, none, some, List, ◌&&◌, ◌==◌, if◌then◌else◌}
use kafkaman.Base.Table.{update_where, count_where, exists_where}
use kafkaman.Core.Status.{OutboxStatus, MarkOutcome, updated, stale_claim, missing}
use kafkaman.Outbox.{OutboxRow, has_status}

-- SQL's `claim_id = $2`, where the column may be null.
unfoldable pub sql_id_eq : Option ℕ → ℕ → Bool
sql_id_eq none id = false
sql_id_eq (some c) id = c == id

module _ {Json : Type 0} where
  -- `WHERE message_id = $1 AND status = 'Publishing' AND claim_id = $2`.
  unfoldable pub holds_claim : ℕ → ℕ → OutboxRow Json → Bool
  unfolding sql_id_eq
  holds_claim message_id claim_id r =
      r.message_id == message_id
      && (has_status OutboxStatus.publishing r && sql_id_eq r.claim_id claim_id)

  -- The outcome of a mark: the row count, and else whether the row is there at all.
  unfoldable pub mark_outcome : ℕ → ℕ → List (OutboxRow Json) → MarkOutcome
  unfolding holds_claim count_where exists_where
  mark_outcome message_id claim_id rows =
      if count_where (holds_claim message_id claim_id) rows == 1
      then updated
      else if exists_where (λ r. r.message_id == message_id) rows
      then stale_claim
      else missing

  unfoldable pub to_published : ℕ → OutboxRow Json → OutboxRow Json
  to_published now r = record r {
    status = OutboxStatus.published;
    published_at = some now;
    claim_id = none;
    claimed_by = none;
    claim_expires_at = none;
  }

  unfoldable pub mark_published :
      ℕ → ℕ → ℕ → List (OutboxRow Json) → List (OutboxRow Json) × MarkOutcome
  unfolding to_published holds_claim mark_outcome update_where
  mark_published now message_id claim_id rows = (
    update_where (holds_claim message_id claim_id) (to_published now) rows,
    mark_outcome message_id claim_id rows,
  )

  unfoldable pub to_retry : ℕ → String → ℕ → OutboxRow Json → OutboxRow Json
  to_retry now error retry_after r = record r {
    status = OutboxStatus.pending;
    last_error = some error;
    next_attempt_at = now + retry_after;
    claim_id = none;
    claimed_by = none;
    claim_expires_at = none;
  }

  unfoldable pub mark_publish_failed :
      ℕ → ℕ → ℕ → String → ℕ → List (OutboxRow Json) → List (OutboxRow Json) × MarkOutcome
  unfolding to_retry holds_claim mark_outcome update_where
  mark_publish_failed now message_id claim_id error retry_after rows = (
    update_where (holds_claim message_id claim_id) (to_retry now error retry_after) rows,
    mark_outcome message_id claim_id rows,
  )
