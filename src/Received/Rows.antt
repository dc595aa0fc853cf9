-- ===== src/Received/Rows.antt =====
-- crates/kafkaman-sqlx/src/received_rows.rs: claiming a due row, marking it processed, recording a
-- failure against it.
use kafkaman.Base.{
  ℕ, zero, suc, ◌-◌, String, Bool, true, false, Option, none, some, List, [], ◌∷◌, ◌++◌, ◌&&◌, ◌||◌,
  not, ◌==◌, leb, length, if◌then◌else◌,
}
use kafkaman.Base.Int.{leb_ℤ, ℤ, pos, ◌+ℤ◌}
use kafkaman.Base.Table.{find_where, select_where, update_where, count_where, exists_where}
use kafkaman.Base.Sort.{sort_by}
use kafkaman.Core.Status.{ReceiveStatus, receive_is, MarkOutcome, updated, stale_claim, missing}
use kafkaman.Failure.{FailureDisposition}
use kafkaman.Received.{ReceivedRow, ReceivedError, new_error, RetryPolicy}
use kafkaman.Received.Retry.{Schedule, received_failure_schedule}

abbrev pub drop {ℓ} : {A : Type ℓ} → ℕ → List A → List A
drop zero xs = xs
drop (suc n) [] = []
drop (suc n) (x ∷ xs) = drop n xs

-- The newest `limit` entries, oldest first: `ORDER BY ord DESC LIMIT $5`, aggregated in order.
unfoldable pub keep_newest : ℕ → List ReceivedError → List ReceivedError
keep_newest limit errors = drop (length errors - limit) errors

abbrev due_by : ℕ → Option ℕ → Bool
due_by due_at none = false
due_by due_at (some t) = leb t due_at

abbrev unset_or_due : ℕ → Option ℕ → Bool
unset_or_due due_at none = true
unset_or_due due_at (some t) = leb t due_at

pub record ReceivedFailureRecord : Type 0 where
  pub message_id : ℕ
  pub disposition : FailureDisposition
  pub message : String
  pub occurred_at : ℕ
  pub current_attempts : ℤ

unfoldable pub schedule_for : (ℕ → ℕ) → RetryPolicy → ReceivedFailureRecord → Schedule
unfolding received_failure_schedule
schedule_for draw policy f =
    received_failure_schedule draw policy f.current_attempts f.occurred_at f.disposition

module _ {Json : Type 0} where
  unfoldable pub is_due : ℕ → ReceivedRow Json → Bool
  is_due due_at r =
      receive_is r.status ReceiveStatus.pending && unset_or_due due_at r.next_attempt_at
      || receive_is r.status ReceiveStatus.retryable && due_by due_at r.next_attempt_at

  -- `ORDER BY created_at FOR UPDATE SKIP LOCKED LIMIT 1`: `locked` says which rows others hold.
  -- An error of the statement, or of the decoding of its row, is `claim_fault` of the cycle.
  unfoldable pub claim_received_row :
      (ReceivedRow Json → Bool) → ℕ → List (ReceivedRow Json) → Option (ReceivedRow Json)
  claim_received_row locked due_at rows =
      find_where (λ r. not (locked r))
        (sort_by (λ r. r.created_at) (select_where (is_due due_at) rows))

  -- `message_id = $1 AND status IN ('Pending', 'Retryable')`.
  unfoldable pub is_open : ℕ → ReceivedRow Json → Bool
  is_open message_id r =
      r.message_id == message_id
      && (receive_is r.status ReceiveStatus.pending || receive_is r.status ReceiveStatus.retryable)

  unfoldable pub mark_outcome : ℕ → List (ReceivedRow Json) → MarkOutcome
  mark_outcome message_id rows =
      if count_where (is_open message_id) rows == 1
      then updated
      else if exists_where (λ r. r.message_id == message_id) rows
      then stale_claim
      else missing

  unfoldable pub to_processed : ℕ → ReceivedRow Json → ReceivedRow Json
  to_processed processed_at r = record r {
    status = ReceiveStatus.processed;
    processed_at = some processed_at;
  }

  unfoldable pub mark_received_processed :
      ℕ → ℕ → List (ReceivedRow Json) → List (ReceivedRow Json) × MarkOutcome
  mark_received_processed message_id processed_at rows = (
    update_where (is_open message_id) (to_processed processed_at) rows,
    mark_outcome message_id rows,
  )

  -- `ReceivedFailureRecord::of`.
  unfoldable pub failure_of :
      ReceivedRow Json → FailureDisposition → String → ℕ → ReceivedFailureRecord
  failure_of row disposition message occurred_at = record {
    message_id = row.message_id;
    disposition = disposition;
    message = message;
    occurred_at = occurred_at;
    current_attempts = row.attempts;
  }

  -- The `SET` of `record_received_failure_sql`. Behind the end of the column, the statement fails:
  -- `is_out_of_range`.
  unfoldable pub to_failed : Schedule → ReceivedFailureRecord → ReceivedRow Json → ReceivedRow Json
  unfolding new_error keep_newest ◌+ℤ◌
  to_failed schedule f r = record r {
    status = if schedule.exhausted then ReceiveStatus.failed else ReceiveStatus.retryable;
    attempts = r.attempts +ℤ pos 1;
    next_attempt_at = if schedule.exhausted then none else schedule.next_attempt_at;
    errors = keep_newest schedule.errors_limit (
        r.errors
        ++ new_error f.disposition.kind f.message f.occurred_at (some f.disposition.stage) ∷ []);
    last_failed_at = some f.occurred_at;
    last_failure_kind = some f.disposition.kind;
  }

  -- `attempts` is an `INTEGER`, and `attempts + 1` must be one.
  unfoldable pub is_out_of_range : ReceivedFailureRecord → List (ReceivedRow Json) → Bool
  unfolding is_open
  is_out_of_range f rows =
      exists_where (λ r. is_open f.message_id r && leb_ℤ (pos 2147483647) r.attempts) rows

  unfoldable pub record_received_failure :
      (ℕ → ℕ)
      → RetryPolicy
      → ReceivedFailureRecord
      → List (ReceivedRow Json)
      → List (ReceivedRow Json) × MarkOutcome
  record_received_failure draw policy f rows = (
    update_where (is_open f.message_id) (to_failed (schedule_for draw policy f) f) rows,
    mark_outcome f.message_id rows,
  )
