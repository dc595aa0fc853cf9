-- ===== src/Examples/Received.antt =====
-- The received table at concrete rows.
use mathlib.Core.List.{Memᴰ}
use kafkaman.Base.{ℕ, ◌≤◌, Bool, true, false, none, some, List, [], ◌∷◌, ◌≡◌, refl, arith}
use kafkaman.Base.Int.{pos}
use kafkaman.Base.Table.{All-mem, find_where, select_where}
use kafkaman.Base.Sort.{sort_by}
use kafkaman.Core.Status.{ReceiveStatus, receive_is_terminal}
use kafkaman.Core.Problem.{ReceivedFailureKind, FailureStage}
use kafkaman.Failure.{FailureDisposition}
use kafkaman.Received.{ReceivedRow, RetryPolicy}
use kafkaman.Received.Rows.{
  is_due, is_open, claim_received_row, ReceivedFailureRecord, failure_of, mark_received_processed,
  record_received_failure,
}
use kafkaman.Received.Recording.{IsBudgeted, IsBudgetedTable, record-IsBudgetedTable}
use kafkaman.Received.Ends.{Cause, fail_all, retries_end, closed_is_final}
use kafkaman.Received.Claim.{IsFree, claim_oldest, claim_none}
use kafkaman.Examples.{record_of, three_attempts}

abbrev fresh : ℕ → ReceivedRow ℕ
fresh n = record_of "orders" (pos 0) n

abbrev disposition : FailureDisposition
disposition = record {
  kind = ReceivedFailureKind.handler;
  stage = FailureStage.handler;
  terminal = false;
}

abbrev cause : Cause
cause = (disposition, "no", 4)

abbrev draw : ℕ → ℕ
draw n = n

fresh-IsBudgeted : (n : ℕ) → IsBudgeted three_attempts (fresh n)
fresh-IsBudgeted n = record {
  count = 0;
  attempts = refl;
  within = omega arith;
  left = λ h. omega arith;
  scheduled = λ h. absurd (cc h);
  settled = λ h. absurd (cc h);
  history = omega arith;
}

retries_end_example :
    (is_open
        (fail_all draw three_attempts (cause ∷ cause ∷ cause ∷ []) (fresh 1)).message_id
        (fail_all draw three_attempts (cause ∷ cause ∷ cause ∷ []) (fresh 1))
      ≡ false)
    × IsBudgeted three_attempts
        (fail_all draw three_attempts (cause ∷ cause ∷ cause ∷ []) (fresh 1))
retries_end_example =
    retries_end draw three_attempts (cause ∷ cause ∷ cause ∷ []) (fresh 1) (omega arith)
      (fresh-IsBudgeted 1) (omega arith)

abbrev table : List (ReceivedRow ℕ)
table = fresh 2 ∷ fresh 1 ∷ []

made_from_row :
    (r : ReceivedRow ℕ)
    → Memᴰ r table
    → (failure_of (fresh 1) disposition "no" 4).current_attempts ≡ r.attempts
unfolding failure_of
made_from_row r m = All-mem (λ s. pos 0 ≡ s.attempts) (refl, (refl, tt)) m

record-IsBudgetedTable_example :
    IsBudgetedTable three_attempts
      (record_received_failure draw three_attempts
        (failure_of (fresh 1) disposition "no" 4)
        table).0
record-IsBudgetedTable_example =
    record-IsBudgetedTable three_attempts draw (failure_of (fresh 1) disposition "no" 4) table
      (omega arith) (λ r m e. made_from_row r m)
      (λ r m. All-mem (IsBudgeted three_attempts) (fresh-IsBudgeted 2, (fresh-IsBudgeted 1, tt)) m)

abbrev closed : ReceivedRow ℕ
closed = record (fresh 3) { status = ReceiveStatus.failed }

closed_terminal : receive_is_terminal closed.status ≡ true
unfolding receive_is_terminal
closed_terminal = refl

closed_is_final_example :
    ((t : ℕ) → is_due t closed ≡ false)
    × ((m t : ℕ) → Memᴰ closed (mark_received_processed m t (closed ∷ [])).0)
    × ((draw : ℕ → ℕ) (policy : RetryPolicy) (f : ReceivedFailureRecord)
        → Memᴰ closed (record_received_failure draw policy f (closed ∷ [])).0)
closed_is_final_example = closed_is_final (closed ∷ []) closed (Memᴰ.head refl) closed_terminal

abbrev nobody : ReceivedRow ℕ → Bool
nobody r = false

table_claim : claim_received_row nobody 9 table ≡ some (fresh 1)
unfolding claim_received_row find_where sort_by select_where is_due
table_claim = refl

claim_oldest_example :
    IsFree nobody 9 table (fresh 1)
    × ((s : ReceivedRow ℕ) → IsFree nobody 9 table s → (fresh 1).created_at ≤ s.created_at)
claim_oldest_example = claim_oldest nobody 9 table (fresh 1) table_claim

closed_claim : claim_received_row nobody 9 (closed ∷ []) ≡ none
unfolding claim_received_row find_where sort_by select_where is_due
closed_claim = refl

claim_none_example : ¬ IsFree nobody 9 (closed ∷ []) closed
claim_none_example = claim_none nobody 9 (closed ∷ []) closed_claim closed
