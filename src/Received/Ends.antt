-- ===== src/Received/Ends.antt =====
-- Retrying ends: a row that keeps failing is closed before long, and a closed row stays as it is.
use mathlib.Core.List.{Memᴰ}
use kafkaman.Base.{
  ℕ, suc, ◌≤◌, String, Bool, true, false, List, [], ◌∷◌, ◌≡◌, refl, inl, inr, sym, ap, ◌∙◌, arith,
  length, if◌then◌else◌, Bool-cases, if_elim,
}
use kafkaman.Base.Int.{pos_part}
use kafkaman.Base.Table.{update_where, mem-update_where}
use kafkaman.Core.Status.{receive_is_terminal}
use kafkaman.Failure.{FailureDisposition}
use kafkaman.Received.{ReceivedRow, RetryPolicy}
use kafkaman.Received.Retry.{u32_max}
use kafkaman.Received.Rows.{
  is_open, is_due, failure_of, to_failed, to_processed, schedule_for, mark_received_processed,
  record_received_failure, ReceivedFailureRecord,
}
use kafkaman.Received.Recording.{
  IsBudgeted, schedule_for-IsScheduled, to_failed-IsBudgeted, to_failed-attempts,
}

-- A failure, as the dispatcher reports it: its class, its text and the time.
abbrev pub Cause : Type 0
Cause = FailureDisposition × String × ℕ

failure_of-attempts :
    {Json : Type 0} (r : ReceivedRow Json) (d : FailureDisposition) (message : String) (t : ℕ)
    → (failure_of r d message t).current_attempts ≡ r.attempts
unfolding failure_of
failure_of-attempts r d message t = refl

module _ {Json : Type 0} (draw : ℕ → ℕ) (policy : RetryPolicy) where
  -- What the statement of `record_received_failure` makes of the row it was made from.
  unfoldable pub fail_once : Cause → ReceivedRow Json → ReceivedRow Json
  unfolding failure_of schedule_for to_failed is_open
  fail_once (d, message, t) r =
      let f = failure_of r d message t in
      if is_open r.message_id r then to_failed (schedule_for draw policy f) f r else r

  -- The failures of a list one after the other, the last of the list first.
  unfoldable pub fail_all : List Cause → ReceivedRow Json → ReceivedRow Json
  unfolding fail_once
  fail_all [] r = r
  fail_all (c ∷ causes) r = fail_once c (fail_all causes r)

  -- A budgeted row that is open has had this many failures at least.
  record HasFailed (n : ℕ) (r : ReceivedRow Json) : Type 0 where
    budget : IsBudgeted policy r
    counted : is_open r.message_id r ≡ true → n ≤ budget.count

  failed-HasFailed :
      (f : ReceivedFailureRecord) (n : ℕ) (r : ReceivedRow Json)
      → policy.max_attempts ≤ u32_max
      → f.current_attempts ≡ r.attempts
      → is_open r.message_id r ≡ true
      → HasFailed n r
      → HasFailed (suc n) (to_failed (schedule_for draw policy f) f r)
  failed-HasFailed f n r u e o i =
      let s = schedule_for draw policy f in
      let room = i.budget.left o in
      let b =
        to_failed-IsBudgeted policy f s r i.budget
          (schedule_for-IsScheduled draw policy f i.budget.count (e ∙ i.budget.attempts)
            (omega arith))
          o in
      let same : suc i.budget.count ≡ b.count =
        ap pos_part
          (sym (to_failed-attempts policy f s r i.budget.count i.budget.attempts) ∙ b.attempts) in
      record { budget = b; counted = λ h. omega (arith, i.counted o, same) }

  fail_once-HasFailed :
      (c : Cause) (n : ℕ) (r : ReceivedRow Json)
      → policy.max_attempts ≤ u32_max
      → HasFailed n r
      → HasFailed (suc n) (fail_once c r)
  unfolding fail_once
  fail_once-HasFailed (d, message, t) n r u i =
      if_elim (HasFailed (suc n)) (is_open r.message_id r)
        (λ o.
          failed-HasFailed (failure_of r d message t) n r u (failure_of-attempts r d message t) o i)
        (λ o. record { budget = i.budget; counted = λ h. absurd (cc (h, o)) })

  fail_all-HasFailed :
      (causes : List Cause) (r : ReceivedRow Json)
      → policy.max_attempts ≤ u32_max
      → IsBudgeted policy r
      → HasFailed (length causes) (fail_all causes r)
  unfolding fail_all
  fail_all-HasFailed [] r u i = record { budget = i; counted = λ h. omega arith }
  fail_all-HasFailed (c ∷ causes) r u i =
      fail_once-HasFailed c (length causes) _ u (fail_all-HasFailed causes r u i)

  -- A row within its budget, of at most 2 ^ 32 - 1 attempts, is closed once as many failures as the
  -- budget has attempts were recorded against it, whatever they are; and it is within its budget.
  pub retries_end :
      (causes : List Cause) (r : ReceivedRow Json)
      → policy.max_attempts ≤ u32_max
      → IsBudgeted policy r
      → policy.max_attempts ≤ length causes
      → (is_open (fail_all causes r).message_id (fail_all causes r) ≡ false)
        × IsBudgeted policy (fail_all causes r)
  retries_end causes r u i h =
      let done = fail_all-HasFailed causes r u i in
      elim (Bool-cases (is_open (fail_all causes r).message_id (fail_all causes r))) [
        | inl o ↦ absurd (omega (arith, done.counted o, done.budget.left o))
        | inr o ↦ (o, done.budget)
      ]

module _ {Json : Type 0} where
  closed-not_open :
      (m : ℕ) (r : ReceivedRow Json) → receive_is_terminal r.status ≡ true → is_open m r ≡ false
  unfolding is_open receive_is_terminal
  closed-not_open m r h = ground arith

  -- A row with a terminal status is never due, and neither of the two statements changes it.
  pub closed_is_final :
      (rows : List (ReceivedRow Json)) (r : ReceivedRow Json)
      → Memᴰ r rows
      → receive_is_terminal r.status ≡ true
      → ((t : ℕ) → is_due t r ≡ false)
        × ((m t : ℕ) → Memᴰ r (mark_received_processed m t rows).0)
        × ((draw : ℕ → ℕ) (policy : RetryPolicy) (f : ReceivedFailureRecord)
            → Memᴰ r (record_received_failure draw policy f rows).0)
  unfolding is_due receive_is_terminal mark_received_processed record_received_failure
  closed_is_final rows r k h = (
    λ t. ground arith,
    λ m t. kept (is_open m) (to_processed t) (closed-not_open m r h),
    λ draw policy f.
        kept (is_open f.message_id) (to_failed (schedule_for draw policy f) f)
          (closed-not_open f.message_id r h),
  )
    where
      kept :
          (p : ReceivedRow Json → Bool) (f : ReceivedRow Json → ReceivedRow Json)
          → p r ≡ false
          → Memᴰ r (update_where p f rows)
      kept p f e = rw e at (mem-update_where p f k)
