-- ===== src/Received/Recording.antt =====
-- The retry budget: what recording failures, as received_rows.rs and retry_backoff.rs do, makes of a
-- row and of the table.
use mathlib.Core.List.{Memᴰ}
use kafkaman.Base.{
  ℕ, zero, suc, ◌+◌, ◌-◌, ◌≤◌, ◌<◌, true, false, none, some, List, [], ◌∷◌, ◌≡◌, refl, inl, inr,
  sym, ap, ◌∙◌, subst, arith, ◌||◌, leb, ◌==◌, length, if◌then◌else◌, if_elim, lt→ltb, Bool-cases,
}
use kafkaman.Base.Int.{pos, ◌+ℤ◌}
use kafkaman.Base.Table.{update_where-mem}
use kafkaman.Core.Status.{ReceiveStatus}
use kafkaman.Received.{ReceivedRow, ReceivedError, RetryPolicy}
use kafkaman.Received.Retry.{
  Schedule, jittered, duration_to_time, u32_max, clamp_attempts, received_retry_outcome,
  received_failure_schedule,
}
use kafkaman.Received.Rows.{
  drop, keep_newest, ReceivedFailureRecord, schedule_for, is_open, to_failed, to_processed,
  mark_received_processed, record_received_failure,
}

length-drop : {A : Type 0} (n : ℕ) (xs : List A) → length (drop n xs) ≡ length xs - n
length-drop zero xs = omega arith
length-drop (suc n) [] = omega arith
length-drop (suc n) (x ∷ xs) = omega (arith, length-drop n xs)

keep_newest-le :
    (limit : ℕ) (errors : List ReceivedError) → length (keep_newest limit errors) ≤ limit
unfolding keep_newest
keep_newest-le limit errors = omega (arith, length-drop (length errors - limit) errors)

abbrev pub limit_of : RetryPolicy → ℕ
limit_of policy = if policy.errors_limit == 0 then 1 else policy.errors_limit

-- A row that has not used up its budget, or was closed; with its history within bounds.
pub record IsBudgeted {Json : Type 0} (policy : RetryPolicy) (r : ReceivedRow Json) : Type 0 where
  pub count : ℕ
  pub attempts : r.attempts ≡ pos count
  pub within : count ≤ policy.max_attempts
  pub left : is_open r.message_id r ≡ true → count < policy.max_attempts
  pub scheduled : r.status ≡ ReceiveStatus.retryable → (t : ℕ) × (r.next_attempt_at ≡ some t)
  pub settled : r.status ≡ ReceiveStatus.failed → r.next_attempt_at ≡ none
  pub history : length r.errors ≤ limit_of policy

-- What the code reads of a schedule: with `count` failures before it, it ends the row exactly when
-- the failure is terminal or the last of the budget, and else it gives a time.
pub record IsScheduled (policy : RetryPolicy) (count : ℕ) (f : ReceivedFailureRecord) (s : Schedule)
    : Type 0 where
  pub ends : s.exhausted ≡ (f.disposition.terminal || leb policy.max_attempts (suc count))
  pub limit : s.errors_limit ≡ limit_of policy
  pub time : s.exhausted ≡ false → (t : ℕ) × (s.next_attempt_at ≡ some t)

pub schedule_for-IsScheduled :
    (draw : ℕ → ℕ) (policy : RetryPolicy) (f : ReceivedFailureRecord) (count : ℕ)
    → f.current_attempts ≡ pos count
    → count < u32_max
    → IsScheduled policy count f (schedule_for draw policy f)
unfolding schedule_for received_failure_schedule received_retry_outcome clamp_attempts
schedule_for-IsScheduled draw policy f count e u =
    let n : clamp_attempts f.current_attempts ≡ count = ap clamp_attempts e in
    record {
      ends =
          rw (n, lt→ltb count u32_max u)
            (ap (λ k. f.disposition.terminal || leb policy.max_attempts k) (omega arith));
      limit = refl;
      time = λ h. (
        f.occurred_at
            + duration_to_time (jittered draw (policy.backoff (clamp_attempts f.current_attempts))),
        rw h refl,
      );
    }

pub is_open-id :
    {Json : Type 0} (m : ℕ) (r : ReceivedRow Json) → is_open m r ≡ true → r.message_id ≡ m
unfolding is_open
is_open-id m r h = ground arith

module _ {Json : Type 0} (policy : RetryPolicy) where
  to_failed-left :
      (f : ReceivedFailureRecord) (s : Schedule) (r : ReceivedRow Json) (count : ℕ)
      → IsScheduled policy count f s
      → is_open r.message_id (to_failed s f r) ≡ true
      → suc count < policy.max_attempts
  unfolding to_failed is_open
  to_failed-left f s r count i o = elim (Bool-cases s.exhausted) [
    | inl e ↦ absurd (ground (arith, o, e))
    | inr e ↦ ground (arith, i.ends, e)
  ]

  pub to_failed-attempts :
      (f : ReceivedFailureRecord) (s : Schedule) (r : ReceivedRow Json) (n : ℕ)
      → r.attempts ≡ pos n
      → (to_failed s f r).attempts ≡ pos (suc n)
  unfolding to_failed ◌+ℤ◌
  to_failed-attempts f s r n e = rw e (ground arith)

  pub to_failed-IsBudgeted :
      (f : ReceivedFailureRecord) (s : Schedule) (r : ReceivedRow Json)
      → (i : IsBudgeted policy r) → IsScheduled policy i.count f s
      → is_open r.message_id r ≡ true
      → IsBudgeted policy (to_failed s f r)
  unfolding to_failed ◌+ℤ◌
  to_failed-IsBudgeted f s r i d o = record {
    count = suc i.count;
    attempts = to_failed-attempts f s r i.count i.attempts;
    within = omega (arith, i.left o);
    left = to_failed-left f s r i.count d;
    scheduled = λ h. elim (Bool-cases s.exhausted) [
      | inl e ↦ absurd (ground (arith, h, e))
      | inr e ↦ rw e (d.time e)
    ];
    settled = λ h. elim (Bool-cases s.exhausted) [
      | inl e ↦ rw e refl
      | inr e ↦ absurd (ground (arith, h, e))
    ];
    history = rw (← d.limit) (keep_newest-le _ _);
  }

  to_processed-IsBudgeted :
      (now : ℕ) (r : ReceivedRow Json)
      → IsBudgeted policy r
      → IsBudgeted policy (to_processed now r)
  unfolding to_processed is_open
  to_processed-IsBudgeted now r i = record {
    count = i.count;
    attempts = i.attempts;
    within = i.within;
    left = λ h. absurd (ground (arith, h));
    scheduled = λ h. absurd (ground (arith, h));
    settled = λ h. absurd (ground (arith, h));
    history = i.history;
  }

  abbrev pub IsBudgetedTable : List (ReceivedRow Json) → Type 0
  IsBudgetedTable rows = (r : ReceivedRow Json) → Memᴰ r rows → IsBudgeted policy r

  -- Marking a row processed keeps every row of the table within its budget.
  pub mark-IsBudgetedTable :
      (message_id now : ℕ) (rows : List (ReceivedRow Json))
      → IsBudgetedTable rows
      → IsBudgetedTable (mark_received_processed message_id now rows).0
  unfolding mark_received_processed
  mark-IsBudgetedTable message_id now rows i r m =
      let (s, k, q) = update_where-mem (is_open message_id) (to_processed now) rows m in
      subst (IsBudgeted policy) (sym q) (
        if_elim (IsBudgeted policy) (is_open message_id s)
          (λ o. to_processed-IsBudgeted now s (i s k)) (λ o. i s k))

  -- Recording a failure keeps every row of the table within its budget: no row has more attempts
  -- than the policy allows, an open one has fewer, a retryable one has a next attempt and a failed
  -- one has none, and no history is over its limit. The failure is made from the attempts that the
  -- row has, and the policy's attempts fit 32 bits.
  pub record-IsBudgetedTable :
      (draw : ℕ → ℕ) (f : ReceivedFailureRecord) (rows : List (ReceivedRow Json))
      → policy.max_attempts ≤ u32_max
      → ((r : ReceivedRow Json)
          → Memᴰ r rows
          → r.message_id ≡ f.message_id
          → f.current_attempts ≡ r.attempts)
      → IsBudgetedTable rows
      → IsBudgetedTable (record_received_failure draw policy f rows).0
  unfolding record_received_failure
  record-IsBudgetedTable draw f rows u fresh i r m =
      let schedule = schedule_for draw policy f in
      let (s, k, q) = update_where-mem (is_open f.message_id) (to_failed schedule f) rows m in
      subst (IsBudgeted policy) (sym q) (
        if_elim (IsBudgeted policy) (is_open f.message_id s)
          (λ o.
            let same = is_open-id f.message_id s o in
            let left = (i s k).left (subst (λ x. is_open x s ≡ true) (sym same) o) in
            to_failed-IsBudgeted f schedule s (i s k)
              (schedule_for-IsScheduled draw policy f (i s k).count
                (fresh s k same ∙ (i s k).attempts) (omega arith))
              (subst (λ x. is_open x s ≡ true) (sym same) o))
          (λ o. i s k))
