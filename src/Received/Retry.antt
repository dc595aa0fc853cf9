-- ===== src/Received/Retry.antt =====
-- crates/kafkaman-sqlx/src/retry_backoff.rs: when a failed row is tried again. A tick is a nanosecond.
use kafkaman.Base.{
  ℕ, ◌+◌, ◌*◌, ◌/◌, ◌%◌, ◌≤◌, ◌<◌, ◌≡◌, Bool, Option, none, some, ◌||◌, leb, ltb, ◌==◌, arith,
  if◌then◌else◌,
}
use kafkaman.Base.Int.{ℤ, pos, negsuc}
use kafkaman.Failure.{FailureDisposition}
use kafkaman.Received.{RetryPolicy}

abbrev pub u32_max : ℕ
u32_max = 4294967295

abbrev i64_max : ℕ
i64_max = 9223372036854775807

abbrev nanos_per_sec : ℕ
nanos_per_sec = 1000000000

-- A negative count reads as 0.
unfoldable pub clamp_attempts : ℤ → ℕ
clamp_attempts (pos n) = n
clamp_attempts (negsuc n) = 0

-- `clamp_attempts(…).saturating_add(1)`, and whether that is the last attempt.
unfoldable pub received_retry_outcome : RetryPolicy → ℤ → FailureDisposition → ℕ × Bool
unfolding clamp_attempts
received_retry_outcome policy current disposition =
    let n = clamp_attempts current in
    let next_attempts = if ltb n u32_max then n + 1 else u32_max in
    (next_attempts, disposition.terminal || leb policy.max_attempts next_attempts)

-- `draw h` is what the random generator gives for the range `0 ..= h`.
unfoldable pub jittered : (ℕ → ℕ) → ℕ → ℕ
jittered draw base = let half = base / 2 in if half == 0 then base else half + draw half

-- The seconds are cut at `i64::MAX`.
unfoldable pub duration_to_time : ℕ → ℕ
duration_to_time d =
    (if ltb (d / nanos_per_sec) i64_max then d / nanos_per_sec else i64_max) * nanos_per_sec
    + d % nanos_per_sec

pub record Schedule : Type 0 where
  pub exhausted : Bool
  pub next_attempt_at : Option ℕ
  pub errors_limit : ℕ

unfoldable pub received_failure_schedule :
    (ℕ → ℕ) → RetryPolicy → ℤ → ℕ → FailureDisposition → Schedule
unfolding received_retry_outcome jittered duration_to_time
received_failure_schedule draw policy current occurred_at disposition =
    let exhausted = (received_retry_outcome policy current disposition).1 in
    record {
      exhausted = exhausted;
      next_attempt_at =
          if exhausted
          then none
          else some (
              occurred_at
              + duration_to_time (jittered draw (policy.backoff (clamp_attempts current))));
      errors_limit = if policy.errors_limit == 0 then 1 else policy.errors_limit;
    }

-- A wait lies between half the backoff and the backoff, if the generator stays in its range.
jittered_bounds :
    (draw : ℕ → ℕ) (base : ℕ)
    → draw (base / 2) ≤ base / 2
    → (base / 2 ≤ jittered draw base) × (jittered draw base ≤ base)
unfolding jittered
jittered_bounds draw base h = ground arith

pub duration_to_time_lem : (d : ℕ) → d < i64_max * nanos_per_sec → duration_to_time d ≡ d
unfolding duration_to_time
duration_to_time_lem d h = ground arith
