-- ===== src/Core/Names.antt =====
-- The names that the database and the problem documents hold are read back as what they stand for:
-- status.rs, enum_macros.rs and failure_kind.rs.
use kafkaman.Base.{String, some, ◌≡◌, refl, str_eq, eq_iff}
use kafkaman.Base.Table.{find_where, find_where-mem}
use kafkaman.Core.Status.{
  OutboxStatus, ReceiveStatus, outbox_as_str, outbox_from_str, outbox_all, receive_as_str,
  receive_from_str, receive_all,
}
use kafkaman.Core.Problem.{
  ReceivedFailureKind, discriminant, kind_problem_type, coarsening, from_problem_type,
}

outbox_reads : (s : OutboxStatus) → outbox_from_str (outbox_as_str s) ≡ some s
unfolding outbox_from_str outbox_as_str find_where
outbox_reads OutboxStatus.pending = refl
outbox_reads OutboxStatus.publishing = refl
outbox_reads OutboxStatus.published = refl
outbox_reads OutboxStatus.superseded = refl
outbox_reads OutboxStatus.failed = refl

receive_reads : (s : ReceiveStatus) → receive_from_str (receive_as_str s) ≡ some s
unfolding receive_from_str receive_as_str find_where
receive_reads ReceiveStatus.pending = refl
receive_reads ReceiveStatus.processed = refl
receive_reads ReceiveStatus.retryable = refl
receive_reads ReceiveStatus.failed = refl

-- A status is read back from its stored name, for both tables, and a text that is read as a status
-- is the name of that status.
pub statuses_round_trip :
    ((s : OutboxStatus) → outbox_from_str (outbox_as_str s) ≡ some s)
    × ((s : ReceiveStatus) → receive_from_str (receive_as_str s) ≡ some s)
    × ((v : String) (s : OutboxStatus) → outbox_from_str v ≡ some s → outbox_as_str s ≡ v)
    × ((v : String) (s : ReceiveStatus) → receive_from_str v ≡ some s → receive_as_str s ≡ v)
unfolding outbox_from_str receive_from_str
statuses_round_trip = (
  outbox_reads,
  receive_reads,
  λ v s h.
      (eq_iff (outbox_as_str s) v).0
        (find_where-mem (λ c. str_eq (outbox_as_str c) v) outbox_all h).1,
  λ v s h.
      (eq_iff (receive_as_str s) v).0
        (find_where-mem (λ c. str_eq (receive_as_str c) v) receive_all h).1,
)

-- A failure kind is read back from its problem type, from its discriminant, and by the coarsening
-- of the problem type that it stands for.
pub failure_kinds_round_trip :
    (k : ReceivedFailureKind)
    → (from_problem_type (kind_problem_type k) ≡ some k)
      × (from_problem_type (discriminant k) ≡ some k)
      × (coarsening (kind_problem_type k) ≡ k)
unfolding from_problem_type kind_problem_type discriminant coarsening find_where
failure_kinds_round_trip ReceivedFailureKind.missing_handler = (refl, refl, refl)
failure_kinds_round_trip ReceivedFailureKind.invalid_payload = (refl, refl, refl)
failure_kinds_round_trip ReceivedFailureKind.infrastructure = (refl, refl, refl)
failure_kinds_round_trip ReceivedFailureKind.handler = (refl, refl, refl)
