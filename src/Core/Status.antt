-- ===== src/Core/Status.antt =====
-- crates/kafkaman-core/src/status.rs, with the `as_str` and `FromStr` that the macro `sql_enum!` of
-- enum_macros.rs generates, and `MarkOutcome` of rows.rs.
use kafkaman.Base.{String, Bool, true, false, Option, List, [], ◌∷◌, str_eq}
use kafkaman.Base.Table.{find_where}

pub data OutboxStatus : Type 0 where
  pending publishing published superseded failed : OutboxStatus

pub data ReceiveStatus : Type 0 where
  pending processed retryable failed : ReceiveStatus

pub data MarkOutcome : Type 0 where
  updated stale_claim missing : MarkOutcome

-- `==` on each enum.
abbrev pub outbox_is : OutboxStatus → OutboxStatus → Bool
outbox_is OutboxStatus.pending OutboxStatus.pending = true
outbox_is OutboxStatus.publishing OutboxStatus.publishing = true
outbox_is OutboxStatus.published OutboxStatus.published = true
outbox_is OutboxStatus.superseded OutboxStatus.superseded = true
outbox_is OutboxStatus.failed OutboxStatus.failed = true
outbox_is _ _ = false

abbrev pub receive_is : ReceiveStatus → ReceiveStatus → Bool
receive_is ReceiveStatus.pending ReceiveStatus.pending = true
receive_is ReceiveStatus.processed ReceiveStatus.processed = true
receive_is ReceiveStatus.retryable ReceiveStatus.retryable = true
receive_is ReceiveStatus.failed ReceiveStatus.failed = true
receive_is _ _ = false

abbrev pub is_updated : MarkOutcome → Bool
is_updated MarkOutcome.updated = true
is_updated _ = false

-- `as_str`: the variant's name, as it is persisted.
unfoldable pub outbox_as_str : OutboxStatus → String
outbox_as_str OutboxStatus.pending = "Pending"
outbox_as_str OutboxStatus.publishing = "Publishing"
outbox_as_str OutboxStatus.published = "Published"
outbox_as_str OutboxStatus.superseded = "Superseded"
outbox_as_str OutboxStatus.failed = "Failed"

unfoldable pub receive_as_str : ReceiveStatus → String
receive_as_str ReceiveStatus.pending = "Pending"
receive_as_str ReceiveStatus.processed = "Processed"
receive_as_str ReceiveStatus.retryable = "Retryable"
receive_as_str ReceiveStatus.failed = "Failed"

-- `ALL`, in declaration order.
abbrev pub outbox_all : List OutboxStatus
outbox_all =
    OutboxStatus.pending ∷ OutboxStatus.publishing ∷ OutboxStatus.published
    ∷ OutboxStatus.superseded ∷ OutboxStatus.failed ∷ []

abbrev pub receive_all : List ReceiveStatus
receive_all =
    ReceiveStatus.pending ∷ ReceiveStatus.processed ∷ ReceiveStatus.retryable ∷ ReceiveStatus.failed
    ∷ []

-- `from_str`; `none` stands for the macro's `invalid` error.
unfoldable pub outbox_from_str : String → Option OutboxStatus
unfolding outbox_as_str find_where
outbox_from_str value = find_where (λ c. str_eq (outbox_as_str c) value) outbox_all

unfoldable pub receive_from_str : String → Option ReceiveStatus
unfolding receive_as_str find_where
receive_from_str value = find_where (λ c. str_eq (receive_as_str c) value) receive_all

unfoldable pub outbox_is_terminal : OutboxStatus → Bool
outbox_is_terminal OutboxStatus.published = true
outbox_is_terminal OutboxStatus.superseded = true
outbox_is_terminal OutboxStatus.failed = true
outbox_is_terminal _ = false

unfoldable pub receive_is_terminal : ReceiveStatus → Bool
receive_is_terminal ReceiveStatus.processed = true
receive_is_terminal ReceiveStatus.failed = true
receive_is_terminal _ = false
