-- ===== src/Outbox/Order.antt =====
-- The order of one entity's states in the outbox: what every statement of the pipeline keeps.
pub mod Image
pub mod Marks
pub mod Candidates
pub mod Claims
pub mod Inserts
pub mod Deletes
pub mod Origins
pub mod System
pub mod Sound
pub mod Traces
pub mod Progress
use mathlib.Core.List.{Memᴰ}
use kafkaman.Base.{ℕ, ◌<◌, ◌≡◌, true, List, ◌⊎◌}
use kafkaman.Core.Status.{OutboxStatus}
use kafkaman.Outbox.{OutboxRow, sql_text_eq, same_entity}

abbrev pub IsActive : {Json : Type 0} → OutboxRow Json → Type 0
IsActive r = (r.status ≡ OutboxStatus.pending) ⊎ (r.status ≡ OutboxStatus.publishing)

-- One row for each id and each ordinal; of one entity at most one row in flight, and before all that
-- are pending; and every published row before all that are pending or in flight.
pub record IsOrdered {Json : Type 0} (rows : List (OutboxRow Json)) : Type 0 where
  pub one_row :
      (r s : OutboxRow Json) → Memᴰ r rows → Memᴰ s rows → r.message_id ≡ s.message_id → r ≡ s
  pub one_ordinal :
      (r s : OutboxRow Json) → Memᴰ r rows → Memᴰ s rows → r.enqueue_order ≡ s.enqueue_order → r ≡ s
  pub one_in_flight :
      (r s : OutboxRow Json)
      → Memᴰ r rows
      → Memᴰ s rows
      → same_entity r s ≡ true
      → r.status ≡ OutboxStatus.publishing
      → s.status ≡ OutboxStatus.publishing
      → r ≡ s
  pub in_flight_first :
      (r s : OutboxRow Json)
      → Memᴰ r rows
      → Memᴰ s rows
      → same_entity r s ≡ true
      → r.status ≡ OutboxStatus.publishing
      → s.status ≡ OutboxStatus.pending
      → r.enqueue_order < s.enqueue_order
  pub published_first :
      (r s : OutboxRow Json)
      → Memᴰ r rows
      → Memᴰ s rows
      → same_entity r s ≡ true
      → r.status ≡ OutboxStatus.published
      → IsActive s
      → r.enqueue_order < s.enqueue_order
