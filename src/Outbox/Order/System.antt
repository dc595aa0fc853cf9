-- ===== src/Outbox/Order/System.antt =====
-- The outbox under any interleaving of its statements, by any number of writers and relays, with the
-- log of the rows that were marked published, the newest first.
use mathlib.Core.List.{Memᴰ}
use kafkaman.Base.{ℕ, ◌+◌, ◌<◌, ◌≡◌, Bool, true, List, [], ◌∷◌, String, Option, none, some, All}
use kafkaman.Base.Table.{find_where}
use kafkaman.Core.Config.{PurgeConfig}
use kafkaman.Failure.{ok}
use kafkaman.Outbox.{OutboxRow, same_entity}
use kafkaman.Outbox.Enqueue.{Session, Envelope, MessageDescriptor, enqueue_inner}
use kafkaman.Outbox.Claim.{claim_rows, collapse_stale_pending_rows}
use kafkaman.Outbox.Mark.{holds_claim, mark_published, mark_publish_failed}
use kafkaman.Outbox.Purge.{purge_outbox_once}
use kafkaman.Outbox.Order.{IsActive, IsOrdered}
use kafkaman.Outbox.Order.Inserts.{IsBelow}

pub record System (Json : Type 0) : Type 0 where
  pub rows : List (OutboxRow Json)
  pub next_order : ℕ
  pub log : List (OutboxRow Json)

-- The log after a mark: the row that held the claim, if one did.
abbrev pub logged :
    {Json : Type 0} → Option (OutboxRow Json) → List (OutboxRow Json) → List (OutboxRow Json)
logged none log = log
logged (some r) log = r ∷ log

pub data Step {Json : Type 0} : System Json → System Json → Type 0 where
  enqueue :
      (s : System Json) (session : Session Json) (message_type : String)
      (d : Option MessageDescriptor) (evt : Envelope Json)
      → session.next_order ≡ s.next_order
      → Step s (record s {
        rows = (enqueue_inner session message_type d evt s.rows).0;
        next_order = s.next_order + 1;
      })
  collapse :
      (s : System Json) (now limit : ℕ)
      → Step s (record s { rows = collapse_stale_pending_rows now limit s.rows })
  claim :
      (s : System Json) (now limit : ℕ) (locked : OutboxRow Json → Bool) (lease_for claim_id : ℕ)
      (worker_id : String)
      → Step s (record s { rows = claim_rows now limit locked lease_for claim_id worker_id s.rows })
  publish :
      (s : System Json) (now message_id claim_id : ℕ)
      → Step s (record s {
        rows = (mark_published now message_id claim_id s.rows).0;
        log = logged (find_where (holds_claim message_id claim_id) s.rows) s.log;
      })
  fail :
      (s : System Json) (now message_id claim_id : ℕ) (error : String) (retry_after : ℕ)
      → Step s (record s {
        rows = (mark_publish_failed now message_id claim_id error retry_after s.rows).0;
      })
  purge :
      (s : System Json) (now : ℕ) (cfg : PurgeConfig) (locked : OutboxRow Json → Bool)
      {rows : List (OutboxRow Json)} {deleted : ℕ}
      → purge_outbox_once now cfg locked s.rows ≡ ok (rows, deleted)
      → Step s (record s { rows = rows })

pub data Reach {Json : Type 0} (s : System Json) : System Json → Type 0 where
  here : Reach s s
  next : {t u : System Json} → Reach s t → Step t u → Reach s u

abbrev pub start : {Json : Type 0} → System Json
start = record { rows = []; next_order = 0; log = [] }

-- Of one entity, each entry of the log is newer than the entries before it.
abbrev pub IsAscending : {Json : Type 0} → List (OutboxRow Json) → Type 0
IsAscending [] = Unit
IsAscending (r ∷ log) =
    All (λ older. same_entity older r ≡ true → older.enqueue_order < r.enqueue_order) log
    × IsAscending log

-- Every entry of the log is older than what of its entity is still to be published.
abbrev pub IsBehind : {Json : Type 0} → List (OutboxRow Json) → OutboxRow Json → Type 0
IsBehind log s =
    All (λ older. same_entity older s ≡ true → older.enqueue_order < s.enqueue_order) log

pub record IsSound {Json : Type 0} (s : System Json) : Type 0 where
  pub ordered : IsOrdered s.rows
  pub below : IsBelow s.next_order s.rows
  pub log_below : All (λ older. older.enqueue_order < s.next_order) s.log
  pub behind : (r : OutboxRow Json) → Memᴰ r s.rows → IsActive r → IsBehind s.log r
  pub ascending : IsAscending s.log
