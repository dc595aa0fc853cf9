-- ===== src/Received/Claim.antt =====
-- Which row the claim of received_rows.rs takes.
use mathlib.Core.List.{Memᴰ}
use kafkaman.Base.{ℕ, ◌≤◌, Bool, true, false, none, some, List, ◌≡◌, refl, not, arith}
use kafkaman.Base.Table.{find_where-mem, find_where-none, select_where-mem, mem-select_where}
use kafkaman.Base.Sort.{sort_by-mem, mem-sort_by, sort_by-IsSorted, find_where-least}
use kafkaman.Received.{ReceivedRow}
use kafkaman.Received.Rows.{is_due, claim_received_row}

-- A row that a worker may take at this time.
pub record IsFree {Json : Type 0} (locked : ReceivedRow Json → Bool) (due_at : ℕ)
    (rows : List (ReceivedRow Json)) (r : ReceivedRow Json) : Type 0 where
  pub listed : Memᴰ r rows
  pub due : is_due due_at r ≡ true
  pub unlocked : locked r ≡ false

module _ {Json : Type 0} (locked : ReceivedRow Json → Bool) (due_at : ℕ)
    (rows : List (ReceivedRow Json)) where
  -- The claim takes a row that is there, is due and is locked by nobody, and of these the oldest.
  pub claim_oldest :
      (r : ReceivedRow Json)
      → claim_received_row locked due_at rows ≡ some r
      → IsFree locked due_at rows r
        × ((s : ReceivedRow Json) → IsFree locked due_at rows s → r.created_at ≤ s.created_at)
  unfolding claim_received_row
  claim_oldest r h =
      let (m, free) = find_where-mem (λ r. not (locked r)) _ h in
      let (listed, due) =
        select_where-mem (is_due due_at) rows (sort_by-mem (λ r. r.created_at) _ m) in
      (
        record { listed = listed; due = due; unlocked = ground arith },
        λ s i.
            find_where-least (λ r. r.created_at) (λ r. not (locked r)) _
              (sort_by-IsSorted (λ r. r.created_at) _) h
              (mem-sort_by (λ r. r.created_at) (mem-select_where (is_due due_at) i.listed i.due))
              (rw (i.unlocked) refl),
      )

  -- The claim comes back empty only when no row is free.
  pub claim_none :
      claim_received_row locked due_at rows ≡ none
      → (s : ReceivedRow Json) → ¬ IsFree locked due_at rows s
  unfolding claim_received_row
  claim_none h s i =
      let e =
        find_where-none (λ r. not (locked r))
          (mem-sort_by (λ r. r.created_at) (mem-select_where (is_due due_at) i.listed i.due)) h in
      absurd (ground (arith, e, i.unlocked))
