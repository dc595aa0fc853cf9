-- ===== src/Outbox/Order/Progress.antt =====
-- The claim makes progress.
use mathlib.Core.List.{Memᴰ}
use kafkaman.Base.{
  ℕ, zero, suc, ◌≤◌, ◌≡◌, ◌==◌, ==_iff, some, take, if◌then◌else◌, refl, Bool, true, false, not,
  List, arith, String,
}
use kafkaman.Base.Table.{
  mem-select_where, mem-exists_where, mem-update_where, take-mem, select_where-mem,
}
use kafkaman.Base.Sort.{mem-sort_by, sort_by-mem}
use kafkaman.Core.Status.{OutboxStatus}
use kafkaman.Outbox.{OutboxRow}
use kafkaman.Outbox.Claim.{
  is_candidate, order_rows, candidates, claim_rows, listed, to_claimed, to_superseded, stale_behind,
}

mem-take :
    {A : Type 0} (n : ℕ) {r : A} {xs : List A} → 1 ≤ n → Memᴰ r xs → (c : A) × Memᴰ c (take n xs)
mem-take zero h m = absurd (omega arith)
mem-take (suc n) h (Memᴰ.head {x} {xs} q) = (x, Memᴰ.head refl)
mem-take (suc n) h (Memᴰ.tail {x} {xs} m) = (x, Memᴰ.head refl)

module _ {Json : Type 0} (now limit : ℕ) (locked : OutboxRow Json → Bool) (lease_for claim_id : ℕ)
    (worker_id : String) (rows : List (OutboxRow Json)) where
  some_candidate :
      (r : OutboxRow Json)
      → Memᴰ r rows
      → is_candidate now rows r ≡ true
      → locked r ≡ false
      → 1 ≤ limit
      → (c : OutboxRow Json) × Memᴰ c (candidates now limit locked rows)
  unfolding candidates order_rows
  some_candidate r m e u h = mem-take limit h (
      mem-select_where (λ r. not (locked r))
        (mem-sort_by (λ r. r.enqueue_order) (mem-select_where (is_candidate now rows) m e))
        (rw u refl))

  candidate-listed : (c : OutboxRow Json) → Memᴰ c (candidates now limit locked rows) → Memᴰ c rows
  unfolding candidates order_rows
  candidate-listed c m =
      (select_where-mem (is_candidate now rows) rows (
        sort_by-mem (λ r. r.enqueue_order) _
          (select_where-mem (λ r. not (locked r)) _ (take-mem limit _ m)).0)).0

  -- The row of a candidate after the first update has the candidate's id.
  kept_id :
      (c : OutboxRow Json) (b : Bool) → (if b then to_superseded c else c).message_id ≡ c.message_id
  unfolding to_superseded
  kept_id c true = refl
  kept_id c false = refl

  -- If some candidate is not locked, a claim with a limit of one row or more takes a row: the table
  -- then has one in flight under this claim.
  pub claim_progresses :
      (r : OutboxRow Json)
      → Memᴰ r rows
      → is_candidate now rows r ≡ true
      → locked r ≡ false
      → 1 ≤ limit
      → (t : OutboxRow Json) × Memᴰ t
          (claim_rows now limit locked lease_for claim_id worker_id rows)
        × (t.status ≡ OutboxStatus.publishing)
        × (t.claim_id ≡ some claim_id)
  unfolding claim_rows listed to_claimed
  claim_progresses r m e u h =
      let (c, k) = some_candidate r m e u h in
      let heads = candidates now limit locked rows in
      let c' = if stale_behind heads c then to_superseded c else c in
      let first = mem-update_where (stale_behind heads) to_superseded (candidate-listed c k) in
      let claimed : listed heads c' ≡ true =
        mem-exists_where (λ d. c'.message_id == d.message_id) k
          ((==_iff c'.message_id c.message_id).1 (kept_id c (stale_behind heads c))) in
      let second =
        rw claimed at
          (mem-update_where (listed heads) (to_claimed now lease_for claim_id worker_id) first) in
      (to_claimed now lease_for claim_id worker_id c', second, refl, refl)
