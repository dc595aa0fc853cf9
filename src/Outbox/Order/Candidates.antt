-- ===== src/Outbox/Order/Candidates.antt =====
-- The candidates of a claim: what `is_candidate` says of an entity's rows.
use mathlib.Core.List.{Memᴰ}
use kafkaman.Base.{ℕ, ◌≤◌, ◌≡◌, ◌≢◌, ◌&&◌, ltb, Bool, true, false, List, arith, not, if◌then◌else◌}
use kafkaman.Base.Table.{
  update_where, update_where-mem, exists_where-mem, mem-exists_where, select_where-mem, take-mem,
}
use kafkaman.Base.Sort.{sort_by-mem}
use kafkaman.Core.Status.{OutboxStatus}
use kafkaman.Outbox.{OutboxRow, sql_text_eq, sql_text_eq_symm, same_entity, has_status}
use kafkaman.Outbox.Claim.{is_candidate, order_rows, candidates, to_superseded, stale_behind}
use kafkaman.Outbox.Order.{IsActive, IsOrdered}
use kafkaman.Outbox.Order.Image.{IsOrdered-image}

module _ {Json : Type 0} where
  -- What stands behind a row of the list was pending.
  pub stale_behind-pending :
      (heads : List (OutboxRow Json)) (s : OutboxRow Json)
      → stale_behind heads s ≡ true
      → s.status ≡ OutboxStatus.pending
  unfolding stale_behind
  stale_behind-pending heads s h = let (c, m, e) = exists_where-mem _ heads h in ground arith

  pub candidate-IsActive :
      (now : ℕ) (rows : List (OutboxRow Json)) (c : OutboxRow Json)
      → is_candidate now rows c ≡ true
      → IsActive c
  unfolding is_candidate
  candidate-IsActive now rows c f = ground arith

  pub candidates-mem :
      (now limit : ℕ) (locked : OutboxRow Json → Bool) (rows : List (OutboxRow Json))
      {r : OutboxRow Json}
      → Memᴰ r (candidates now limit locked rows)
      → Memᴰ r rows × (is_candidate now rows r ≡ true) × (locked r ≡ false)
  unfolding candidates order_rows
  candidates-mem now limit locked rows m =
      let (ordered, free) = select_where-mem (λ c. not (locked c)) _ (take-mem limit _ m) in
      let (old, fit) = select_where-mem (is_candidate now rows) rows (sort_by-mem _ _ ordered) in
      (old, fit, ground arith)

-- Superseding rows that stand behind others keeps the order of the outbox.
module _ {Json : Type 0} {rows : List (OutboxRow Json)} (i : IsOrdered rows) where
  pub stale_behind-IsOrdered :
      (heads : List (OutboxRow Json))
      → IsOrdered (update_where (stale_behind heads) to_superseded rows)
  unfolding to_superseded
  stale_behind-IsOrdered heads =
      IsOrdered-image i (λ r. if stale_behind heads r then to_superseded r else r)
        (record { id = λ r. ground arith; ordinal = λ r. ground arith; entity = λ r. ground arith })
        (λ r' mr. update_where-mem (stale_behind heads) to_superseded rows mr)
        (λ r s mr ms e a b. ground (arith, i.one_in_flight r s mr ms))
        (λ r s mr ms e a b. ground (arith, i.in_flight_first r s mr ms))
        (λ r s mr ms e a b. ground (arith, i.published_first r s mr ms))

-- A pending candidate has no sibling in flight, and none newer that is pending.
module _ {Json : Type 0} (now : ℕ) {rows : List (OutboxRow Json)} where
  pub candidate-in_flight :
      (c s : OutboxRow Json)
      → Memᴰ s rows
      → same_entity c s ≡ true
      → is_candidate now rows c ≡ true
      → c.status ≡ OutboxStatus.pending
      → s.status ≢ OutboxStatus.publishing
  unfolding is_candidate sql_text_eq
  candidate-in_flight c s ms e f p q = ground (
    arith,
    sql_text_eq_symm c.entity_key s.entity_key,
    mem-exists_where (λ x. same_entity x c && has_status OutboxStatus.publishing x) ms,
  )

  pub candidate-newest :
      (c s : OutboxRow Json)
      → Memᴰ s rows
      → same_entity c s ≡ true
      → is_candidate now rows c ≡ true
      → c.status ≡ OutboxStatus.pending
      → s.status ≡ OutboxStatus.pending
      → s.enqueue_order ≤ c.enqueue_order
  unfolding is_candidate
  candidate-newest c s ms e f p q = ground (
    arith,
    sql_text_eq_symm c.entity_key s.entity_key,
    mem-exists_where
        (λ x.
          same_entity x c
          && (has_status OutboxStatus.pending x && ltb c.enqueue_order x.enqueue_order))
        ms,
  )

  pub candidates_agree :
      IsOrdered rows
      → (r s : OutboxRow Json) → Memᴰ r rows
      → Memᴰ s rows
      → same_entity r s ≡ true
      → is_candidate now rows r ≡ true
      → is_candidate now rows s ≡ true
      → r ≡ s
  candidates_agree i r s mr ms e a b = ground (
    arith,
    sql_text_eq_symm r.entity_key s.entity_key,
    candidate-IsActive now rows r a,
    candidate-IsActive now rows s b,
    candidate-in_flight r s ms e a,
    candidate-in_flight s r mr,
    candidate-newest r s ms e a,
    candidate-newest s r mr,
    i.one_in_flight r s mr ms,
    i.one_ordinal r s mr ms,
  )
