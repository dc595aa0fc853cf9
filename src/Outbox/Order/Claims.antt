-- ===== src/Outbox/Order/Claims.antt =====
-- Claiming keeps the order of the outbox.
use mathlib.Core.List.{Memᴰ}
use kafkaman.Base.{
  ℕ, ◌≡◌, ◌≢◌, ◌&&◌, ltb, ◌==◌, subst, sym, ap, ◌∙◌, Bool, true, false, List, ◌⊎◌, inl, inr, arith,
  String, if◌then◌else◌, Bool-cases, ==_iff,
}
use kafkaman.Base.Table.{update_where-mem, exists_where-mem, mem-exists_where}
use kafkaman.Core.Status.{OutboxStatus}
use kafkaman.Outbox.{OutboxRow, sql_text_eq_symm, same_entity, has_status}
use kafkaman.Outbox.Claim.{
  is_candidate, candidates, to_superseded, stale_behind, listed, to_claimed, claim_rows,
}
use kafkaman.Outbox.Order.{IsActive, IsOrdered}
use kafkaman.Outbox.Order.Image.{KeepsIdentity, IsOrdered-image}
use kafkaman.Outbox.Order.Candidates.{
  candidates-mem, candidate-IsActive, candidate-in_flight, candidate-newest, candidates_agree,
}

-- The claim statement, row by row.
module _ {Json : Type 0} (now limit : ℕ) (locked : OutboxRow Json → Bool) (lease_for claim_id : ℕ)
    (worker_id : String) {rows : List (OutboxRow Json)} (i : IsOrdered rows) where
  abbrev heads : List (OutboxRow Json)
  heads = candidates now limit locked rows

  abbrev superseded_row : OutboxRow Json → OutboxRow Json
  superseded_row r = if stale_behind heads r then to_superseded r else r

  pub claimed_row : OutboxRow Json → OutboxRow Json
  claimed_row r =
      if listed heads (superseded_row r)
      then to_claimed now lease_for claim_id worker_id (superseded_row r)
      else superseded_row r

  pub claimed_row-KeepsIdentity : KeepsIdentity claimed_row
  unfolding claimed_row to_superseded to_claimed
  claimed_row-KeepsIdentity = record {
    id = λ r. ground arith;
    ordinal = λ r. ground arith;
    entity = λ r. ground arith;
  }

  -- A row of the table that is listed is itself a candidate.
  listed-is_candidate :
      (r : OutboxRow Json) → Memᴰ r rows → listed heads r ≡ true → is_candidate now rows r ≡ true
  unfolding listed
  listed-is_candidate r mr h =
      let (c, mc, e) = exists_where-mem (λ x. r.message_id == x.message_id) heads h in
      let (old, fit, free) = candidates-mem now limit locked rows mc in
      subst (λ x. is_candidate now rows x ≡ true)
        (sym (i.one_row r c mr old ((==_iff r.message_id c.message_id).0 e))) fit

  listed-superseded_row : (r : OutboxRow Json) → listed heads (superseded_row r) ≡ listed heads r
  unfolding to_superseded
  listed-superseded_row r = same_id (superseded_row r) r (ground arith)
    where
      same_id :
          (a b : OutboxRow Json) → a.message_id ≡ b.message_id → listed heads a ≡ listed heads b
      same_id a b e = unfold listed in rw e

  -- No row is both claimed and superseded: the two updates of the statement touch disjoint rows.
  pub claim_disjoint :
      (r : OutboxRow Json) → Memᴰ r rows → listed heads r ≡ true → stale_behind heads r ≡ false
  unfolding stale_behind
  claim_disjoint r mr h = elim (Bool-cases (stale_behind heads r)) [
    | inr e ↦ e
    | inl e ↦
        let (c, mc, q) = exists_where-mem _ heads e in
        let (old, fit, free) = candidates-mem now limit locked rows mc in
        ground (arith, candidates_agree now i r c mr old, listed-is_candidate r mr h)
  ]

  pub claim_rows-mem :
      (r' : OutboxRow Json)
      → Memᴰ r' (claim_rows now limit locked lease_for claim_id worker_id rows)
      → (r : OutboxRow Json) × Memᴰ r rows × (r' ≡ claimed_row r)
  unfolding claim_rows claimed_row
  claim_rows-mem r' m =
      let (t, mt, p) =
        update_where-mem (listed heads) (to_claimed now lease_for claim_id worker_id) _ m in
      let (r, mr, q) = update_where-mem (stale_behind heads) to_superseded rows mt in
      (
        r,
        mr,
        p ∙ ap (λ x. if listed heads x then to_claimed now lease_for claim_id worker_id x else x) q,
      )

  claimed_row-publishing :
      (r : OutboxRow Json)
      → (claimed_row r).status ≡ OutboxStatus.publishing
      → (listed heads r ≡ true) ⊎ (r.status ≡ OutboxStatus.publishing)
  unfolding claimed_row to_superseded to_claimed
  claimed_row-publishing r h = ground (arith, listed-superseded_row r)

  -- What stays pending was pending, and is neither claimed nor superseded.
  claimed_row-pending :
      (r : OutboxRow Json)
      → (claimed_row r).status ≡ OutboxStatus.pending
      → (listed heads r ≡ false)
        × (stale_behind heads r ≡ false)
        × (r.status ≡ OutboxStatus.pending)
  unfolding claimed_row to_superseded to_claimed
  claimed_row-pending r h = ground (arith, listed-superseded_row r)

  claimed_row-published :
      (r : OutboxRow Json)
      → (claimed_row r).status ≡ OutboxStatus.published
      → r.status ≡ OutboxStatus.published
  unfolding claimed_row to_superseded to_claimed
  claimed_row-published r h = ground (arith, listed-superseded_row r)

  pub claimed_row-IsActive :
      (r : OutboxRow Json) → Memᴰ r rows → IsActive (claimed_row r) → IsActive r
  claimed_row-IsActive r mr h = ground (
    arith,
    claimed_row-publishing r,
    claimed_row-pending r,
    listed-is_candidate r mr,
    candidate-IsActive now rows r,
  )

  -- A claimed row that was pending is newer than all that stay pending.
  claimed_first :
      (r s : OutboxRow Json)
      → Memᴰ r rows
      → Memᴰ s rows
      → same_entity r s ≡ true
      → listed heads r ≡ true
      → r.status ≡ OutboxStatus.pending
      → listed heads s ≡ false
      → s.status ≡ OutboxStatus.pending
      → stale_behind heads s ≢ false
  unfolding listed stale_behind
  claimed_first r s mr ms e lr pr ls ps h =
      let (c, mc, q) = exists_where-mem (λ x. r.message_id == x.message_id) heads lr in
      let (old, fit, free) = candidates-mem now limit locked rows mc in
      let same : r ≡ c = i.one_row r c mr old ((==_iff r.message_id c.message_id).0 q) in
      ground (
        arith,
        mem-exists_where
            (λ x.
              same_entity s x
              && (has_status OutboxStatus.pending s && ltb s.enqueue_order x.enqueue_order))
            mc,
        candidate-newest now r s ms e (unfold listed in listed-is_candidate r mr lr) pr ps,
        i.one_ordinal r s mr ms,
        sql_text_eq_symm r.entity_key s.entity_key e,
      )

  -- A claim keeps the order of the outbox.
  pub claim_rows-IsOrdered :
      IsOrdered (claim_rows now limit locked lease_for claim_id worker_id rows)
  claim_rows-IsOrdered =
      IsOrdered-image i claimed_row claimed_row-KeepsIdentity claim_rows-mem
        (λ r s mr ms e a b. ground (
          arith,
          claimed_row-publishing r a,
          claimed_row-publishing s b,
          listed-is_candidate r mr,
          listed-is_candidate s ms,
          candidate-IsActive now rows r,
          candidate-IsActive now rows s,
          candidates_agree now i r s mr ms e,
          candidate-in_flight now r s ms e,
          candidate-in_flight now s r mr (sql_text_eq_symm r.entity_key s.entity_key e),
          i.one_in_flight r s mr ms e,
        ))
        (λ r s mr ms e a b. ground (
          arith,
          claimed_row-publishing r a,
          claimed_row-pending s b,
          listed-is_candidate r mr,
          candidate-IsActive now rows r,
          claimed_first r s mr ms e,
          i.in_flight_first r s mr ms e,
        ))
        (λ r s mr ms e a b. ground (
          arith,
          claimed_row-published r a,
          claimed_row-IsActive s ms b,
          i.published_first r s mr ms e,
        ))
