-- ===== src/Outbox/Claim.antt =====
-- crates/kafkaman-sqlx/src/outbox_claim.rs: taking rows out of an outbox for publication.
use kafkaman.Base.{
  ℕ, ◌+◌, String, Bool, true, false, Option, none, some, List, ◌&&◌, ◌||◌, not, ◌==◌, ltb, leb,
  take,
}
use kafkaman.Base.Table.{update_where, exists_where, select_where}
use kafkaman.Base.Sort.{sort_by}
use kafkaman.Core.Status.{OutboxStatus}
use kafkaman.Outbox.{OutboxRow, sql_text_eq, same_entity, has_status}

abbrev is_null : Option String → Bool
is_null none = true
is_null (some _) = false

-- `claim_expires_at <= now()`.
abbrev expired_at : ℕ → Option ℕ → Bool
expired_at now none = false
expired_at now (some t) = leb t now

module _ {Json : Type 0} where
  -- `EXISTS (… entity_key = candidate.entity_key AND status = 'Publishing')`.
  unfoldable pub in_flight : List (OutboxRow Json) → OutboxRow Json → Bool
  unfolding exists_where sql_text_eq
  in_flight rows c =
      exists_where (λ i. same_entity i c && has_status OutboxStatus.publishing i) rows

  -- `EXISTS (… status = 'Pending' AND newer.enqueue_order > candidate.enqueue_order)`.
  unfoldable pub overtaken : List (OutboxRow Json) → OutboxRow Json → Bool
  unfolding exists_where sql_text_eq
  overtaken rows c =
      exists_where
        (λ n.
          same_entity n c
          && (has_status OutboxStatus.pending n && ltb c.enqueue_order n.enqueue_order))
        rows

  unfoldable pub is_candidate : ℕ → List (OutboxRow Json) → OutboxRow Json → Bool
  unfolding in_flight overtaken
  is_candidate now rows c =
      has_status OutboxStatus.pending c
        && (leb c.next_attempt_at now
            && ((is_null c.entity_key || not (in_flight rows c)) && not (overtaken rows c)))
      || has_status OutboxStatus.publishing c && expired_at now c.claim_expires_at

  -- `ORDER BY enqueue_order`.
  unfoldable pub order_rows : List (OutboxRow Json) → List (OutboxRow Json)
  unfolding sort_by
  order_rows rows = sort_by (λ r. r.enqueue_order) rows

  -- The `candidates` of the claim. `locked` says which rows another session holds: `SKIP LOCKED`
  -- passes over them before `LIMIT` counts.
  unfoldable pub candidates :
      ℕ → ℕ → (OutboxRow Json → Bool) → List (OutboxRow Json) → List (OutboxRow Json)
  unfolding is_candidate order_rows select_where
  candidates now limit locked rows =
      take limit (
        select_where (λ r. not (locked r)) (order_rows (select_where (is_candidate now rows) rows)))

  unfoldable pub to_superseded : OutboxRow Json → OutboxRow Json
  to_superseded r = record r {
    status = OutboxStatus.superseded;
    claim_id = none;
    claimed_by = none;
    claim_expires_at = none;
    last_error = some "superseded by newer pending state for the same entity";
  }

  -- `stale.entity_key = c.entity_key AND stale.status = 'Pending' AND stale.enqueue_order <
  -- c.enqueue_order`, for some row `c` of the list.
  unfoldable pub stale_behind : List (OutboxRow Json) → OutboxRow Json → Bool
  unfolding exists_where sql_text_eq
  stale_behind heads s =
      exists_where
        (λ c.
          same_entity s c
          && (has_status OutboxStatus.pending s && ltb s.enqueue_order c.enqueue_order))
        heads

  -- `target.message_id = candidates.message_id`.
  unfoldable pub listed : List (OutboxRow Json) → OutboxRow Json → Bool
  unfolding exists_where
  listed heads t = exists_where (λ c. t.message_id == c.message_id) heads

  unfoldable pub to_claimed : ℕ → ℕ → ℕ → String → OutboxRow Json → OutboxRow Json
  to_claimed now lease_for claim_id worker_id r = record r {
    status = OutboxStatus.publishing;
    attempts = r.attempts + 1;
    claim_id = some claim_id;
    claimed_by = some worker_id;
    claim_expires_at = some (now + lease_for);
  }

  -- The claim statement. Its two updates read one snapshot: both conditions are over the same
  -- `candidates`.
  unfoldable pub claim_rows :
      ℕ
      → ℕ
      → (OutboxRow Json → Bool)
      → ℕ
      → ℕ
      → String
      → List (OutboxRow Json)
      → List (OutboxRow Json)
  claim_rows now limit locked lease_for claim_id worker_id rows =
      let heads = candidates now limit locked rows in
      update_where (listed heads) (to_claimed now lease_for claim_id worker_id)
        (update_where (stale_behind heads) to_superseded rows)

  -- `collapse_stale_pending_rows`: the due rows that are newest of their entity, with no publication
  -- in flight, and the statement that supersedes what stands behind them.
  unfoldable pub is_head : ℕ → List (OutboxRow Json) → OutboxRow Json → Bool
  unfolding in_flight overtaken
  is_head now rows c =
      has_status OutboxStatus.pending c
      && (leb c.next_attempt_at now
          && (not (is_null c.entity_key) && (not (in_flight rows c) && not (overtaken rows c))))

  unfoldable pub collapse_stale_pending_rows : ℕ → ℕ → List (OutboxRow Json) → List (OutboxRow Json)
  unfolding is_head order_rows select_where stale_behind to_superseded update_where
  collapse_stale_pending_rows now limit rows =
      update_where (stale_behind (take limit (order_rows (select_where (is_head now rows) rows))))
        to_superseded rows

  -- `claim_batch`. `meanwhile` is what other sessions commit between the two statements. The rows
  -- that come back are those of the claim, in the order of `enqueue_order`; an error of a statement, or
  -- of the decoding of a row, is the caller's `claim_fault`.
  unfoldable pub claim_batch :
      (List (OutboxRow Json) → List (OutboxRow Json))
      → ℕ
      → ℕ
      → (OutboxRow Json → Bool)
      → ℕ
      → ℕ
      → String
      → List (OutboxRow Json)
      → List (OutboxRow Json) × List (OutboxRow Json)
  unfolding collapse_stale_pending_rows claim_rows listed to_claimed candidates
  claim_batch meanwhile now limit locked lease_for claim_id worker_id rows =
      let seen = meanwhile (collapse_stale_pending_rows now limit rows) in
      let rows' = claim_rows now limit locked lease_for claim_id worker_id seen in
      (rows', order_rows (select_where (listed (candidates now limit locked seen)) rows'))
