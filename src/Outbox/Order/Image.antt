-- ===== src/Outbox/Order/Image.antt =====
-- A statement that updates rows in place keeps the order of the outbox, if three conditions on each
-- two rows of the old table hold.
use mathlib.Core.List.{Memᴰ}
use kafkaman.Base.{ap, ◌∙◌, subst, ◌<◌, ◌≡◌, true, List, arith}
use kafkaman.Core.Status.{OutboxStatus}
use kafkaman.Outbox.{OutboxRow, same_entity}
use kafkaman.Outbox.Order.{IsActive, IsOrdered}

-- The update keeps the identity of a row.
pub record KeepsIdentity {Json : Type 0} (u : OutboxRow Json → OutboxRow Json) : Type 0 where
  pub id : (r : OutboxRow Json) → (u r).message_id ≡ r.message_id
  pub ordinal : (r : OutboxRow Json) → (u r).enqueue_order ≡ r.enqueue_order
  pub entity : (r : OutboxRow Json) → (u r).entity_key ≡ r.entity_key

module _ {Json : Type 0} {rows rows' : List (OutboxRow Json)} (i : IsOrdered rows)
    (u : OutboxRow Json → OutboxRow Json) (k : KeepsIdentity u)
    (from : (r' : OutboxRow Json)
      → Memᴰ r' rows'
      → (r : OutboxRow Json) × Memᴰ r rows × (r' ≡ u r)) where
  pub IsOrdered-image :
      ((r s : OutboxRow Json)
        → Memᴰ r rows
        → Memᴰ s rows
        → same_entity r s ≡ true
        → (u r).status ≡ OutboxStatus.publishing
        → (u s).status ≡ OutboxStatus.publishing
        → r ≡ s)
      → ((r s : OutboxRow Json)
          → Memᴰ r rows
          → Memᴰ s rows
          → same_entity r s ≡ true
          → (u r).status ≡ OutboxStatus.publishing
          → (u s).status ≡ OutboxStatus.pending
          → r.enqueue_order < s.enqueue_order)
      → ((r s : OutboxRow Json)
          → Memᴰ r rows
          → Memᴰ s rows
          → same_entity r s ≡ true
          → (u r).status ≡ OutboxStatus.published
          → IsActive (u s)
          → r.enqueue_order < s.enqueue_order)
      → IsOrdered rows'
  IsOrdered-image flight first published = record {
    one_row = λ r' s' mr ms e.
        let (r, m1, q1) = from r' mr in
        let (s, m2, q2) = from s' ms in ground (arith, i.one_row r s m1 m2, k.id r, k.id s);
    one_ordinal = λ r' s' mr ms e.
        let (r, m1, q1) = from r' mr in
        let (s, m2, q2) = from s' ms in
        ground (arith, i.one_ordinal r s m1 m2, k.ordinal r, k.ordinal s);
    one_in_flight = λ r' s' mr ms e a b.
        let (r, m1, q1) = from r' mr in
        let (s, m2, q2) = from s' ms in ground (arith, flight r s m1 m2, k.entity r, k.entity s);
    in_flight_first = λ r' s' mr ms e a b.
        let (r, m1, q1) = from r' mr in
        let (s, m2, q2) = from s' ms in
        ground (arith, first r s m1 m2, k.entity r, k.entity s, k.ordinal r, k.ordinal s);
    published_first = λ r' s' mr ms e a b.
        let (r, m1, q1) = from r' mr in
        let (s, m2, q2) = from s' ms in
        ground (arith, published r s m1 m2, k.entity r, k.entity s, k.ordinal r, k.ordinal s);
  }

-- An active row of the new table is, but for what no ordering reads, an active row of the old one.
abbrev pub Descends : {Json : Type 0} → List (OutboxRow Json) → OutboxRow Json → Type 0
Descends {Json} rows r' =
    (r : OutboxRow Json) × Memᴰ r rows
    × IsActive r
    × (r'.entity_key ≡ r.entity_key)
    × (r'.enqueue_order ≡ r.enqueue_order)

module _ {Json : Type 0} {rows rows' : List (OutboxRow Json)} (u : OutboxRow Json → OutboxRow Json)
    (k : KeepsIdentity u)
    (from : (r' : OutboxRow Json)
      → Memᴰ r' rows'
      → (r : OutboxRow Json) × Memᴰ r rows × (r' ≡ u r)) where
  pub Descends-image :
      ((r : OutboxRow Json) → Memᴰ r rows → IsActive (u r) → IsActive r)
      → (r' : OutboxRow Json) → Memᴰ r' rows'
      → IsActive r'
      → Descends rows r'
  Descends-image keep r' m a =
      let (r, mr, q) = from r' m in
      (
        r,
        mr,
        keep r mr (subst IsActive q a),
        ap (λ x. x.entity_key) q ∙ k.entity r,
        ap (λ x. x.enqueue_order) q ∙ k.ordinal r,
      )
