-- ===== src/Outbox/Order/Sound.antt =====
-- In-place updates and the mark of a publication keep the system sound.
use mathlib.Core.List.{Memᴰ}
use kafkaman.Base.{
  ℕ, ◌+◌, ◌<◌, ◌≡◌, subst, true, false, List, [], ◌∷◌, inr, arith, Option, none, some, All,
  if◌then◌else◌,
}
use kafkaman.Base.Table.{find_where, find_where-mem, update_where-mem}
use kafkaman.Outbox.{OutboxRow, same_entity}
use kafkaman.Outbox.Mark.{holds_claim, to_published, mark_published}
use kafkaman.Outbox.Order.{IsActive, IsOrdered}
use kafkaman.Outbox.Order.Image.{KeepsIdentity, Descends, Descends-image}
use kafkaman.Outbox.Order.Marks.{holds_claim-publishing, mark_published-IsOrdered}
use kafkaman.Outbox.Order.System.{System, logged, IsBehind, IsSound}

module _ {Json : Type 0} where
  pub IsBehind-Descends :
      (log : List (OutboxRow Json)) (r' r : OutboxRow Json)
      → r'.entity_key ≡ r.entity_key
      → r'.enqueue_order ≡ r.enqueue_order
      → IsBehind log r
      → IsBehind log r'
  IsBehind-Descends [] r' r k o h = tt
  IsBehind-Descends (x ∷ log) r' r k o h =
      (λ e. ground (arith, h.0), IsBehind-Descends log r' r k o h.1)

  pub IsBehind-below :
      (log : List (OutboxRow Json)) (top : ℕ) (r : OutboxRow Json)
      → r.enqueue_order ≡ top
      → All (λ older. older.enqueue_order < top) log
      → IsBehind log r
  IsBehind-below [] top r e h = tt
  IsBehind-below (x ∷ log) top r e h = (λ _. ground arith, IsBehind-below log top r e h.1)

  pub log-weaken :
      (log : List (OutboxRow Json)) (top : ℕ)
      → All (λ older. older.enqueue_order < top) log
      → All (λ older. older.enqueue_order < top + 1) log
  log-weaken [] top h = tt
  log-weaken (x ∷ log) top h = (omega arith, log-weaken log top h.1)

-- A statement that updates rows in place, and logs nothing.
module _ {Json : Type 0} {s : System Json} (h : IsSound s) {rows' : List (OutboxRow Json)} where
  pub IsSound-update :
      IsOrdered rows'
      → ((r : OutboxRow Json) → Memᴰ r rows' → r.enqueue_order < s.next_order)
      → ((r : OutboxRow Json) → Memᴰ r rows' → IsActive r → Descends s.rows r)
      → IsSound (record s { rows = rows' })
  IsSound-update ordered below active = record {
    ordered = ordered;
    below = below;
    log_below = h.log_below;
    behind = λ r m a.
        let (old, mo, ao, k, o) = active r m a in
        IsBehind-Descends s.log r old k o (h.behind old mo ao);
    ascending = h.ascending;
  }

  pub IsSound-image :
      (u : OutboxRow Json → OutboxRow Json)
      → KeepsIdentity u
      → ((r' : OutboxRow Json) → Memᴰ r' rows' → (r : OutboxRow Json) × Memᴰ r s.rows × (r' ≡ u r))
      → ((r : OutboxRow Json) → Memᴰ r s.rows → IsActive (u r) → IsActive r)
      → IsOrdered rows'
      → IsSound (record s { rows = rows' })
  IsSound-image u k from active ordered =
      IsSound-update ordered
        (λ r m. let (old, mo, q) = from r m in ground (arith, h.below old mo, k.ordinal old))
        (Descends-image u k from active)

-- The mark of a publication: what held the claim is behind nothing that is still to be published.
module _ {Json : Type 0} {s : System Json} (h : IsSound s) (now m c : ℕ) where
  published_row : OutboxRow Json → OutboxRow Json
  published_row r = if holds_claim m c r then to_published now r else r

  abbrev after_mark : List (OutboxRow Json)
  after_mark = (mark_published now m c s.rows).0

  published_row-KeepsIdentity : KeepsIdentity published_row
  unfolding published_row to_published
  published_row-KeepsIdentity = record {
    id = λ r. ground arith;
    ordinal = λ r. ground arith;
    entity = λ r. ground arith;
  }

  after_mark-mem :
      (r' : OutboxRow Json)
      → Memᴰ r' after_mark
      → (r : OutboxRow Json) × Memᴰ r s.rows × (r' ≡ published_row r)
  unfolding mark_published published_row
  after_mark-mem r' k = update_where-mem (holds_claim m c) (to_published now) s.rows k

  published_row-IsActive :
      (r : OutboxRow Json) → IsActive (published_row r) → IsActive r × (holds_claim m c r ≡ false)
  unfolding published_row to_published
  published_row-IsActive r a = ground arith

  marked : IsSound (record s { rows = after_mark })
  marked =
      IsSound-image h published_row published_row-KeepsIdentity after_mark-mem
        (λ r k a. (published_row-IsActive r a).0) (mark_published-IsOrdered now m c h.ordered)

  -- The row that is logged was in flight, so that it is older than all that stay active.
  held_first :
      (held : OutboxRow Json)
      → Memᴰ held s.rows
      → holds_claim m c held ≡ true
      → (r' : OutboxRow Json) → Memᴰ r' after_mark
      → IsActive r'
      → same_entity held r' ≡ true
      → held.enqueue_order < r'.enqueue_order
  held_first held mh hh r' k a e =
      let (r, mr, q) = after_mark-mem r' k in
      let (active, free) = published_row-IsActive r (subst IsActive q a) in
      ground (
        arith,
        holds_claim-publishing m c held hh,
        published_row-KeepsIdentity.entity r,
        published_row-KeepsIdentity.ordinal r,
        h.ordered.one_in_flight held r mh mr,
        h.ordered.in_flight_first held r mh mr,
      )

  pub published-IsSound :
      (found : Option (OutboxRow Json))
      → find_where (holds_claim m c) s.rows ≡ found
      → IsSound (record s { rows = after_mark; log = logged found s.log })
  published-IsSound none e = marked
  published-IsSound (some held) e =
      let (mh, hh) = find_where-mem (holds_claim m c) s.rows e in
      let state = holds_claim-publishing m c held hh in
      record {
        ordered = marked.ordered;
        below = marked.below;
        log_below = (h.below held mh, h.log_below);
        behind = λ r k a. (held_first held mh hh r k a, marked.behind r k a);
        ascending = (h.behind held mh (inr state.0), h.ascending);
      }
