-- ===== src/Outbox/Order/Deletes.antt =====
-- Purging keeps the order of the outbox.
use mathlib.Core.List.{Memᴰ}
use kafkaman.Base.{ℕ, ◌≡◌, Bool, List, inl, inr, arith, sym, subst, Option-cases}
use kafkaman.Base.Table.{delete_where, delete_where-mem}
use kafkaman.Failure.{ok}
use kafkaman.Core.Config.{PurgeConfig, validate_purge}
use kafkaman.Outbox.{OutboxRow}
use kafkaman.Outbox.Purge.{purge_outbox_once, is_victim, victims}
use kafkaman.Outbox.Order.{IsOrdered}

module _ {Json : Type 0} {rows : List (OutboxRow Json)} (i : IsOrdered rows) where
  pub delete-IsOrdered :
      {rows' : List (OutboxRow Json)}
      → ((r : OutboxRow Json) → Memᴰ r rows' → Memᴰ r rows)
      → IsOrdered rows'
  delete-IsOrdered old = record {
    one_row = λ r s mr ms. i.one_row r s (old r mr) (old s ms);
    one_ordinal = λ r s mr ms. i.one_ordinal r s (old r mr) (old s ms);
    one_in_flight = λ r s mr ms. i.one_in_flight r s (old r mr) (old s ms);
    in_flight_first = λ r s mr ms. i.in_flight_first r s (old r mr) (old s ms);
    published_first = λ r s mr ms. i.published_first r s (old r mr) (old s ms);
  }

-- Purging only deletes.
module _ {Json : Type 0} (now : ℕ) (cfg : PurgeConfig) (locked : OutboxRow Json → Bool)
    {rows : List (OutboxRow Json)} where
  pub purge-mem :
      {rows' : List (OutboxRow Json)} {n : ℕ}
      → purge_outbox_once now cfg locked rows ≡ ok (rows', n)
      → (r : OutboxRow Json) → Memᴰ r rows'
      → Memᴰ r rows
  unfolding purge_outbox_once
  purge-mem {rows'} {n} h r m = elim (Option-cases (validate_purge cfg)) [
    | inr (e, bad) ↦ absurd (cc (rw (bad, purge_outbox_once) at h))
    | inl good ↦
        let doomed = is_victim (victims now cfg locked rows) in
        let same : delete_where doomed rows ≡ rows' = ground arith in
        (delete_where-mem doomed rows (subst (λ x. Memᴰ r x) (sym same) m)).0
  ]
