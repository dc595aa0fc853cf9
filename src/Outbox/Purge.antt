-- ===== src/Outbox/Purge.antt =====
-- crates/kafkaman-sqlx/src/outbox_purge.rs: reclaiming terminal rows.
use kafkaman.Base.{ℕ, Bool, List, ◌&&◌, ◌||◌, not, ◌+◌, ltb, ◌==◌, none, some, take}
use kafkaman.Base.Int.{pos_part}
use kafkaman.Base.Table.{select_where, delete_where, exists_where, count_where}
use kafkaman.Base.Sort.{sort_by}
use kafkaman.Core.Status.{OutboxStatus}
use kafkaman.Core.Config.{PurgeConfig, validate_purge}
use kafkaman.Failure.{Result, ok, err, core}
use kafkaman.Outbox.{OutboxRow, has_status}

module _ {Json : Type 0} where
  -- `ORDER BY created_at`.
  unfoldable pub order_created : List (OutboxRow Json) → List (OutboxRow Json)
  unfolding sort_by
  order_created rows = sort_by (λ r. r.created_at) rows

  -- `status IN (…) AND created_at < now() - older_than`, the difference taken on the other side.
  unfoldable pub is_reclaimable : ℕ → PurgeConfig → OutboxRow Json → Bool
  is_reclaimable now cfg r =
      (has_status OutboxStatus.published r
        || (has_status OutboxStatus.superseded r
            || cfg.include_failed && has_status OutboxStatus.failed r))
      && ltb (r.created_at + cfg.older_than) now

  unfoldable pub victims :
      ℕ → PurgeConfig → (OutboxRow Json → Bool) → List (OutboxRow Json) → List (OutboxRow Json)
  unfolding is_reclaimable order_created select_where
  victims now cfg locked rows = take (pos_part cfg.batch_size) (
      select_where (λ r. not (locked r))
        (order_created (select_where (is_reclaimable now cfg) rows)))

  unfoldable pub is_victim : List (OutboxRow Json) → OutboxRow Json → Bool
  unfolding exists_where
  is_victim vs t = exists_where (λ v. t.message_id == v.message_id) vs

  -- `purge_outbox_once`: the new table and `PurgeStats.deleted`.
  unfoldable pub purge_outbox_once :
      ℕ
      → PurgeConfig
      → (OutboxRow Json → Bool)
      → List (OutboxRow Json)
      → Result (List (OutboxRow Json) × ℕ)
  purge_outbox_once now cfg locked rows = elim (validate_purge cfg) [
    | some e ↦ err (core e)
    | none ↦
        let doomed = is_victim (victims now cfg locked rows) in
        ok (delete_where doomed rows, count_where doomed rows)
  ]
