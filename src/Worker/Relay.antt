-- ===== src/Worker/Relay.antt =====
-- crates/kafkaman-worker/src/relay.rs: one relay cycle, `relay_once_inner`. The claimed rows are
-- published one after the other, and each is marked before the next.
use kafkaman.Base.{ℕ, ◌+◌, Option, none, some, List, [], ◌∷◌, String, Bool, if◌then◌else◌, length}
use kafkaman.Base.Int.{pos_part}
use kafkaman.Core.Status.{MarkOutcome, updated, stale_claim}
use kafkaman.Core.Config.{RelayConfig, validate_relay}
use kafkaman.Failure.{SqlxError, Error, Result, ok, err, core, sqlx}
use kafkaman.Outbox.{OutboxRow}
use kafkaman.Outbox.Claim.{claim_batch}
use kafkaman.Outbox.Mark.{mark_published, mark_publish_failed}

pub record RelayStats : Type 0 where
  pub claimed : ℕ
  pub published : ℕ
  pub failed : ℕ
  pub stale : ℕ
  pub missing : ℕ

-- One cycle: the clocks, the identity of the claim, the rows that others hold, what others commit
-- between the statements, the faults, with whether a `COMMIT` or a mark took effect although it
-- failed, and what the publisher answers for a row, where `some` is the text of its error. A fault of
-- the claim may also be of the decoding of a row.
pub record RelayRun (Json : Type 0) : Type 0 where
  pub claim_at : ℕ
  pub mark_at : ℕ
  pub claim_id : ℕ
  pub locked : OutboxRow Json → Bool
  pub claim_fault : Option Error
  pub claim_landed : Bool
  pub mark_fault : OutboxRow Json → Option SqlxError
  pub mark_landed : OutboxRow Json → Bool
  pub publish : OutboxRow Json → Option String
  pub before_claim : List (OutboxRow Json) → List (OutboxRow Json)
  pub before_mark : OutboxRow Json → List (OutboxRow Json) → List (OutboxRow Json)

-- The count of one row, by what the publisher and the mark answered.
unfoldable pub tally : Option String → MarkOutcome → RelayStats → RelayStats
tally none updated stats = record stats { published = stats.published + 1 }
tally (some e) updated stats = record stats { failed = stats.failed + 1 }
tally p stale_claim stats = record stats { stale = stats.stale + 1 }
tally p MarkOutcome.missing stats = record stats { missing = stats.missing + 1 }

module _ {Json : Type 0} where
  unfoldable pub mark_row :
      RelayRun Json
      → RelayConfig
      → OutboxRow Json
      → Option String
      → List (OutboxRow Json)
      → List (OutboxRow Json) × MarkOutcome
  mark_row run cfg row none rows = mark_published run.mark_at row.message_id run.claim_id rows
  mark_row run cfg row (some description) rows =
      mark_publish_failed run.mark_at row.message_id run.claim_id description cfg.retry_after rows

  -- The loop over the claimed rows. A mark that fails ends it.
  unfoldable pub relay_rows :
      RelayRun Json
      → RelayConfig
      → List (OutboxRow Json)
      → RelayStats
      → List (OutboxRow Json)
      → Result RelayStats × List (OutboxRow Json)
  unfolding mark_row tally
  relay_rows run cfg [] stats rows = (ok stats, rows)
  relay_rows run cfg (row ∷ rest) stats rows =
      let seen = run.before_mark row rows in
      let (rows', outcome) = mark_row run cfg row (run.publish row) seen in
      let later = relay_rows run cfg rest (tally (run.publish row) outcome stats) rows' in
      elim (run.mark_fault row) [
        | some e ↦ (err (sqlx e), if run.mark_landed row then rows' else seen)
        | none ↦ later
      ]

  unfoldable pub relay_once :
      RelayRun Json
      → RelayConfig
      → List (OutboxRow Json)
      → Result RelayStats × List (OutboxRow Json)
  relay_once run cfg rows =
      let (rows', claimed) =
        claim_batch run.before_claim run.claim_at (pos_part cfg.batch_limit) run.locked
          cfg.lease_for run.claim_id cfg.worker_id rows in
      elim (validate_relay cfg) [
        | some e ↦ (err (core e), rows)
        | none ↦ elim run.claim_fault [
          | some e ↦ (err e, if run.claim_landed then rows' else rows)
          | none ↦
              relay_rows run cfg claimed
                (record {
                  claimed = length claimed;
                  published = 0;
                  failed = 0;
                  stale = 0;
                  missing = 0;
                })
                rows'
        ]
      ]
