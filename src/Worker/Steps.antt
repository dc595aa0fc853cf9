-- ===== src/Worker/Steps.antt =====
-- A relay cycle is a sequence of the steps that Outbox/Order is about.
use kafkaman.Base.{
  ℕ, if_elim, ◌≡◌, refl, ap, ◌∙◌, Option, none, some, List, [], ◌∷◌, String, option_elim,
}
use kafkaman.Base.Int.{pos_part}
use kafkaman.Core.Config.{RelayConfig, validate_relay}
use kafkaman.Failure.{Result}
use kafkaman.Outbox.{OutboxRow}
use kafkaman.Outbox.Claim.{claim_batch, claim_rows, collapse_stale_pending_rows}
use kafkaman.Outbox.Order.System.{
  System, Step, logged, collapse, claim, publish, fail, Reach, here, next,
}
use kafkaman.Outbox.Mark.{holds_claim, mark_published, mark_publish_failed}
use kafkaman.Base.Table.{find_where}
use kafkaman.Worker.Relay.{RelayStats, RelayRun, mark_row, relay_rows, relay_once}

module _ {Json : Type 0} where
  Reach-trans : {s t u : System Json} → Reach s t → Reach t u → Reach s u
  Reach-trans r here = r
  Reach-trans r (next q step) = next (Reach-trans r q) step

  -- What is left in the table is what some steps leave.
  abbrev pub IsReached : System Json → List (OutboxRow Json) → Type 0
  IsReached s rows = (t : System Json) × Reach s t × (t.rows ≡ rows)

  -- The outbox after the mark of a row that was published, or not: a step.
  abbrev pub after_mark :
      RelayRun Json → RelayConfig → OutboxRow Json → Option String → System Json → System Json
  after_mark run cfg row none s = record s {
    rows = (mark_published run.mark_at row.message_id run.claim_id s.rows).0;
    log = logged (find_where (holds_claim row.message_id run.claim_id) s.rows) s.log;
  }
  after_mark run cfg row (some e) s = record s {
    rows = (mark_publish_failed run.mark_at row.message_id run.claim_id e cfg.retry_after s.rows).0;
  }

  mark_step :
      (run : RelayRun Json) (cfg : RelayConfig) (row : OutboxRow Json) (p : Option String)
      (s : System Json)
      → Step s (after_mark run cfg row p s)
  mark_step run cfg row none s = publish s run.mark_at row.message_id run.claim_id
  mark_step run cfg row (some e) s =
      fail s run.mark_at row.message_id run.claim_id e cfg.retry_after

  mark_row-after_mark :
      (run : RelayRun Json) (cfg : RelayConfig) (row : OutboxRow Json) (p : Option String)
      (s : System Json)
      → (after_mark run cfg row p s).rows ≡ (mark_row run cfg row p s.rows).0
  unfolding mark_row
  mark_row-after_mark run cfg row none s = refl
  mark_row-after_mark run cfg row (some e) s = refl

-- A run of the marks of the claimed rows, from a state of the outbox: what other sessions commit
-- ahead of each mark is a sequence of steps, enqueues with the next ordinals among them.
pub data Marks {Json : Type 0} (run : RelayRun Json) (cfg : RelayConfig)
    : List (OutboxRow Json) → System Json → Type 0 where
  marked : (s : System Json) → Marks run cfg [] s
  shared :
      (row : OutboxRow Json) (rest : List (OutboxRow Json)) (s t : System Json)
      → Reach s t
      → t.rows ≡ run.before_mark row s.rows
      → Marks run cfg rest (after_mark run cfg row (run.publish row) t)
      → Marks run cfg (row ∷ rest) s

module _ {Json : Type 0} (run : RelayRun Json) (cfg : RelayConfig) where
  abbrev limit : ℕ
  limit = pos_part cfg.batch_limit

  abbrev pub collapsed : System Json → System Json
  collapsed s = record s { rows = collapse_stale_pending_rows run.claim_at limit s.rows }

  abbrev pub with_claim : System Json → System Json
  with_claim s = record s {
    rows = claim_rows run.claim_at limit run.locked cfg.lease_for run.claim_id cfg.worker_id s.rows;
  }

  abbrev pub claim_of : System Json → List (OutboxRow Json) × List (OutboxRow Json)
  claim_of s =
      claim_batch run.before_claim run.claim_at limit run.locked cfg.lease_for run.claim_id
        cfg.worker_id s.rows

  -- A cycle among other sessions: what they commit between its statements is steps.
  pub record IsInterleaved (s : System Json) : Type 0 where
    pub meanwhile : System Json
    pub reached : Reach (collapsed s) meanwhile
    pub committed : meanwhile.rows ≡ run.before_claim (collapsed s).rows
    pub marks : Marks run cfg (claim_of s).1 (with_claim meanwhile)

  relay_rows-IsReached :
      {claimed : List (OutboxRow Json)} {s : System Json} (stats : RelayStats)
      (rows : List (OutboxRow Json))
      → s.rows ≡ rows
      → Marks run cfg claimed s
      → IsReached s (relay_rows run cfg claimed stats rows).1
  unfolding relay_rows
  relay_rows-IsReached stats rows e (marked s) = (s, here, e)
  relay_rows-IsReached stats rows e (shared row rest s t r c later) =
      option_elim (λ (p : Result RelayStats × List (OutboxRow Json)). IsReached s p.1)
        (run.mark_fault row)
        (λ q.
          let (u, w, g) = relay_rows-IsReached _ _ after later in
          (u, Reach-trans (next r step) w, g))
        (λ f q.
          if_elim (IsReached s) (run.mark_landed row) (λ l. (_, next r step, after))
            (λ l. (t, r, seen)))
    where
      step : Step t (after_mark run cfg row (run.publish row) t)
      step = mark_step run cfg row (run.publish row) t

      seen : t.rows ≡ run.before_mark row rows
      seen = c ∙ ap (run.before_mark row) e

      after :
          (after_mark run cfg row (run.publish row) t).rows
          ≡ (mark_row run cfg row (run.publish row) (run.before_mark row rows)).0
      after =
          mark_row-after_mark run cfg row (run.publish row) t
          ∙ ap (λ x. (mark_row run cfg row (run.publish row) x).0) seen

  -- However a relay cycle ends, what it leaves in the outbox is what a sequence of steps leaves, if
  -- what other sessions commit in between is steps: the order of publications holds for it.
  pub relay_once-IsReached :
      (s : System Json) → IsInterleaved s → IsReached s (relay_once run cfg s.rows).1
  unfolding relay_once claim_batch
  relay_once-IsReached s others =
      option_elim (λ (p : Result RelayStats × List (OutboxRow Json)). IsReached s p.1)
        (validate_relay cfg)
        (λ v.
          option_elim (λ (p : Result RelayStats × List (OutboxRow Json)). IsReached s p.1)
            run.claim_fault
            (λ q.
              let (u, w, g) = relay_rows-IsReached _ _ rows others.marks in
              (u, Reach-trans claimed w, g))
            (λ f q.
              if_elim (IsReached s) run.claim_landed (λ l. (_, claimed, rows))
                (λ l. (s, here, refl))))
        (λ f v. (s, here, refl))
    where
      claimed : Reach s (with_claim others.meanwhile)
      claimed = next (Reach-trans (next here (collapse s run.claim_at limit)) others.reached) (
          claim others.meanwhile run.claim_at limit run.locked cfg.lease_for run.claim_id
            cfg.worker_id)

      rows : (with_claim others.meanwhile).rows ≡ (claim_of s).0
      rows =
          ap (claim_rows run.claim_at limit run.locked cfg.lease_for run.claim_id cfg.worker_id)
            others.committed
