-- ===== src/Worker/Publishing.antt =====
-- What a relay cycle counts and does.
use kafkaman.Base.{
  ℕ, suc, ◌+◌, ◌≡◌, refl, sym, ap, ◌∙◌, Option, none, some, List, [], ◌∷◌, String, length, arith,
  option_elim,
}
use kafkaman.Base.Int.{pos_part}
use kafkaman.Core.Status.{MarkOutcome, updated, stale_claim}
use kafkaman.Core.Config.{RelayConfig, validate_relay}
use kafkaman.Failure.{Result, ok, err}
use kafkaman.Outbox.{OutboxRow}
use kafkaman.Outbox.Claim.{claim_batch}
use kafkaman.Worker.Relay.{RelayStats, RelayRun, tally, mark_row, relay_rows, relay_once}

abbrev pub counted : RelayStats → ℕ
counted s = s.published + s.failed + s.stale + s.missing

tally-counted :
    (p : Option String) (o : MarkOutcome) (s : RelayStats)
    → ((tally p o s).claimed ≡ s.claimed) × (counted (tally p o s) ≡ suc (counted s))
unfolding tally
tally-counted none updated s = (refl, omega arith)
tally-counted (some e) updated s = (refl, omega arith)
tally-counted none stale_claim s = (refl, omega arith)
tally-counted (some e) stale_claim s = (refl, omega arith)
tally-counted none MarkOutcome.missing s = (refl, omega arith)
tally-counted (some e) MarkOutcome.missing s = (refl, omega arith)

-- Statistics that count each of so many rows once.
abbrev pub Counts : {Json : Type 0} → ℕ → ℕ → Result RelayStats × List (OutboxRow Json) → Type 0
Counts claimed n (ok s, rows) = (s.claimed ≡ claimed) × (counted s ≡ n)
Counts claimed n (err e, rows) = Unit

Counts-eq :
    {Json : Type 0} {c d n k : ℕ}
    → c ≡ d
    → n ≡ k
    → (p : Result RelayStats × List (OutboxRow Json)) → Counts c n p
    → Counts d k p
Counts-eq e q (ok s, rows) h = (h.0 ∙ e, h.1 ∙ q)
Counts-eq e q (err f, rows) h = tt

Counts-ok :
    {Json : Type 0} {c n : ℕ} (p : Result RelayStats × List (OutboxRow Json)) (stats : RelayStats)
    → Counts c n p
    → p.0 ≡ ok stats
    → (stats.claimed ≡ c) × (counted stats ≡ n)
Counts-ok (ok s, rows) stats h e =
    let same : s ≡ stats = ground arith in
    (sym (ap (λ x. x.claimed) same) ∙ h.0, sym (ap counted same) ∙ h.1)
Counts-ok (err f, rows) stats h e = absurd (cc e)

module _ {Json : Type 0} (run : RelayRun Json) (cfg : RelayConfig) where
  relay_rows-Counts :
      (claimed : List (OutboxRow Json)) (stats : RelayStats) (rows : List (OutboxRow Json))
      → Counts stats.claimed
          (counted stats + length claimed)
          (relay_rows run cfg claimed stats rows)
  unfolding relay_rows
  relay_rows-Counts [] stats rows = (refl, omega arith)
  relay_rows-Counts (row ∷ rest) stats rows =
      let seen = run.before_mark row rows in
      let m = mark_row run cfg row (run.publish row) seen in
      let t = tally-counted (run.publish row) m.1 stats in
      let n : counted (tally (run.publish row) m.1 stats) + length rest
          ≡ counted stats + suc (length rest) =
        omega (arith, t.1) in
      let later = relay_rows-Counts rest (tally (run.publish row) m.1 stats) m.0 in
      option_elim (Counts stats.claimed (counted stats + suc (length rest))) (run.mark_fault row)
        (λ q. Counts-eq t.0 n _ later) (λ e q. tt)

  -- A cycle that succeeds accounts for every row it claimed: it was published, or failed, or its
  -- claim was lost, or it was gone.
  pub every_claim_counted :
      (rows : List (OutboxRow Json)) (stats : RelayStats)
      → (relay_once run cfg rows).0 ≡ ok stats
      → stats.claimed ≡ stats.published + stats.failed + stats.stale + stats.missing
  unfolding relay_once
  every_claim_counted rows stats =
      option_elim IsAccounted (validate_relay cfg)
        (λ v.
          option_elim IsAccounted run.claim_fault
            (λ q e.
              let c =
                claim_batch run.before_claim run.claim_at (pos_part cfg.batch_limit) run.locked
                  cfg.lease_for run.claim_id cfg.worker_id rows in
              let (all, each) = Counts-ok _ stats (relay_rows-Counts c.1 _ c.0) e in
              omega (arith, all, each))
            (λ f q e. absurd (cc e)))
        (λ f v e. absurd (cc e))
    where
      IsAccounted : Result RelayStats × List (OutboxRow Json) → Type 0
      IsAccounted p =
          p.0 ≡ ok stats
          → stats.claimed ≡ stats.published + stats.failed + stats.stale + stats.missing
