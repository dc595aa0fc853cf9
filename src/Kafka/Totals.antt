-- ===== src/Kafka/Totals.antt =====
-- The statistics of the ingest loop: consumer.rs and stats.rs.
use kafkaman.Base.{
  ℕ, suc, ◌+◌, String, List, [], ◌∷◌, ◌++◌, ◌≡◌, refl, ◌∙◌, ap, subst, All, arith, length,
  length-append, if_elim,
}
use kafkaman.Core.Error.{Parsed, parsed, malformed}
use kafkaman.Failure as SqlxFailure
use kafkaman.Outbox.Enqueue.{MessageDescriptor}
use kafkaman.Kafka.{KafkaRecord, Error, kafka, sqlx, Result, ok, err, ok_inj}
use kafkaman.Kafka.Consumer.{IngestStats, Ingester, IngestRun, Ingestion, behind}
use kafkaman.Kafka.Ingest.{after_recv, with_table, ingest_once}
use kafkaman.Kafka.Loop.{
  IngestLoopStats, no_cycles, Next, record_cycle, is_skip_limit, after_ingest, follow, ingest_all,
  resolve, run_ingester,
}
use kafkaman.Kafka.Accounted.{Ingested, refused, taken, IsOne}
use kafkaman.Kafka.Acknowledged.{ingest_decoded-Ingested}
use kafkaman.Kafka.AtLeastOnce.{IsShared}

module _ {Json : Type 0} where
  -- A call fails and commits no position, or it succeeds, with one record.
  data Once (s : Ingester Json) : Ingester Json × Result IngestStats → Type 0 where
    nothing :
        (t : Ingester Json) (e : Error) → length t.commits ≡ length s.commits → Once s (t, err e)
    one :
        (t : Ingester Json) (stats : IngestStats)
        → length t.commits ≡ suc (length s.commits)
        → IsOne stats
        → Once s (t, ok stats)

  Ingested-Once :
      (lossy : List ℕ → String) (m : KafkaRecord) (s : Ingester Json)
      (p : Ingester Json × Result IngestStats)
      → Ingested lossy m s p
      → Once s p
  Ingested-Once lossy m s p (refused t e adv same) = nothing t e (ap length same)
  Ingested-Once lossy m s p (taken t stats adv same here is_one) =
      one t stats (omega (arith, ap length same, length-append s.commits (behind m ∷ []))) is_one

  ingest_once-Once :
      (cfg : Ingestion Json) (run : IngestRun Json) (s : Ingester Json)
      → IsShared cfg run
      → Once s (ingest_once cfg run s)
  unfolding ingest_once
  ingest_once-Once cfg run s keeps = settle cfg.table
    where
      t : Ingester Json
      t = record s { received = run.meanwhile s.received }

      taking : KafkaRecord → Ingester Json
      taking m = record t { taken = t.taken ++ m ∷ [] }

      settle : (table : SqlxFailure.Result MessageDescriptor) → Once s (with_table cfg run s table)
      settle (SqlxFailure.err e) = nothing s (sqlx e) refl
      settle (SqlxFailure.ok b) = read run.recv
        where
          read : (r : Parsed KafkaRecord) → Once s (after_recv cfg run b t r)
          read (malformed e) = nothing t (kafka e) refl
          read (parsed m) = rebase (
              Ingested-Once cfg.codec.from_utf8_lossy m (taking m) _
                (ingest_decoded-Ingested cfg run m b (taking m) keeps.1))
            where
              rebase : {p : Ingester Json × Result IngestStats} → Once (taking m) p → Once s p
              rebase (nothing u e q) = nothing u e q
              rebase (one u stats q i) = one u stats q i

  -- Each successful call counts one record, which was inserted, a duplicate or skipped, and
  -- committed the position behind it; `base` positions were committed before the loop.
  pub record IsTally (base : ℕ) (s : Ingester Json) (totals : IngestLoopStats) : Type 0 where
    pub cycles : totals.cycles ≡ totals.consumed
    pub sorted : totals.inserted + totals.duplicates + totals.skipped ≡ totals.consumed
    pub committed : totals.committed ≡ totals.consumed
    pub commits : length s.commits ≡ base + totals.committed

  data Totalled (base : ℕ) : Ingester Json × Result IngestLoopStats → Type 0 where
    stopped : (t : Ingester Json) (e : Error) → Totalled base (t, err e)
    totalled :
        (t : Ingester Json) (totals : IngestLoopStats)
        → IsTally base t totals
        → Totalled base (t, ok totals)

  follow-Totalled :
      (base : ℕ) (s : Ingester Json) (totals : IngestLoopStats)
      (p : Ingester Json × Result IngestStats)
      (rest : IngestLoopStats → Ingester Json × Result IngestLoopStats)
      → IsTally base s totals
      → Once s p
      → ((u : IngestLoopStats) → IsTally base p.0 u → Totalled base (rest u))
      → Totalled base (follow p.0 rest (after_ingest totals p.1))
  unfolding after_ingest record_cycle
  follow-Totalled base s totals p rest tally (one t stats q i) h =
      h (record_cycle totals stats) (record {
        cycles = omega (arith, tally.cycles, i.consumed);
        sorted = omega (arith, tally.sorted, i.sorted, i.consumed);
        committed = omega (arith, tally.committed, i.committed, i.consumed);
        commits = omega (arith, tally.commits, q, i.committed);
      })
  follow-Totalled base s totals p rest tally (nothing t e q) h =
      if_elim (λ (next : Next). Totalled base (follow t rest next)) (is_skip_limit e)
        (λ x. stopped t e)
        (λ x. h _ (record {
          cycles = tally.cycles;
          sorted = tally.sorted;
          committed = tally.committed;
          commits = q ∙ tally.commits;
        }))

  ingest_all-Totalled :
      (cfg : Ingestion Json) (runs : List (IngestRun Json)) (base : ℕ) (s : Ingester Json)
      (totals : IngestLoopStats)
      → All (IsShared cfg) runs
      → IsTally base s totals
      → Totalled base (ingest_all cfg runs s totals)
  unfolding ingest_all
  ingest_all-Totalled cfg [] base s totals h tally = totalled s totals tally
  ingest_all-Totalled cfg (run ∷ runs) base s totals h tally =
      follow-Totalled base s totals (ingest_once cfg run s)
        (λ u. ingest_all cfg runs (ingest_once cfg run s).0 u) tally
        (ingest_once-Once cfg run s h.0)
        (λ u v. ingest_all-Totalled cfg runs base (ingest_once cfg run s).0 u h.1 v)

  -- When the loop is shut down, its statistics add up: each cycle consumed one record, which was
  -- inserted, a duplicate or skipped, and the broker confirmed so many commits of a position as
  -- records were consumed; other sessions lose no id or key of a received row.
  pub loop_totals :
      (cfg : Ingestion Json) (runs : List (IngestRun Json)) (s t : Ingester Json)
      (totals : IngestLoopStats)
      → All (IsShared cfg) runs
      → run_ingester cfg runs s ≡ (t, ok totals)
      → IsTally (length s.commits) t totals
  unfolding run_ingester
  loop_totals cfg runs s t totals h e = settle cfg.table e
    where
      tallied :
          (p : Ingester Json × Result IngestLoopStats)
          → Totalled (length s.commits) p
          → p ≡ (t, ok totals)
          → IsTally (length s.commits) t totals
      tallied p (stopped u f) q = absurd (cc q)
      tallied p (totalled u v i) q =
          let state : u ≡ t = ap (λ (r : Ingester Json × Result IngestLoopStats). r.0) q in
          let result : ok v ≡ ok totals =
            ap (λ (r : Ingester Json × Result IngestLoopStats). r.1) q in
          subst (λ x. IsTally (length s.commits) x totals) state
            (subst (λ w. IsTally (length s.commits) u w) (ok_inj result) i)

      start : IsTally (length s.commits) s no_cycles
      start = record { cycles = refl; sorted = refl; committed = refl; commits = omega arith }

      settle :
          (table : SqlxFailure.Result MessageDescriptor)
          → resolve table s (ingest_all cfg runs s no_cycles) ≡ (t, ok totals)
          → IsTally (length s.commits) t totals
      settle (SqlxFailure.err f) q = absurd (cc q)
      settle (SqlxFailure.ok b) q =
          tallied _ (ingest_all-Totalled cfg runs (length s.commits) s no_cycles h start) q
