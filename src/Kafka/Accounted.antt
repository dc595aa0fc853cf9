-- ===== src/Kafka/Accounted.antt =====
-- What a call of the consumer makes of its state, and what counts as storing a record: consumer.rs.
use kafkaman.Base.{
  ℕ, suc, ◌+◌, leb, String, Bool, true, false, Option, none, some, List, [], ◌∷◌, ◌++◌, ◌≡◌, refl,
  ap, if◌then◌else◌, if_elim, ◌⊎◌, eq_refl,
}
use kafkaman.Base.Int.{eqb_ℤ_iff}
use kafkaman.Base.Table.{
  exists_where, mem-exists_where, exists_where-mem, mem-append_left, mem-append_last,
}
use kafkaman.Failure as SqlxFailure
use kafkaman.Failure.{SqlxError}
use kafkaman.Received.Quarantine.{
  ReceivedIngestFailure, FailureColumns, columns_of, is_source, insert_received_ingest_failure,
}
use kafkaman.Received.Dedup.{HasKey}
use kafkaman.Kafka.{KafkaRecord, Error, kafka, database, Result, ok, err}
use kafkaman.Kafka.Named.{NamesKey}
use kafkaman.Kafka.Consumer.{
  IngestStats, Ingester, Ingestion, CommitFault, count_skip, commit_record, behind, after_count,
  at_commit,
}

-- The quarantine has a row for the place of the record.
abbrev pub IsQuarantined : KafkaRecord → List FailureColumns → Type 0
IsQuarantined m failures = exists_where (is_source m.topic m.partition m.offset) failures ≡ true

-- What an insert into the quarantine does: it fails and changes nothing, or there is a row for the
-- place, and none is lost.
pub data Quarantined (f : ReceivedIngestFailure) (rows : List FailureColumns)
    : List FailureColumns × SqlxFailure.Result Bool → Type 0 where
  failed : (e : SqlxFailure.Error) → Quarantined f rows (rows, SqlxFailure.err e)
  placed :
      (rows' : List FailureColumns) (fresh : Bool)
      → exists_where (is_source f.source_topic f.source_partition f.source_offset) rows' ≡ true
      → ((m : KafkaRecord) → IsQuarantined m rows → IsQuarantined m rows')
      → Quarantined f rows (rows', SqlxFailure.ok fresh)

own_place :
    (f : ReceivedIngestFailure) (now : ℕ)
    → is_source f.source_topic f.source_partition f.source_offset (columns_of f now) ≡ true
unfolding is_source columns_of
own_place f now =
    rw
      (
        eq_refl f.source_topic,
        (eqb_ℤ_iff f.source_partition f.source_partition).1 refl,
        (eqb_ℤ_iff f.source_offset f.source_offset).1 refl,
      )
      refl

pub insert_failure-Quarantined :
    (fault : Option SqlxError) (now : ℕ) (f : ReceivedIngestFailure) (rows : List FailureColumns)
    → Quarantined f rows (insert_received_ingest_failure fault now f rows)
unfolding insert_received_ingest_failure
insert_failure-Quarantined (some e) now f rows = failed (SqlxFailure.sqlx e)
insert_failure-Quarantined none now f rows =
    if_elim (Quarantined f rows)
      (exists_where (is_source f.source_topic f.source_partition f.source_offset) rows)
      (λ e. placed rows false e (λ m q. q))
      (λ e.
        placed (rows ++ columns_of f now ∷ []) true
          (mem-exists_where (is_source f.source_topic f.source_partition f.source_offset)
            (mem-append_last rows (columns_of f now)) (own_place f now))
          (λ m q.
            let (r, k, h) = exists_where-mem (is_source m.topic m.partition m.offset) rows q in
            mem-exists_where (is_source m.topic m.partition m.offset)
              (mem-append_left (columns_of f now ∷ []) k) h))

module _ {Json : Type 0} where
  -- No stored key and no quarantined place is lost, and no other record taken.
  pub record Advance (s t : Ingester Json) : Type 0 where
    pub keys : (key : String) → HasKey key s.received → HasKey key t.received
    pub places : (m : KafkaRecord) → IsQuarantined m s.failures → IsQuarantined m t.failures
    pub taken : t.taken ≡ s.taken

  abbrev pub stay : (s : Ingester Json) → Advance s s
  stay s = record { keys = λ key k. k; places = λ m q. q; taken = refl }

-- The statistics of one record.
pub record IsOne (stats : IngestStats) : Type 0 where
  pub consumed : stats.consumed ≡ 1
  pub committed : stats.committed ≡ 1
  pub sorted : stats.inserted + stats.duplicates + stats.skipped ≡ 1

module _ {Json : Type 0} (lossy : List ℕ → String) where
  -- There is a received row with the key that the record names, or the record is quarantined.
  abbrev pub IsAccounted : Ingester Json → KafkaRecord → Type 0
  IsAccounted s m =
      ((key : String) × NamesKey lossy m key × HasKey key s.received) ⊎ IsQuarantined m s.failures

  -- What one call makes of the state `s` it starts from: its position committed where it succeeds,
  -- and then stored, and else not committed.
  pub data Ingested (m : KafkaRecord) (s : Ingester Json)
      : Ingester Json × Result IngestStats → Type 0 where
    refused :
        (t : Ingester Json) (e : Error)
        → Advance s t
        → t.commits ≡ s.commits
        → Ingested m s (t, err e)
    taken :
        (t : Ingester Json) (stats : IngestStats)
        → Advance s t
        → t.commits ≡ s.commits ++ behind m ∷ []
        → IsAccounted t m
        → IsOne stats
        → Ingested m s (t, ok stats)

  -- Ready for the commit of its position.
  pub record IsReady (m : KafkaRecord) (s t : Ingester Json) : Type 0 where
    pub advance : Advance s t
    pub same : t.commits ≡ s.commits
    pub accounted : IsAccounted t m

  pub commit_record-Ingested :
      (fault : Option String) (m : KafkaRecord) (stats : IngestStats) (s t : Ingester Json)
      → IsOne stats
      → IsReady m s t
      → Ingested m s (commit_record fault m stats t)
  unfolding commit_record
  commit_record-Ingested none m stats s t one r =
      taken _ stats
        (record { keys = r.advance.keys; places = r.advance.places; taken = r.advance.taken })
        (ap (λ ps. ps ++ behind m ∷ []) r.same) r.accounted one
  commit_record-Ingested (some e) m stats s t one r = refused t (kafka e) r.advance r.same

  pub count-Ingested :
      (cfg : Ingestion Json) (fault : Option String) (m : KafkaRecord) (stats : IngestStats)
      (s t : Ingester Json)
      → IsOne stats
      → IsReady m s t
      → Ingested m s (after_count fault m stats (count_skip cfg m t))
  unfolding count_skip
  count-Ingested cfg fault m stats s t one r =
      settle (if leb cfg.max_consecutive_skips (suc t.consecutive_skips) then err _ else ok tt)
    where
      counted : Ingester Json
      counted = record t { consecutive_skips = suc t.consecutive_skips }

      moved : Advance s counted
      moved = record { keys = r.advance.keys; places = r.advance.places; taken = r.advance.taken }

      settle :
          (result : Result (Unit {0})) → Ingested m s (after_count fault m stats (counted, result))
      settle (ok done) =
          commit_record-Ingested fault m stats s counted one
            (record { advance = moved; same = r.same; accounted = r.accounted })
      settle (err e) = refused counted e moved r.same

  pub at_commit-Ingested :
      (fault : Option CommitFault) (m : KafkaRecord) (s before after : Ingester Json)
      (next : Ingester Json → Ingester Json × Result IngestStats)
      → Advance s before
      → before.commits ≡ s.commits
      → IsReady m s after
      → Ingested m s (next after)
      → Ingested m s (at_commit fault before after next)
  at_commit-Ingested none m s before after next a e r i = i
  at_commit-Ingested (some f) m s before after next a e r i =
      if_elim (λ t. Ingested m s (t, err (database f.error))) f.landed
        (λ q. refused after (database f.error) r.advance r.same)
        (λ q. refused before (database f.error) a e)
