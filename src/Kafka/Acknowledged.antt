-- ===== src/Kafka/Acknowledged.antt =====
-- The position behind a record is committed only when its message or its diagnosis is stored: consumer.rs.
use kafkaman.Base.{
  ℕ, String, Bool, true, false, Option, none, some, List, ◌≡◌, refl, ◌∙◌, ap, sym, subst,
  if◌then◌else◌, if_elim, option_elim, inl, inr,
}
use kafkaman.Core.Problem.{ReceivedIngestFailureKind}
use kafkaman.Failure as SqlxFailure
use kafkaman.Failure.{SqlxError}
use kafkaman.Outbox.Enqueue.{MessageDescriptor, Identity}
use kafkaman.Received.{ReceivedRow}
use kafkaman.Received.Storage.{
  ReceivedInsertOutcome, Source, is_inserted, insert_received_with_outcome,
}
use kafkaman.Received.Quarantine.{ReceivedIngestFailure, FailureColumns}
use kafkaman.Received.Dedup.{HasKey}
use kafkaman.Received.Once.{Keeps}
use kafkaman.Received.Redelivery.{is_absorbed, stored-HasKey}
use kafkaman.Received.Kept.{insert-Keeps, stored-decoded, decode-key}
use kafkaman.Kafka.{KafkaRecord, Error, sqlx, database, ingest_failure_kind, Result, ok, err}
use kafkaman.Kafka.Headers.{record_headers}
use kafkaman.Kafka.Decode.{DecodedRecord, record_envelope, ingest_failure_record}
use kafkaman.Kafka.Named.{NamesKey, Named, record_envelope-Named}
use kafkaman.Kafka.Consumer.{
  IngestStats, Ingester, IngestRun, Ingestion, CommitFault, is_conflict, stats_of, skipped_stats,
  after_failure_row, quarantine,
}
use kafkaman.Kafka.Ingest.{
  is_application_panicked, conflict_detail, settle_outcome, finish_store, after_insert, store,
  quarantine_kind, route, ingest_decoded,
}
use kafkaman.Kafka.Accounted.{
  Quarantined, failed, placed, insert_failure-Quarantined, Advance, stay, Ingested, refused,
  IsReady, IsOne, commit_record-Ingested, count-Ingested, at_commit-Ingested,
}

stats_of-IsOne : (m : KafkaRecord) (o : ReceivedInsertOutcome) → IsOne (stats_of m o)
unfolding stats_of
stats_of-IsOne m ReceivedInsertOutcome.inserted = record {
  consumed = refl;
  committed = refl;
  sorted = refl;
}
stats_of-IsOne m ReceivedInsertOutcome.duplicate_idempotency_key = record {
  consumed = refl;
  committed = refl;
  sorted = refl;
}
stats_of-IsOne m ReceivedInsertOutcome.message_id_conflict = record {
  consumed = refl;
  committed = refl;
  sorted = refl;
}

skipped_stats-IsOne : (m : KafkaRecord) → IsOne (skipped_stats m)
unfolding skipped_stats
skipped_stats-IsOne m = record { consumed = refl; committed = refl; sorted = refl }

absorbs : (o : ReceivedInsertOutcome) → is_conflict o ≡ false → is_absorbed o ≡ true
absorbs ReceivedInsertOutcome.inserted h = refl
absorbs ReceivedInsertOutcome.duplicate_idempotency_key h = refl
absorbs ReceivedInsertOutcome.message_id_conflict h = absurd (cc h)

module _ {Json : Type 0} (cfg : Ingestion Json) (run : IngestRun Json) (m : KafkaRecord) where
  abbrev lossy : List ℕ → String
  lossy = cfg.codec.from_utf8_lossy

  -- A row for the record goes into the quarantine, and then the transaction ends.
  failure_row-Ingested :
      (fault : Option CommitFault) (f : ReceivedIngestFailure) (s t : Ingester Json)
      (p : List FailureColumns × SqlxFailure.Result Bool)
      (next : Ingester Json → Ingester Json × Result IngestStats)
      → f.source_topic ≡ m.topic
      → f.source_partition ≡ m.partition
      → f.source_offset ≡ m.offset
      → Advance s t
      → t.commits ≡ s.commits
      → Quarantined f t.failures p
      → ((u : Ingester Json) → IsReady lossy m s u → Ingested lossy m s (next u))
      → Ingested lossy m s (after_failure_row fault t p next)
  failure_row-Ingested fault f s t p next a b c adv same (failed e) go = refused t (sqlx e) adv same
  failure_row-Ingested fault f s t p next a b c adv same (placed rows fresh here grows) go =
      at_commit-Ingested lossy fault m s t (record t { failures = rows }) next adv same ready
        (go (record t { failures = rows }) ready)
    where
      ready : IsReady lossy m s (record t { failures = rows })
      ready = record {
        advance = record {
          keys = adv.keys;
          places = λ n q. grows n (adv.places n q);
          taken = adv.taken;
        };
        same = same;
        accounted = inr (rw (← a, ← b, ← c) here);
      }

  quarantine-Ingested :
      (d : MessageDescriptor) (kind : ReceivedIngestFailureKind) (text : String)
      (s t : Ingester Json)
      → Advance s t
      → t.commits ≡ s.commits
      → Ingested lossy m s (quarantine cfg run d m kind text t)
  unfolding quarantine ingest_failure_record
  quarantine-Ingested d kind text s t adv same =
      option_elim (Ingested lossy m s) run.quarantining.begin_fault
        (λ q.
          failure_row-Ingested run.quarantining.commit_fault f s t _ _ refl refl refl adv same
            (insert_failure-Quarantined run.quarantining.insert_fault run.insertion.now f
              t.failures)
            (λ u r.
              count-Ingested lossy cfg run.broker_fault m (skipped_stats m) s u
                (skipped_stats-IsOne m) r))
        (λ e q. refused t (database e) adv same)
    where
      f : ReceivedIngestFailure
      f = ingest_failure_record lossy cfg.message_type m d.topic kind text

  settle_outcome-Ingested :
      (o : ReceivedInsertOutcome) (s t : Ingester Json)
      → IsReady lossy m s t
      → Ingested lossy m s (settle_outcome cfg run m o t)
  unfolding settle_outcome
  settle_outcome-Ingested o s t r =
      if_elim (Ingested lossy m s) (is_conflict o)
        (λ e. count-Ingested lossy cfg run.broker_fault m (stats_of m o) s t (stats_of-IsOne m o) r)
        (λ e.
          commit_record-Ingested lossy run.broker_fault m (stats_of m o) s
            (record t { consecutive_skips = 0 }) (stats_of-IsOne m o)
            (record {
              advance = record {
                keys = r.advance.keys;
                places = r.advance.places;
                taken = r.advance.taken;
              };
              same = r.same;
              accounted = r.accounted;
            }))

  finish_store-Ingested :
      (d : MessageDescriptor) (message_id : ℕ) (s : Ingester Json) (rows : List (ReceivedRow Json))
      (o : ReceivedInsertOutcome)
      → ((key : String) → HasKey key s.received → HasKey key rows)
      → (is_conflict o ≡ false → (key : String) × NamesKey lossy m key × HasKey key rows)
      → Ingested lossy m s (finish_store cfg run m d message_id s rows o)
  unfolding finish_store ingest_failure_record
  finish_store-Ingested d message_id s rows o kept known =
      if_elim (Ingested lossy m s) (is_conflict o)
        (λ e.
          failure_row-Ingested run.commit_fault f s after _ _ refl refl refl moved refl
            (insert_failure-Quarantined run.conflict_fault run.insertion.now f s.failures)
            (λ u r. settle_outcome-Ingested o s u r))
        (λ e.
          let ready : IsReady lossy m s after = record {
            advance = moved;
            same = refl;
            accounted = inl (known e);
          } in
          at_commit-Ingested lossy run.commit_fault m s before after _ undone refl ready
            (settle_outcome-Ingested o s after ready))
    where
      f : ReceivedIngestFailure
      f =
          ingest_failure_record lossy cfg.message_type m d.topic
            ReceivedIngestFailureKind.message_id_conflict (conflict_detail cfg run m message_id)

      before : Ingester Json
      before = record s { received = if is_inserted o then s.received else rows }

      after : Ingester Json
      after = record s { received = rows }

      moved : Advance s after
      moved = record { keys = kept; places = λ n q. q; taken = refl }

      undone : Advance s before
      undone = record {
        keys = λ key k. if_elim (HasKey key) (is_inserted o) (λ e. k) (λ e. kept key k);
        places = λ n q. q;
        taken = refl;
      }

  after_insert-Ingested :
      (d : MessageDescriptor) (message_id : ℕ) (s : Ingester Json)
      (p : List (ReceivedRow Json) × SqlxFailure.Result ReceivedInsertOutcome)
      → ((key : String) → HasKey key s.received → HasKey key p.0)
      → ((o : ReceivedInsertOutcome)
          → p.1 ≡ SqlxFailure.ok o
          → is_conflict o ≡ false
          → (key : String) × NamesKey lossy m key × HasKey key p.0)
      → Ingested lossy m s (after_insert cfg run m d message_id s p)
  after_insert-Ingested d message_id s (rows, SqlxFailure.ok o) kept known =
      finish_store-Ingested d message_id s rows o kept (known o refl)
  after_insert-Ingested d message_id s (rows, SqlxFailure.err e) kept known =
      if_elim (Ingested lossy m s) (is_application_panicked e)
        (λ q.
          quarantine-Ingested d ReceivedIngestFailureKind.invalid_payload (cfg.sqlx_error_text e) s
            (record s { received = rows }) moved refl)
        (λ q. refused (record s { received = rows }) (sqlx e) moved refl)
    where
      moved : Advance s (record s { received = rows })
      moved = record { keys = kept; places = λ n q. q; taken = refl }

  store-Ingested :
      (d : MessageDescriptor) (decoded : DecodedRecord Json) (s : Ingester Json)
      → Keeps run.insertion.seen
      → Named cfg.codec run.made m decoded.envelope
      → Ingested lossy m s (store cfg run m d decoded s)
  unfolding store
  store-Ingested d decoded s keeps (key, names, (identity, i, e), filed) =
      option_elim (Ingested lossy m s) run.begin_fault
        (λ q.
          after_insert-Ingested d decoded.envelope.message_id s inserted
            (λ k h.
              insert-Keeps run.insertion (SqlxFailure.ok d) decoded.envelope source s.received k
                keeps h)
            (λ o h c. (key, names, known o h c)))
        (λ e q. refused s (database e) (stay s) refl)
    where
      source : Source
      source = record {
        partition = m.partition;
        offset = m.offset;
        key = decoded.key;
        trace = run.trace;
      }

      inserted : List (ReceivedRow Json) × SqlxFailure.Result ReceivedInsertOutcome
      inserted =
          insert_received_with_outcome run.insertion (SqlxFailure.ok d) decoded.envelope source
            s.received

      known :
          (o : ReceivedInsertOutcome)
          → inserted.1 ≡ SqlxFailure.ok o
          → is_conflict o ≡ false
          → HasKey key inserted.0
      known o h c =
          let outcome : inserted ≡ (inserted.0, SqlxFailure.ok o) = λ i. (inserted.0, h i) in
          let (p, q) = stored-decoded run.insertion d decoded.envelope source s.received outcome in
          let same : some p.identity ≡ some identity = sym (decode-key d decoded.envelope q) ∙ i in
          let identical : p.identity ≡ identity = cc same in
          let key_of : p.identity.key ≡ key = ap (λ (j : Identity Json). j.key) identical ∙ e in
          subst (λ k. HasKey k inserted.0) key_of
            (stored-HasKey run.insertion d decoded.envelope p source s.received keeps q outcome
              (absorbs o c))

  pub ingest_decoded-Ingested :
      (d : MessageDescriptor) (s : Ingester Json)
      → Keeps run.insertion.seen
      → Ingested lossy m s (ingest_decoded cfg run m d s)
  unfolding ingest_decoded
  ingest_decoded-Ingested d s keeps = settle _ refl
    where
      read : Result (DecodedRecord Json)
      read = record_envelope cfg.codec run.made d.topic m (record_headers lossy m)

      kinded :
          (e : Error) (o : Option ReceivedIngestFailureKind)
          → Ingested lossy m s (quarantine_kind cfg run m d e s o)
      kinded e none = refused s e (stay s) refl
      kinded e (some kind) = quarantine-Ingested d kind (cfg.error_text e) s s (stay s) refl

      settle :
          (r : Result (DecodedRecord Json)) → read ≡ r → Ingested lossy m s (route cfg run m d s r)
      settle (ok decoded) h =
          store-Ingested d decoded s keeps (record_envelope-Named cfg.codec run.made d.topic m h)
      settle (err e) h = kinded e (ingest_failure_kind e)
