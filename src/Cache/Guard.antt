-- ===== src/Cache/Guard.antt =====
-- What the upsert of dispatch_cache.rs can leave, whichever statement fails and whatever other
-- sessions commit between its statements.
use kafkaman.Base.{
  ℕ, String, Bool, true, false, Option, none, some, ◌≡◌, refl, ◌≢◌, ◌∙◌, inl, inr, sym, ap, subst,
  arith, str_eq, eq_iff, if◌then◌else◌, if_elim, option_elim, ◌&&◌, Bool-cases,
}
use kafkaman.Base.Int.{◌≤ℤ◌, ◌<ℤ◌, leb_ℤ}
use kafkaman.Failure.{SqlxError, Error, Result, ok, err, sqlx, is_terminal}
use kafkaman.Received.{ReceivedRow}
use kafkaman.Cache.{
  CacheApplyOutcome, applied, ignored, migrated, CacheRow, Cache, CacheRun, put, same_origin, takes,
  state_of, mismatch, adopt, migrate_cache_origin, judge, classify_skipped_cache_apply, upsert,
}
use kafkaman.Cache.Origin.{eq-same_origin, put-same, put-other}

-- The caches that the statements of a run find.
pub data Entered {Json : Type 0} (run : CacheRun Json) (cache : Cache Json)
    : Cache Json → Type 0 where
  at_upsert : Entered run cache cache
  at_classify : Entered run cache (run.before_classify cache)
  at_lock : Entered run cache (run.before_lock (run.before_classify cache))

-- When a record may become an entity's state: there is none; it is newer in the same log; or it
-- comes from the declared topic, the state is from another log, and the state that the
-- classification read (`judged`) was of another topic.
pub data MayWrite {Json : Type 0} (topic : String) (row : ReceivedRow Json)
    (judged : Option (CacheRow Json)) : Option (CacheRow Json) → Type 0 where
  first : MayWrite topic row judged none
  newer :
      {c : CacheRow Json}
      → same_origin c row ≡ true
      → c.applied_offset <ℤ row.source_offset
      → MayWrite topic row judged (some c)
  moves :
      {c : CacheRow Json} (read : CacheRow Json)
      → same_origin c row ≡ false
      → row.source_topic ≡ topic
      → judged ≡ some read
      → read.applied_topic ≢ topic
      → MayWrite topic row judged (some c)

pub data IsFailure (e : Error) : Type 0 where
  by_database : (f : SqlxError) → e ≡ sqlx f → IsFailure e
  for_good : is_terminal e ≡ true → IsFailure e

pub data Guarded {Json : Type 0} (now : ℕ) (topic : String) (row : ReceivedRow Json) (key : String)
    (judged : Option (CacheRow Json)) (b : Cache Json)
    : Result CacheApplyOutcome × Cache Json → Type 0 where
  failed : {e : Error} → IsFailure e → Guarded now topic row key judged b (err e, b)
  skipped : Guarded now topic row key judged b (ok ignored, b)
  wrote :
      (o : CacheApplyOutcome) (d : Bool)
      → o ≢ ignored
      → MayWrite topic row judged (b key)
      → Guarded now topic row key judged b (ok o, put key (state_of now row d) b)

module _ {Json : Type 0} (run : CacheRun Json) (topic : String) (row : ReceivedRow Json)
    (key : String) where
  abbrev pub IsGuarded : Cache Json → Result CacheApplyOutcome × Cache Json → Type 0
  IsGuarded cache r =
      (b : Cache Json) × Entered run cache b
      × Guarded run.now topic row key (run.before_classify cache key) b r

  adopt-Guarded :
      (judged : Option (CacheRow Json)) (read : CacheRow Json) (b : Cache Json) (c : CacheRow Json)
      → judged ≡ some read
      → read.applied_topic ≢ topic
      → b key ≡ some c
      → row.source_topic ≡ topic
      → Guarded run.now topic row key judged b (adopt run row key b c)
  unfolding adopt
  adopt-Guarded judged read b c j away e t =
      if_elim (Guarded run.now topic row key judged b)
        (same_origin c row && leb_ℤ row.source_offset c.applied_offset) (λ h. skipped)
        (λ h.
          option_elim (Guarded run.now topic row key judged b) run.adopt_fault
            (λ q. wrote _ false (written_not_ignored c) (rw e (may c h t)))
            (λ f q. failed (by_database f refl)))
    where
      written_not_ignored :
          (c : CacheRow Json) → (if same_origin c row then applied else migrated) ≢ ignored
      written_not_ignored c = ground arith

      may :
          (c : CacheRow Json)
          → (same_origin c row && leb_ℤ row.source_offset c.applied_offset) ≡ false
          → row.source_topic ≡ topic
          → MayWrite topic row judged (some c)
      may c h t = elim (Bool-cases (same_origin c row)) [
        | inl o ↦ newer o (ground arith)
        | inr o ↦ moves read o t j away
      ]

  migrate-Guarded :
      (judged : Option (CacheRow Json)) (read : CacheRow Json) (b : Cache Json)
      → judged ≡ some read
      → read.applied_topic ≢ topic
      → row.source_topic ≡ topic
      → Guarded run.now topic row key judged b (migrate_cache_origin run row key b)
  unfolding migrate_cache_origin
  migrate-Guarded judged read b j away t =
      option_elim (Guarded run.now topic row key judged b) run.lock_fault
        (λ q.
          option_elim (Guarded run.now topic row key judged b) (b key) (λ e. skipped)
            (λ c e. adopt-Guarded judged read b c j away e t))
        (λ f q. failed (by_database f refl))

  judge-Guarded :
      (cache : Cache Json) (c : CacheRow Json)
      → run.before_classify cache key ≡ some c
      → IsGuarded cache (judge run topic row key (run.before_classify cache) c)
  unfolding judge mismatch is_terminal
  judge-Guarded cache c r =
      if_elim (IsGuarded cache) (same_origin c row) (λ o. (_, at_classify, skipped))
        (λ o.
          if_elim (IsGuarded cache) (str_eq c.applied_topic row.source_topic)
            (λ s. (_, at_classify, failed (for_good refl)))
            (λ s.
              if_elim (IsGuarded cache) (str_eq row.source_topic topic)
                (λ d.
                  let declared : row.source_topic ≡ topic = (eq_iff _ _).0 d in
                  let away : c.applied_topic ≢ topic = λ q.
                    absurd
                      (cc ((eq_iff c.applied_topic row.source_topic).1 (q ∙ sym declared), s)) in
                  (_, at_lock, migrate-Guarded _ c _ r away declared))
                (λ d.
                  if_elim (IsGuarded cache) (str_eq c.applied_topic topic)
                    (λ w. (_, at_classify, skipped))
                    (λ w. (_, at_classify, failed (for_good refl))))))

  classify-Guarded :
      (cache : Cache Json)
      → IsGuarded cache (classify_skipped_cache_apply run topic row key (run.before_classify cache))
  unfolding classify_skipped_cache_apply
  classify-Guarded cache =
      option_elim (IsGuarded cache) run.classify_fault
        (λ q.
          option_elim (IsGuarded cache) (run.before_classify cache key)
            (λ e. (_, at_classify, skipped)) (λ c e. judge-Guarded cache c e))
        (λ f q. (_, at_classify, failed (by_database f refl)))

  takes-MayWrite :
      (judged o : Option (CacheRow Json)) → takes row o ≡ true → MayWrite topic row judged o
  takes-MayWrite judged none h = first
  takes-MayWrite judged (some c) h = newer (ground arith) (ground arith)

  -- Whichever statement fails and whatever other sessions commit between the statements, a run of
  -- the upsert leaves the cache as its last statement found it, but for the entity's state, and
  -- writes that only if there was none, or an older one of the same log, or one of another log while
  -- the record is from the declared topic and the state that the classification read was of another
  -- topic. A failure is the database's or terminal, and writes
  -- nothing.
  pub upsert-IsGuarded : (cache : Cache Json) → IsGuarded cache (upsert run topic row key cache)
  unfolding upsert
  upsert-IsGuarded cache =
      option_elim (IsGuarded cache) run.upsert_fault
        (λ q.
          if_elim (IsGuarded cache) (takes row (cache key))
            (λ h. (
              cache,
              at_upsert,
              wrote applied _ (λ n. absurd (cc)) (takes-MayWrite _ (cache key) h),
            ))
            (λ h. classify-Guarded cache))
        (λ f q. (cache, at_upsert, failed (by_database f refl)))

module _ {Json : Type 0} where
  same_state :
      (o : Option (CacheRow Json)) (c c' : CacheRow Json)
      → o ≡ some c
      → o ≡ some c'
      → c.applied_offset ≤ℤ c'.applied_offset
  same_state o c c' e e' = let q : c ≡ c' = ground arith in rw q (omega arith)

  -- A state that may be written over another of the same log is newer.
  overwrites :
      (now : ℕ) (topic : String) (row : ReceivedRow Json) (d : Bool)
      (judged o : Option (CacheRow Json))
      → MayWrite topic row judged o
      → (c : CacheRow Json) → o ≡ some c
      → c.applied_topic ≡ row.source_topic
      → c.applied_partition ≡ row.source_partition
      → c.applied_offset ≤ℤ row.source_offset
  overwrites now topic row d judged none first c e t p = absurd (cc)
  overwrites now topic row d judged (some c₁) (newer o l) c e t p =
      let q : c₁ ≡ c = ground arith in rw (← q) (omega arith)
  overwrites now topic row d judged (some c₁) (moves read o m j away) c e t p =
      let q : c₁ ≡ c = ground arith in absurd (cc (eq-same_origin c row t p, o, q))

  monotone :
      {now : ℕ} {topic : String} {row : ReceivedRow Json} {key : String}
      {judged : Option (CacheRow Json)} {b : Cache Json} {r : Result CacheApplyOutcome × Cache Json}
      → Guarded now topic row key judged b r
      → (k : String) (c c' : CacheRow Json) → b k ≡ some c
      → r.1 k ≡ some c'
      → c.applied_topic ≡ c'.applied_topic
      → c.applied_partition ≡ c'.applied_partition
      → c.applied_offset ≤ℤ c'.applied_offset
  unfolding state_of
  monotone {b} (failed f) k c c' e e' t p = same_state (b k) c c' e e'
  monotone {b} skipped k c c' e e' t p = same_state (b k) c c' e e'
  monotone {now} {topic} {row} {key} {judged} {b} (wrote o d n may) k c c' e e' t p =
      elim (Bool-cases (str_eq k key)) [
        | inl s ↦
            let at : k ≡ key = (eq_iff k key).0 s in
            let is : state_of now row d ≡ c' =
              ground (arith, put-same key (state_of now row d) b, e', at) in
            subst (λ x. c.applied_offset ≤ℤ x.applied_offset) is
              (overwrites now topic row d judged (b key) may c (subst (λ x. b x ≡ some c) at e)
                (t ∙ sym (ap (λ x. x.applied_topic) is))
                (p ∙ sym (ap (λ x. x.applied_partition) is)))
        | inr s ↦
            let away : k ≢ key = λ q. ground (arith, (eq_iff k key).1 q) in
            same_state (b k) c c' e (sym (put-other key (state_of now row d) b k away) ∙ e')
      ]

module _ {Json : Type 0} (run : CacheRun Json) (topic : String) (row : ReceivedRow Json)
    (key : String) where
  -- Within one log an entity's offset never falls: where a run finds a state and leaves one of the
  -- same topic and partition, the one it leaves is at least as new.
  pub offset_never_falls :
      (cache : Cache Json)
      → (b : Cache Json) × Entered run cache b
        × ((k : String) (c c' : CacheRow Json)
            → b k ≡ some c
            → (upsert run topic row key cache).1 k ≡ some c'
            → c.applied_topic ≡ c'.applied_topic
            → c.applied_partition ≡ c'.applied_partition
            → c.applied_offset ≤ℤ c'.applied_offset)
  offset_never_falls cache =
      let (b, entered, guarded) = upsert-IsGuarded run topic row key cache in
      (b, entered, λ k c c'. monotone guarded k c c')
