-- ===== src/Cache/Origin.antt =====
-- What one run of the upsert of dispatch_cache.rs does to an entity's state, by the state's origin.
use kafkaman.Base.{
  ℕ, String, true, false, none, some, ◌≡◌, refl, ◌≢◌, ◌∙◌, ◌⊎◌, inl, inr, sym, arith, str_eq,
  eq_iff, eq_refl, Bool-cases,
}
use kafkaman.Base.Int.{ltb_ℤ, eqb_ℤ_iff}
use kafkaman.Failure.{ok, err}
use kafkaman.Received.{ReceivedRow}
use kafkaman.Cache.{
  applied, ignored, migrated, CacheRow, Cache, CacheRun, put, same_origin, state_of, mismatch,
  adopt, migrate_cache_origin, judge, classify_skipped_cache_apply, upsert,
}

-- A run in which no statement fails, and which no other session enters.
abbrev pub quiet : {Json : Type 0} → ℕ → CacheRun Json
quiet now = record {
  now = now;
  upsert_fault = none;
  classify_fault = none;
  lock_fault = none;
  adopt_fault = none;
  before_classify = λ cache. cache;
  before_lock = λ cache. cache;
}

module _ {Json : Type 0} where
  pub put-same :
      (key : String) (c : CacheRow Json) (cache : Cache Json) → put key c cache key ≡ some c
  unfolding put
  put-same key c cache = rw (eq_refl key) refl

  pub put-other :
      (key : String) (c : CacheRow Json) (cache : Cache Json) (k : String)
      → k ≢ key
      → put key c cache k ≡ cache k
  unfolding put
  put-other key c cache k h = grind (arith, eq_iff k key)

  pub same_origin-eq :
      (c : CacheRow Json) (row : ReceivedRow Json)
      → same_origin c row ≡ true
      → (c.applied_topic ≡ row.source_topic) × (c.applied_partition ≡ row.source_partition)
  same_origin-eq c row h = grind (
    arith,
    eq_iff c.applied_topic row.source_topic,
    eqb_ℤ_iff c.applied_partition row.source_partition,
  )

  pub eq-same_origin :
      (c : CacheRow Json) (row : ReceivedRow Json)
      → c.applied_topic ≡ row.source_topic
      → c.applied_partition ≡ row.source_partition
      → same_origin c row ≡ true
  eq-same_origin c row t p = grind (
    arith,
    eq_iff c.applied_topic row.source_topic,
    eqb_ℤ_iff c.applied_partition row.source_partition,
  )

  pub differs-same_origin :
      (c : CacheRow Json) (row : ReceivedRow Json)
      → (c.applied_topic ≢ row.source_topic) ⊎ (c.applied_partition ≢ row.source_partition)
      → same_origin c row ≡ false
  differs-same_origin c row h = elim (Bool-cases (same_origin c row)) [
    | inl o ↦ elim h [
      | inl n ↦ absurd (n (same_origin-eq c row o).0)
      | inr n ↦ absurd (n (same_origin-eq c row o).1)
    ]
    | inr o ↦ o
  ]

pub str_eq-true : {a b : String} → a ≡ b → str_eq a b ≡ true
str_eq-true {a} {b} h = (eq_iff a b).1 h

pub str_eq-false : {a b : String} → a ≢ b → str_eq a b ≡ false
str_eq-false {a} {b} h = elim (Bool-cases (str_eq a b)) [
  | inl e ↦ absurd (h ((eq_iff a b).0 e))
  | inr e ↦ e
]

module _ {Json : Type 0} (now : ℕ) (topic : String) (row : ReceivedRow Json) (key : String)
    (cache : Cache Json) where
  pub upsert_absent :
      cache key ≡ none
      → upsert (quiet now) topic row key cache
        ≡ (ok applied, put key (state_of now row false) cache)
  unfolding upsert
  upsert_absent e = rw e refl

  module _ (c : CacheRow Json) (e : cache key ≡ some c) where
    pub upsert_newer :
        same_origin c row ≡ true
        → ltb_ℤ c.applied_offset row.source_offset ≡ true
        → upsert (quiet now) topic row key cache
          ≡ (ok applied, put key (state_of now row c.deleted) cache)
    unfolding upsert
    upsert_newer o l = rw (e, o, l) refl

    pub upsert_older :
        same_origin c row ≡ true
        → ltb_ℤ c.applied_offset row.source_offset ≡ false
        → upsert (quiet now) topic row key cache ≡ (ok ignored, cache)
    unfolding upsert classify_skipped_cache_apply judge
    upsert_older o l = rw (e, o, l) refl

    -- A record from another topic, once the entity is on the declared one.
    pub upsert_straggler :
        c.applied_topic ≡ topic
        → row.source_topic ≢ topic
        → upsert (quiet now) topic row key cache ≡ (ok ignored, cache)
    unfolding upsert classify_skipped_cache_apply judge
    upsert_straggler t n =
        let o = differs-same_origin c row (inl (λ q. n (sym q ∙ t))) in
        rw (e, o, str_eq-false (λ q. n (sym q ∙ t)), str_eq-false n, str_eq-true t) refl

    pub upsert_repartitioned :
        c.applied_topic ≡ row.source_topic
        → c.applied_partition ≢ row.source_partition
        → upsert (quiet now) topic row key cache ≡ (err (mismatch key c row), cache)
    unfolding upsert classify_skipped_cache_apply judge
    upsert_repartitioned t n = rw (e, differs-same_origin c row (inr n), str_eq-true t) refl

    pub upsert_migrates :
        c.applied_topic ≢ topic
        → row.source_topic ≡ topic
        → upsert (quiet now) topic row key cache
          ≡ (ok migrated, put key (state_of now row false) cache)
    unfolding upsert classify_skipped_cache_apply judge migrate_cache_origin adopt
    upsert_migrates t n =
        let other : c.applied_topic ≢ row.source_topic = λ q. t (q ∙ n) in
        let o = differs-same_origin c row (inl other) in
        rw (e, o, str_eq-false other, str_eq-true n, e, o) refl
