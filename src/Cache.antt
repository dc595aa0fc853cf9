-- ===== src/Cache.antt =====
-- crates/kafkaman-sqlx/src/dispatch_cache.rs: the guarded upsert of an entity's state. The cache
-- table has the entity key for its primary key, and is a function of it.
pub mod Convergence
pub mod Guard
pub mod Migration
pub mod Origin
use kafkaman.Base.{
  ℕ, String, Bool, true, false, Option, none, some, List, ◌&&◌, not, str_eq, if◌then◌else◌,
}
use kafkaman.Base.Int.{ℤ, eqb_ℤ, ltb_ℤ, leb_ℤ}
use kafkaman.Failure.{
  SqlxError, Error, Result, ok, err, sqlx, invalid_entity_key, missing_entity_key,
  cache_origin_mismatch, ◌>>=◌, ◌>>◌,
}
use kafkaman.Received.{ReceivedRow, ReceivedTable}

pub data CacheApplyOutcome : Type 0 where
  applied ignored migrated : CacheApplyOutcome

pub record CacheRow (Json : Type 0) : Type 0 where
  pub payload : Json
  pub applied_topic : String
  pub applied_partition : ℤ
  pub applied_offset : ℤ
  pub deleted : Bool
  pub updated_at : ℕ

abbrev pub Cache : Type 0 → Type 0
Cache Json = String → Option (CacheRow Json)

-- One run of the upsert: the clock, how each of its four statements fails, and what other sessions
-- commit to the cache before the second and before the third.
pub record CacheRun (Json : Type 0) : Type 0 where
  pub now : ℕ
  pub upsert_fault : Option SqlxError
  pub classify_fault : Option SqlxError
  pub lock_fault : Option SqlxError
  pub adopt_fault : Option SqlxError
  pub before_classify : Cache Json → Cache Json
  pub before_lock : Cache Json → Cache Json

module _ {Json : Type 0} where
  unfoldable pub put : String → CacheRow Json → Cache Json → Cache Json
  put key c cache k = if str_eq k key then some c else cache k

  -- `received_entity_key`: the column, and else the record's key.
  unfoldable pub received_entity_key : ReceivedTable → ReceivedRow Json → Result String
  received_entity_key t row = elim row.entity_key [
    | some entity_key ↦ ok entity_key
    | none ↦ elim row.key [
      | none ↦ err (missing_entity_key row.message_id row.message_type)
      | some bytes ↦ elim (t.from_utf8 bytes) [
        | some key ↦ ok key
        | none ↦ err (invalid_entity_key row.message_type)
      ]
    ]
  ]

  abbrev pub same_origin : CacheRow Json → ReceivedRow Json → Bool
  same_origin c row =
      str_eq c.applied_topic row.source_topic && eqb_ℤ c.applied_partition row.source_partition

  -- What the insert writes where there is no row, and the `WHERE` of `DO UPDATE` where there is one.
  abbrev pub takes : ReceivedRow Json → Option (CacheRow Json) → Bool
  takes row none = true
  takes row (some c) = same_origin c row && ltb_ℤ c.applied_offset row.source_offset

  abbrev deleted_flag : Option (CacheRow Json) → Bool
  deleted_flag none = false
  deleted_flag (some c) = c.deleted

  -- The row that a write leaves. `DO UPDATE` does not set `deleted`.
  unfoldable pub state_of : ℕ → ReceivedRow Json → Bool → CacheRow Json
  state_of now row deleted = record {
    payload = row.payload;
    applied_topic = row.source_topic;
    applied_partition = row.source_partition;
    applied_offset = row.source_offset;
    deleted = deleted;
    updated_at = now;
  }

  unfoldable pub mismatch : String → CacheRow Json → ReceivedRow Json → Error
  mismatch key c row =
      cache_origin_mismatch key c.applied_topic c.applied_partition row.source_topic
        row.source_partition

  unfoldable pub adopt :
      CacheRun Json
      → ReceivedRow Json
      → String
      → Cache Json
      → CacheRow Json
      → Result CacheApplyOutcome × Cache Json
  unfolding put state_of
  adopt run row key cache c =
      if same_origin c row && leb_ℤ row.source_offset c.applied_offset
      then (ok ignored, cache)
      else elim run.adopt_fault [
        | some e ↦ (err (sqlx e), cache)
        | none ↦ (
          ok (if same_origin c row then applied else migrated),
          put key (state_of run.now row false) cache,
        )
      ]

  -- `migrate_cache_origin`, on the cache as its locking read finds it.
  unfoldable pub migrate_cache_origin :
      CacheRun Json → ReceivedRow Json → String → Cache Json → Result CacheApplyOutcome × Cache Json
  unfolding adopt
  migrate_cache_origin run row key cache = elim run.lock_fault [
    | some e ↦ (err (sqlx e), cache)
    | none ↦ elim (cache key) [ none ↦ (ok ignored, cache) | some c ↦ adopt run row key cache c ]
  ]

  -- The four cases of a row that the upsert did not write.
  unfoldable pub judge :
      CacheRun Json
      → String
      → ReceivedRow Json
      → String
      → Cache Json
      → CacheRow Json
      → Result CacheApplyOutcome × Cache Json
  unfolding mismatch migrate_cache_origin
  judge run declared_topic row key cache c =
      if same_origin c row
      then (ok ignored, cache)
      else if str_eq c.applied_topic row.source_topic
      then (err (mismatch key c row), cache)
      else if str_eq row.source_topic declared_topic
      then migrate_cache_origin run row key (run.before_lock cache)
      else if str_eq c.applied_topic declared_topic
      then (ok ignored, cache)
      else (err (mismatch key c row), cache)

  unfoldable pub classify_skipped_cache_apply :
      CacheRun Json
      → String
      → ReceivedRow Json
      → String
      → Cache Json
      → Result CacheApplyOutcome × Cache Json
  unfolding judge
  classify_skipped_cache_apply run declared_topic row key cache = elim run.classify_fault [
    | some e ↦ (err (sqlx e), cache)
    | none ↦ elim (cache key) [
      | none ↦ (ok ignored, cache)
      | some c ↦ judge run declared_topic row key cache c
    ]
  ]

  unfoldable pub upsert :
      CacheRun Json
      → String
      → ReceivedRow Json
      → String
      → Cache Json
      → Result CacheApplyOutcome × Cache Json
  unfolding put state_of classify_skipped_cache_apply
  upsert run declared_topic row key cache = elim run.upsert_fault [
    | some e ↦ (err (sqlx e), cache)
    | none ↦
        if takes row (cache key)
        then (ok applied, put key (state_of run.now row (deleted_flag (cache key))) cache)
        else classify_skipped_cache_apply run declared_topic row key (run.before_classify cache)
  ]

  abbrev pub with_key :
      Result String
      → (String → Result CacheApplyOutcome × Cache Json)
      → Cache Json
      → Result CacheApplyOutcome × Cache Json
  with_key (err e) f cache = (err e, cache)
  with_key (ok key) f cache = f key

  unfoldable pub upsert_cache_from_received :
      CacheRun Json
      → ReceivedTable
      → ReceivedRow Json
      → Cache Json
      → Result CacheApplyOutcome × Cache Json
  unfolding received_entity_key upsert
  upsert_cache_from_received run t row cache =
      with_key (t.cache_table >> received_entity_key t row)
        (λ key. upsert run t.declared_topic row key cache) cache
