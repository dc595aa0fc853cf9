-- ===== src/Cache/Convergence.antt =====
-- The state of one entity after its records were applied, in whatever order and however often.
use mathlib.Core.List.{Memᴰ}
use kafkaman.Base.{
  ℕ, String, false, Option, none, some, List, [], ◌∷◌, ◌≡◌, refl, inl, inr, sym, ap, subst, ◌∙◌,
  arith, Bool-cases,
}
use kafkaman.Base.Int.{ℤ, eq_of_parts, ◌≤ℤ◌, ltb_ℤ}
use kafkaman.Base.Table.{Memᴰ-cases}
use kafkaman.Received.{ReceivedRow}
use kafkaman.Cache.{CacheRow, Cache, state_of, upsert}
use kafkaman.Cache.Origin.{
  quiet, put-same, eq-same_origin, upsert_absent, upsert_newer, upsert_older,
}

module _ {Json : Type 0} where
  -- The records of a list applied at their times, the last of the list first.
  unfoldable pub apply_all : String → String → List (ℕ × ReceivedRow Json) → Cache Json → Cache Json
  unfolding upsert
  apply_all topic key [] cache = cache
  apply_all topic key ((now, row) ∷ rest) cache =
      (upsert (quiet now) topic row key (apply_all topic key rest cache)).1

  -- The entity's state is one of the records, and no other is newer.
  pub record IsNewest (rows : List (ℕ × ReceivedRow Json)) (c : CacheRow Json) : Type 0 where
    pub now : ℕ
    pub row : ReceivedRow Json
    pub listed : Memᴰ (now, row) rows
    pub payload : c.payload ≡ row.payload
    pub offset : c.applied_offset ≡ row.source_offset
    pub no_newer :
        (t : ℕ) (s : ReceivedRow Json) → Memᴰ (t, s) rows → s.source_offset ≤ℤ c.applied_offset

-- A log: the records that one partition of one topic holds.
pub record IsOf {Json : Type 0} (topic : String) (partition : ℤ) (row : ReceivedRow Json)
    : Type 0 where
  pub topic_is : row.source_topic ≡ topic
  pub partition_is : row.source_partition ≡ partition

abbrev pub IsLog : {Json : Type 0} → String → ℤ → List (ℕ × ReceivedRow Json) → Type 0
IsLog topic partition rows = (t : ℕ) (s : ReceivedRow _) → Memᴰ (t, s) rows → IsOf topic partition s

-- The entity's state after the records `rows` of one log.
pub record IsConverged {Json : Type 0} (topic : String) (partition : ℤ)
    (rows : List (ℕ × ReceivedRow Json)) (c : CacheRow Json) : Type 0 where
  pub topic_is : c.applied_topic ≡ topic
  pub partition_is : c.applied_partition ≡ partition
  pub newest : IsNewest rows c

module _ {Json : Type 0} (declared topic key : String) (partition : ℤ) where
  step-IsConverged :
      (now : ℕ) (row : ReceivedRow Json) (rows : List (ℕ × ReceivedRow Json)) (cache : Cache Json)
      (c : CacheRow Json)
      → IsOf topic partition row
      → cache key ≡ some c
      → IsConverged topic partition rows c
      → (c' : CacheRow Json) × ((upsert (quiet now) declared row key cache).1 key ≡ some c')
        × IsConverged topic partition ((now, row) ∷ rows) c'
  unfolding state_of
  step-IsConverged now row rows cache c of e i =
      let o =
        eq-same_origin c row (i.topic_is ∙ sym of.topic_is)
          (i.partition_is ∙ sym of.partition_is) in
      elim (Bool-cases (ltb_ℤ c.applied_offset row.source_offset)) [
        | inl l ↦ (
          state_of now row c.deleted,
          ap (λ r. r.1 key) (upsert_newer now declared row key cache c e o l)
              ∙ put-same key _ cache,
          record {
            topic_is = of.topic_is;
            partition_is = of.partition_is;
            newest = record {
              now = now;
              row = row;
              listed = Memᴰ.head refl;
              payload = refl;
              offset = refl;
              no_newer = λ t s m. elim (Memᴰ-cases m) [
                | inl q ↦ let same : s ≡ row = ap (λ p. p.1) q in rw same (omega arith)
                | inr k ↦ ground (arith, i.newest.no_newer t s k)
              ];
            };
          },
        )
        | inr l ↦ (
          c,
          ap (λ r. r.1 key) (upsert_older now declared row key cache c e o l) ∙ e,
          record {
            topic_is = i.topic_is;
            partition_is = i.partition_is;
            newest = record {
              now = i.newest.now;
              row = i.newest.row;
              listed = Memᴰ.tail i.newest.listed;
              payload = i.newest.payload;
              offset = i.newest.offset;
              no_newer = λ t s m. elim (Memᴰ-cases m) [
                | inl q ↦ let same : s ≡ row = ap (λ p. p.1) q in rw same (ground arith)
                | inr k ↦ i.newest.no_newer t s k
              ];
            };
          },
        )
      ]

  first-IsConverged :
      (now : ℕ) (row : ReceivedRow Json)
      → IsOf topic partition row
      → IsConverged topic partition ((now, row) ∷ []) (state_of now row false)
  unfolding state_of
  first-IsConverged now row of = record {
    topic_is = of.topic_is;
    partition_is = of.partition_is;
    newest = record {
      now = now;
      row = row;
      listed = Memᴰ.head refl;
      payload = refl;
      offset = refl;
      no_newer = λ t s m. elim (Memᴰ-cases m) [
        | inl q ↦ let same : s ≡ row = ap (λ p. p.1) q in rw same (omega arith)
        | inr k ↦ elim k [ ]
      ];
    };
  }

  -- An entity without a state has, once one or more records of one log were applied, in any order
  -- and with repetitions, the state that the newest of them carries.
  pub converged :
      (now : ℕ) (row : ReceivedRow Json) (rest : List (ℕ × ReceivedRow Json)) (cache : Cache Json)
      → IsLog topic partition ((now, row) ∷ rest)
      → cache key ≡ none
      → (c : CacheRow Json) × (apply_all declared key ((now, row) ∷ rest) cache key ≡ some c)
        × IsConverged topic partition ((now, row) ∷ rest) c
  unfolding apply_all
  converged now row [] cache log e = (
    state_of now row false,
    ap (λ r. r.1 key) (upsert_absent now declared row key cache e) ∙ put-same key _ cache,
    first-IsConverged now row (log now row (Memᴰ.head refl)),
  )
  converged now row ((t, s) ∷ rest) cache log e =
      let (c, at, i) = converged t s rest cache (λ u x m. log u x (Memᴰ.tail m)) e in
      step-IsConverged now row ((t, s) ∷ rest) (apply_all declared key ((t, s) ∷ rest) cache) c
        (log now row (Memᴰ.head refl)) at i

-- Two records at one offset of a log are one record.
abbrev pub IsConsistent : {Json : Type 0} → List (ℕ × ReceivedRow Json) → Type 0
IsConsistent rows =
    (t u : ℕ) (r s : ReceivedRow _)
    → Memᴰ (t, r) rows
    → Memᴰ (u, s) rows
    → r.source_offset ≡ s.source_offset
    → r.payload ≡ s.payload

abbrev pub IsAmong :
    {Json : Type 0} → List (ℕ × ReceivedRow Json) → List (ℕ × ReceivedRow Json) → Type 0
IsAmong rows all = (t : ℕ) (s : ReceivedRow _) → Memᴰ (t, s) rows → (u : ℕ) × Memᴰ (u, s) all

module _ {Json : Type 0} where
  agree :
      {topic : String} {partition : ℤ} {rows all : List (ℕ × ReceivedRow Json)}
      {c c' : CacheRow Json}
      → IsConverged topic partition rows c
      → IsConverged topic partition all c'
      → IsConsistent all
      → IsAmong rows all
      → IsAmong all rows
      → (c.payload ≡ c'.payload) × (c.applied_offset ≡ c'.applied_offset)
  agree {c} {c'} i j h f g =
      let (u, m) = f i.newest.now i.newest.row i.newest.listed in
      let (v, n) = g j.newest.now j.newest.row j.newest.listed in
      let above : c.applied_offset ≤ℤ c'.applied_offset =
        subst (λ x. x ≤ℤ c'.applied_offset) (sym i.newest.offset)
          (j.newest.no_newer u i.newest.row m) in
      let below : c'.applied_offset ≤ℤ c.applied_offset =
        subst (λ x. x ≤ℤ c.applied_offset) (sym j.newest.offset)
          (i.newest.no_newer v j.newest.row n) in
      let same : c.applied_offset ≡ c'.applied_offset = eq_of_parts _ _ (omega arith) in
      (
        i.newest.payload
            ∙ h u j.newest.now i.newest.row j.newest.row m j.newest.listed
                (sym i.newest.offset ∙ same ∙ j.newest.offset)
            ∙ sym j.newest.payload,
        same,
      )

-- What a reader of the cache sees of an entity.
abbrev pub view : {Json : Type 0} → Option (CacheRow Json) → Option (Json × ℤ)
view none = none
view (some c) = some (c.payload, c.applied_offset)

module _ {Json : Type 0} (declared topic key : String) (partition : ℤ) where
  -- Two lists with the same records of one log, applied to a cache that has no state of the entity,
  -- give it the same payload and offset: the order, the times and the repetitions do not count. The
  -- lists are consistent: a log has one record at an offset.
  pub order_independent :
      (rows all : List (ℕ × ReceivedRow Json)) (cache : Cache Json)
      → IsLog topic partition rows
      → IsLog topic partition all
      → IsConsistent all
      → IsAmong rows all
      → IsAmong all rows
      → cache key ≡ none
      → view (apply_all declared key rows cache key) ≡ view (apply_all declared key all cache key)
  unfolding apply_all
  order_independent [] [] cache l l' h f g e = refl
  order_independent [] ((t, s) ∷ all) cache l l' h f g e = elim (g t s (Memᴰ.head refl)).1 [ ]
  order_independent ((t, s) ∷ rows) [] cache l l' h f g e = elim (f t s (Memᴰ.head refl)).1 [ ]
  order_independent ((t, s) ∷ rows) ((u, r) ∷ all) cache l l' h f g e =
      let (c, at, i) = converged declared topic key partition t s rows cache l e in
      let (c', at', j) = converged declared topic key partition u r all cache l' e in
      let (payload, offset) = agree i j h f g in
      ap view at ∙ (ap some (λ k. (payload k, offset k)) ∙ sym (ap view at'))
