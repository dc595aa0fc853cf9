-- ===== src/Cache/Migration.antt =====
-- The move of an entity from an earlier topic to the declared one: it is final.
use kafkaman.Base.{
  ℕ, String, Bool, some, List, [], ◌∷◌, ◌≡◌, refl, ◌≢◌, inl, inr, sym, ap, ◌∙◌, str_eq, eq_iff,
  Bool-cases,
}
use kafkaman.Base.Int.{ltb_ℤ}
use kafkaman.Base.Table.{select_where}
use kafkaman.Received.{ReceivedRow}
use kafkaman.Cache.{CacheRow, Cache, state_of, upsert, same_origin}
use kafkaman.Cache.Origin.{
  quiet, put-same, eq-same_origin, upsert_newer, upsert_older, upsert_straggler,
  upsert_repartitioned,
}
use kafkaman.Cache.Convergence.{apply_all}

module _ {Json : Type 0} (declared key : String) where
  -- The entity has a state, and that is from the declared topic.
  abbrev pub IsMoved : Cache Json → Type 0
  IsMoved cache = (c : CacheRow Json) × (cache key ≡ some c) × (c.applied_topic ≡ declared)

  home-IsMoved :
      (now : ℕ) (row : ReceivedRow Json) (cache : Cache Json)
      → row.source_topic ≡ declared
      → IsMoved cache
      → IsMoved (upsert (quiet now) declared row key cache).1
  unfolding state_of
  home-IsMoved now row cache home (c, e, t) = elim (Bool-cases (same_origin c row)) [
    | inl o ↦ elim (Bool-cases (ltb_ℤ c.applied_offset row.source_offset)) [
      | inl l ↦ (
        state_of now row c.deleted,
        ap (λ r. r.1 key) (upsert_newer now declared row key cache c e o l) ∙ put-same key _ cache,
        home,
      )
      | inr l ↦ (c, ap (λ r. r.1 key) (upsert_older now declared row key cache c e o l) ∙ e, t)
    ]
    | inr o ↦
        let apart : c.applied_partition ≢ row.source_partition =
          λ q. absurd (cc (o, eq-same_origin c row (t ∙ sym home) q)) in
        (
          c,
          ap (λ r. r.1 key)
                (upsert_repartitioned now declared row key cache c e (t ∙ sym home) apart)
              ∙ e,
          t,
        )
  ]

  abbrev pub is_home : ℕ × ReceivedRow Json → Bool
  is_home (now, row) = str_eq row.source_topic declared

  -- Once an entity's state is from the declared topic, the records that still arrive from other
  -- topics have no effect: the cache is the one that the declared topic's records alone give, and
  -- the state stays on the declared topic.
  pub stragglers_ignored :
      (rows : List (ℕ × ReceivedRow Json)) (cache : Cache Json)
      → IsMoved cache
      → (apply_all declared key rows cache
          ≡ apply_all declared key (select_where is_home rows) cache)
        × IsMoved (apply_all declared key rows cache)
  unfolding apply_all select_where
  stragglers_ignored [] cache i = (refl, i)
  stragglers_ignored ((now, row) ∷ rows) cache i =
      let (same, j) = stragglers_ignored rows cache i in
      let (c, e, t) = j in
      elim (Bool-cases (str_eq row.source_topic declared)) [
        | inl h ↦ (
          rw h (ap (λ x. (upsert (quiet now) declared row key x).1) same),
          home-IsMoved now row (apply_all declared key rows cache) ((eq_iff _ _).0 h) j,
        )
        | inr h ↦
            let away : row.source_topic ≢ declared =
              λ q. absurd (cc (h, (eq_iff row.source_topic declared).1 q)) in
            let none_done =
              ap (λ r. r.1)
                (upsert_straggler now declared row key (apply_all declared key rows cache) c e t
                  away) in
            (rw h (none_done ∙ same), (c, ap (λ x. x key) none_done ∙ e, t))
      ]
