-- ===== src/Received/Dedup.antt =====
-- What storing a record does, by the rows that are there: received_storage.rs.
use mathlib.Core.List.{Memᴰ}
use kafkaman.Base.{
  ℕ, String, Bool, true, false, Option, none, some, List, [], ◌∷◌, ◌++◌, ◌||◌, ◌==◌, ◌≡◌, refl, inl,
  inr, ◌⊎◌, str_eq, eq_iff, ==_iff, arith, if_elim, option_elim, Bool-cases,
}
use kafkaman.Base.Table.{
  exists_where, exists_where-mem, not-exists_where, select_where, select_where-mem,
  mem-select_where, Memᴰ-cases,
}
use kafkaman.Failure.{SqlxError, Result, ok, err, sqlx}
use kafkaman.Received.{ReceivedRow}
use kafkaman.Received.Storage.{
  ReceivedInsertOutcome, Insertion, collides, judge_conflict, received_insert_conflict_outcome,
  insert_row,
}

module _ {Json : Type 0} where
  abbrev pub HasKey : String → List (ReceivedRow Json) → Type 0
  HasKey key rows = (r : ReceivedRow Json) × Memᴰ r rows × (r.idempotency_key ≡ key)

  abbrev pub HasId : ℕ → List (ReceivedRow Json) → Type 0
  HasId id rows = (r : ReceivedRow Json) × Memᴰ r rows × (r.message_id ≡ id)

  -- The verdict of the loop over rows, `saw` being that an earlier row had the id.
  pub data Verdict (id : ℕ) (key : String) (saw : Bool) (rows : List (ReceivedRow Json))
      : ReceivedInsertOutcome → Type 0 where
    same_key :
        HasKey key rows → Verdict id key saw rows ReceivedInsertOutcome.duplicate_idempotency_key
    same_id :
        ¬ HasKey key rows
        → (saw ≡ true) ⊎ HasId id rows
        → Verdict id key saw rows ReceivedInsertOutcome.message_id_conflict
    neither :
        ¬ HasKey key rows
        → saw ≡ false
        → ¬ HasId id rows
        → Verdict id key saw rows ReceivedInsertOutcome.duplicate_idempotency_key

  judge_conflict-Verdict :
      (id : ℕ) (key : String) (saw : Bool) (rows : List (ReceivedRow Json))
      → Verdict id key saw rows (judge_conflict id key saw rows)
  unfolding judge_conflict
  judge_conflict-Verdict id key true [] = same_id (λ (r, m, e). elim m [ ]) (inl refl)
  judge_conflict-Verdict id key false [] =
      neither (λ (r, m, e). elim m [ ]) refl (λ (r, m, e). elim m [ ])
  judge_conflict-Verdict id key saw (r ∷ rest) =
      if_elim (Verdict id key saw (r ∷ rest)) (str_eq r.idempotency_key key)
        (λ e. same_key (r, Memᴰ.head refl, (eq_iff r.idempotency_key key).0 e))
        (λ e. wider e (judge_conflict-Verdict id key (saw || r.message_id == id) rest))
    where
      not_here : str_eq r.idempotency_key key ≡ false → ¬ HasKey key rest → ¬ HasKey key (r ∷ rest)
      not_here e n (s, m, q) = elim (Memᴰ-cases m) [
        | inl same ↦ absurd (cc ((eq_iff r.idempotency_key key).1 (rw (← same) q), e))
        | inr later ↦ n (s, later, q)
      ]

      earlier :
          (r.message_id == id ≡ true) ⊎ (r.message_id == id ≡ false)
          → (saw || r.message_id == id) ≡ true
          → (saw ≡ true) ⊎ HasId id (r ∷ rest)
      earlier (inl e) q = inr (r, Memᴰ.head refl, (==_iff r.message_id id).0 e)
      earlier (inr e) q = inl (ground (arith, e, q))

      not_id : (saw || r.message_id == id) ≡ false → ¬ (r.message_id ≡ id)
      not_id q t = ground (arith, q, t)

      wider :
          {o : ReceivedInsertOutcome}
          → str_eq r.idempotency_key key ≡ false
          → Verdict id key (saw || r.message_id == id) rest o
          → Verdict id key saw (r ∷ rest) o
      wider e (same_key (s, m, q)) = same_key (s, Memᴰ.tail m, q)
      wider e (same_id n (inr (s, m, q))) = same_id (not_here e n) (inr (s, Memᴰ.tail m, q))
      wider e (same_id n (inl q)) =
          same_id (not_here e n) (earlier (Bool-cases (r.message_id == id)) q)
      wider e (neither n q u) = neither (not_here e n) (ground (arith, q)) (λ (s, m, t).
          elim (Memᴰ-cases m) [ inl same ↦ not_id q (rw (← same) t) | inr later ↦ u (s, later, t) ])

  -- The new row meets no row with its id or its key.
  abbrev pub IsNew : ReceivedRow Json → List (ReceivedRow Json) → Type 0
  IsNew row rows = ¬ HasKey row.idempotency_key rows × ¬ HasId row.message_id rows

  pub data Inserting (tx : Insertion Json) (row : ReceivedRow Json) (rows : List (ReceivedRow Json))
      : List (ReceivedRow Json) × Result ReceivedInsertOutcome → Type 0 where
    failed : (e : SqlxError) → tx.insert_fault ≡ some e → Inserting tx row rows (rows, err (sqlx e))
    added :
        IsNew row rows → Inserting tx row rows (rows ++ row ∷ [], ok ReceivedInsertOutcome.inserted)
    repeated :
        HasKey row.idempotency_key (tx.seen rows)
        → Inserting tx row rows (tx.seen rows, ok ReceivedInsertOutcome.duplicate_idempotency_key)
    clashing :
        ¬ HasKey row.idempotency_key (tx.seen rows)
        → HasId row.message_id (tx.seen rows)
        → Inserting tx row rows (tx.seen rows, ok ReceivedInsertOutcome.message_id_conflict)
    vanished :
        HasKey row.idempotency_key rows ⊎ HasId row.message_id rows
        → IsNew row (tx.seen rows)
        → Inserting tx row rows (tx.seen rows, ok ReceivedInsertOutcome.duplicate_idempotency_key)
    unread :
        (e : SqlxError)
        → tx.select_fault ≡ some e
        → Inserting tx row rows (tx.seen rows, err (sqlx e))

  collides-cases :
      (id : ℕ) (key : String) (r : ReceivedRow Json)
      → collides id key r ≡ true
      → (r.message_id ≡ id) ⊎ (r.idempotency_key ≡ key)
  unfolding collides
  collides-cases id key r h = elim (Bool-cases (r.message_id == id)) [
    | inl e ↦ inl ((==_iff r.message_id id).0 e)
    | inr e ↦ inr ((eq_iff r.idempotency_key key).0 (ground (arith, e, h)))
  ]

  id-collides :
      {id : ℕ} (key : String) (r : ReceivedRow Json) → r.message_id ≡ id → collides id key r ≡ true
  unfolding collides
  id-collides {id} key r q = ground (arith, q)

  key-collides :
      (id : ℕ) {key : String} (r : ReceivedRow Json)
      → r.idempotency_key ≡ key
      → collides id key r ≡ true
  unfolding collides
  key-collides id {key} r q = ground (arith, (eq_iff r.idempotency_key key).1 q)

  -- The classification looks at the rows that collide, and finds the id or the key where they are.
  selected-HasKey :
      (id : ℕ) (key : String) (rows : List (ReceivedRow Json))
      → HasKey key (select_where (collides id key) rows)
      → HasKey key rows
  selected-HasKey id key rows (r, m, q) = (r, (select_where-mem (collides id key) rows m).0, q)

  HasKey-selected :
      (id : ℕ) (key : String) (rows : List (ReceivedRow Json))
      → HasKey key rows
      → HasKey key (select_where (collides id key) rows)
  HasKey-selected id key rows (r, m, q) =
      (r, mem-select_where (collides id key) m (key-collides id r q), q)

  selected-HasId :
      (id : ℕ) (key : String) (rows : List (ReceivedRow Json))
      → HasId id (select_where (collides id key) rows)
      → HasId id rows
  selected-HasId id key rows (r, m, q) = (r, (select_where-mem (collides id key) rows m).0, q)

  HasId-selected :
      (id : ℕ) (key : String) (rows : List (ReceivedRow Json))
      → HasId id rows
      → HasId id (select_where (collides id key) rows)
  HasId-selected id key rows (r, m, q) =
      (r, mem-select_where (collides id key) m (id-collides key r q), q)

  classified :
      (tx : Insertion Json) (row : ReceivedRow Json) (rows : List (ReceivedRow Json))
      {o : ReceivedInsertOutcome}
      → exists_where (collides row.message_id row.idempotency_key) rows ≡ true
      → Verdict row.message_id row.idempotency_key false
          (select_where (collides row.message_id row.idempotency_key) (tx.seen rows))
          o
      → Inserting tx row rows (tx.seen rows, ok o)
  classified tx row rows h (same_key k) =
      repeated (selected-HasKey row.message_id row.idempotency_key (tx.seen rows) k)
  classified tx row rows h (same_id n (inl q)) = absurd (cc)
  classified tx row rows h (same_id n (inr i)) =
      clashing (λ k. n (HasKey-selected row.message_id row.idempotency_key (tx.seen rows) k))
        (selected-HasId row.message_id row.idempotency_key (tx.seen rows) i)
  classified tx row rows h (neither n q u) =
      let (r, m, c) = exists_where-mem (collides row.message_id row.idempotency_key) rows h in
      vanished
        (elim (collides-cases row.message_id row.idempotency_key r c) [
          | inl i ↦ inr (r, m, i)
          | inr k ↦ inl (r, m, k)
        ])
        (
          λ k. n (HasKey-selected row.message_id row.idempotency_key (tx.seen rows) k),
          λ i. u (HasId-selected row.message_id row.idempotency_key (tx.seen rows) i),
        )

  none_collides :
      (row : ReceivedRow Json) (rows : List (ReceivedRow Json))
      → exists_where (collides row.message_id row.idempotency_key) rows ≡ false
      → IsNew row rows
  none_collides row rows h = (
    λ (r, m, q). absurd (
        cc (
          not-exists_where (collides row.message_id row.idempotency_key) m h,
          key-collides row.message_id r q,
        )),
    λ (r, m, q). absurd (
        cc (
          not-exists_where (collides row.message_id row.idempotency_key) m h,
          id-collides row.idempotency_key r q,
        )),
  )

  pub insert_row-Inserting :
      (tx : Insertion Json) (row : ReceivedRow Json) (rows : List (ReceivedRow Json))
      → Inserting tx row rows (insert_row tx row rows)
  unfolding insert_row received_insert_conflict_outcome
  insert_row-Inserting tx row rows =
      option_elim (Inserting tx row rows) tx.insert_fault
        (λ q.
          if_elim (Inserting tx row rows)
            (exists_where (collides row.message_id row.idempotency_key) rows)
            (λ h. read h tx.select_fault refl) (λ h. added (none_collides row rows h)))
        (λ e q. failed e q)
    where
      read :
          exists_where (collides row.message_id row.idempotency_key) rows ≡ true
          → (fault : Option SqlxError) → tx.select_fault ≡ fault
          → Inserting tx row rows (
            tx.seen rows,
            received_insert_conflict_outcome fault row.message_id row.idempotency_key
                (tx.seen rows),
          )
      read h none q = classified tx row rows h (
          judge_conflict-Verdict row.message_id row.idempotency_key false
            (select_where (collides row.message_id row.idempotency_key) (tx.seen rows)))
      read h (some e) q = unread e q
