-- ===== src/Base/Table.antt =====
-- A database table as a list of rows, and the statements that the code sends to it: a row filter,
-- `UPDATE … SET … WHERE`, `DELETE … WHERE`, `EXISTS`, and what each says of the table's rows.
use Prim.Native.Nat.{ℕ, zero, suc, ◌≤◌, ◌*◌, ◌/◌}
use mathlib.Core.Path.{◌≡◌, refl, sym, subst}
use mathlib.Core.Logic.{◌⊎◌, inl, inr}
use mathlib.Core.Bool.{Bool, true, false}
use mathlib.Core.Option.{Option, none, some}
use mathlib.Core.List.{List, [], ◌∷◌, ◌++◌, Memᴰ}
use native.Mathlib.Omega.{arith}
use kafkaman.Base.Tests.{if◌then◌else◌, Bool-cases}
use kafkaman.Base.Lists.{length, take, All}

module _ {ℓ} {A : Type ℓ} where
  -- The first row that satisfies the condition.
  unfoldable pub find_where : (A → Bool) → List A → Option A
  find_where p [] = none
  find_where p (r ∷ rs) = if p r then some r else find_where p rs

  unfoldable pub exists_where : (A → Bool) → List A → Bool
  exists_where p [] = false
  exists_where p (r ∷ rs) = if p r then true else exists_where p rs

  unfoldable pub select_where : (A → Bool) → List A → List A
  select_where p [] = []
  select_where p (r ∷ rs) = let rest = select_where p rs in if p r then r ∷ rest else rest

  -- `UPDATE … SET f WHERE p`.
  unfoldable pub update_where : (A → Bool) → (A → A) → List A → List A
  update_where p f [] = []
  update_where p f (r ∷ rs) = (if p r then f r else r) ∷ update_where p f rs

  -- `DELETE … WHERE p`.
  unfoldable pub delete_where : (A → Bool) → List A → List A
  delete_where p [] = []
  delete_where p (r ∷ rs) = let rest = delete_where p rs in if p r then rest else r ∷ rest

  -- `rows_affected`.
  unfoldable pub count_where : (A → Bool) → List A → ℕ
  count_where p [] = 0
  count_where p (r ∷ rs) = let rest = count_where p rs in if p r then suc rest else rest

module _ {ℓ} {A : Type ℓ} where
  pub find_where-mem :
      (p : A → Bool) (xs : List A) {r : A} → find_where p xs ≡ some r → Memᴰ r xs × (p r ≡ true)
  unfolding find_where
  find_where-mem p [] h = absurd (cc)
  find_where-mem p (x ∷ xs) {r} h = elim (Bool-cases (p x)) [
    | inl e ↦ let same : x ≡ r = ground arith in (Memᴰ.head (sym same), rw (← same) e)
    | inr e ↦
        let rest : find_where p xs ≡ some r = ground arith in
        (Memᴰ.tail (find_where-mem p xs rest).0, (find_where-mem p xs rest).1)
  ]

  pub mem-find_where :
      (p : A → Bool) {s : A} {xs : List A}
      → Memᴰ s xs
      → p s ≡ true
      → (r : A) × (find_where p xs ≡ some r)
  unfolding find_where
  mem-find_where p (Memᴰ.head {x} {xs} q) h = (x, rw (← q, h))
  mem-find_where p (Memᴰ.tail {x} {xs} m) h =
      let later = mem-find_where p m h in
      elim (Bool-cases (p x)) [ inl e ↦ (x, rw e) | inr e ↦ (later.0, rw e later.1) ]

  pub exists_where-mem :
      (p : A → Bool) (xs : List A) → exists_where p xs ≡ true → (r : A) × Memᴰ r xs × (p r ≡ true)
  unfolding exists_where
  exists_where-mem p [] h = absurd (cc)
  exists_where-mem p (x ∷ xs) h = elim (Bool-cases (p x)) [
    | inl e ↦ (x, Memᴰ.head refl, e)
    | inr e ↦ let rest = exists_where-mem p xs (ground arith) in (rest.0, Memᴰ.tail rest.1, rest.2)
  ]

  pub mem-exists_where :
      (p : A → Bool) {s : A} {xs : List A} → Memᴰ s xs → p s ≡ true → exists_where p xs ≡ true
  unfolding exists_where
  mem-exists_where p (Memᴰ.head {x} {xs} q) h = rw (← q, h)
  mem-exists_where p (Memᴰ.tail {x} {xs} m) h = ground (arith, mem-exists_where p m h)

  pub not-exists_where :
      (p : A → Bool) {s : A} {xs : List A} → Memᴰ s xs → exists_where p xs ≡ false → p s ≡ false
  not-exists_where p {s} m h = elim (Bool-cases (p s)) [
    | inl e ↦ absurd (cc (mem-exists_where p m e, h))
    | inr e ↦ e
  ]

  pub Memᴰ-cases : {a x : A} {xs : List A} → Memᴰ a (x ∷ xs) → (a ≡ x) ⊎ Memᴰ a xs
  Memᴰ-cases (Memᴰ.head q) = inl q
  Memᴰ-cases (Memᴰ.tail m) = inr m

  pub select_where-mem :
      (p : A → Bool) (xs : List A) {r : A} → Memᴰ r (select_where p xs) → Memᴰ r xs × (p r ≡ true)
  unfolding select_where
  select_where-mem p [] m = elim m [ ]
  select_where-mem p (x ∷ xs) {r} m = elim (Bool-cases (p x)) [
    | inl e ↦ elim (Memᴰ-cases (rw e at m)) [
      | inl q ↦ (Memᴰ.head q, rw q e)
      | inr k ↦ let rest = select_where-mem p xs k in (Memᴰ.tail rest.0, rest.1)
    ]
    | inr e ↦ let rest = select_where-mem p xs (rw e at m) in (Memᴰ.tail rest.0, rest.1)
  ]

  -- Each row of the updated table is a row of the old one, or its image.
  pub update_where-mem :
      (p : A → Bool) (f : A → A) (xs : List A) {r : A}
      → Memᴰ r (update_where p f xs)
      → (s : A) × Memᴰ s xs × (r ≡ (if p s then f s else s))
  unfolding update_where
  update_where-mem p f [] m = elim m [ ]
  update_where-mem p f (x ∷ xs) m = elim (Memᴰ-cases m) [
    | inl q ↦ (x, Memᴰ.head refl, q)
    | inr k ↦ let rest = update_where-mem p f xs k in (rest.0, Memᴰ.tail rest.1, rest.2)
  ]

  pub mem-update_where :
      (p : A → Bool) (f : A → A) {s : A} {xs : List A}
      → Memᴰ s xs
      → Memᴰ (if p s then f s else s) (update_where p f xs)
  unfolding update_where
  mem-update_where p f (Memᴰ.head q) = Memᴰ.head (rw q)
  mem-update_where p f (Memᴰ.tail m) = Memᴰ.tail (mem-update_where p f m)

  pub delete_where-mem :
      (p : A → Bool) (xs : List A) {r : A} → Memᴰ r (delete_where p xs) → Memᴰ r xs × (p r ≡ false)
  unfolding delete_where
  delete_where-mem p [] m = elim m [ ]
  delete_where-mem p (x ∷ xs) {r} m = elim (Bool-cases (p x)) [
    | inl e ↦ let rest = delete_where-mem p xs (rw e at m) in (Memᴰ.tail rest.0, rest.1)
    | inr e ↦ elim (Memᴰ-cases (rw e at m)) [
      | inl q ↦ (Memᴰ.head q, rw q e)
      | inr k ↦ let rest = delete_where-mem p xs k in (Memᴰ.tail rest.0, rest.1)
    ]
  ]

  pub mem-delete_where :
      (p : A → Bool) {s : A} {xs : List A} → Memᴰ s xs → p s ≡ false → Memᴰ s (delete_where p xs)
  unfolding delete_where
  mem-delete_where p (Memᴰ.head {x} {xs} q) h = rw (← q, h) (Memᴰ.head refl)
  mem-delete_where p (Memᴰ.tail {x} {xs} m) h = elim (Bool-cases (p x)) [
    | inl e ↦ rw e (mem-delete_where p m h)
    | inr e ↦ rw e (Memᴰ.tail (mem-delete_where p m h))
  ]

  pub append-mem : (xs ys : List A) {r : A} → Memᴰ r (xs ++ ys) → Memᴰ r xs ⊎ Memᴰ r ys
  append-mem [] ys m = inr m
  append-mem (x ∷ xs) ys m = elim (Memᴰ-cases m) [
    | inl q ↦ inl (Memᴰ.head q)
    | inr k ↦ elim (append-mem xs ys k) [ inl a ↦ inl (Memᴰ.tail a) | inr b ↦ inr b ]
  ]

  pub mem-append_left : {r : A} {xs : List A} (ys : List A) → Memᴰ r xs → Memᴰ r (xs ++ ys)
  mem-append_left ys (Memᴰ.head q) = Memᴰ.head q
  mem-append_left ys (Memᴰ.tail m) = Memᴰ.tail (mem-append_left ys m)

  pub mem-append_last : (xs : List A) (r : A) → Memᴰ r (xs ++ r ∷ [])
  mem-append_last [] r = Memᴰ.head refl
  mem-append_last (x ∷ xs) r = Memᴰ.tail (mem-append_last xs r)

  pub take-mem : (n : ℕ) (xs : List A) {r : A} → Memᴰ r (take n xs) → Memᴰ r xs
  take-mem zero xs m = elim m [ ]
  take-mem (suc n) [] m = elim m [ ]
  take-mem (suc n) (x ∷ xs) m = elim (Memᴰ-cases m) [
    | inl q ↦ Memᴰ.head q
    | inr k ↦ Memᴰ.tail (take-mem n xs k)
  ]

  pub count_where-le : (p : A → Bool) (xs : List A) → count_where p xs ≤ length xs
  unfolding count_where
  count_where-le p [] = omega arith
  count_where-le p (x ∷ xs) = ground (arith, count_where-le p xs)

  pub mem-select_where :
      (p : A → Bool) {s : A} {xs : List A} → Memᴰ s xs → p s ≡ true → Memᴰ s (select_where p xs)
  unfolding select_where
  mem-select_where p (Memᴰ.head {x} {xs} q) h = rw (← q, h) (Memᴰ.head refl)
  mem-select_where p (Memᴰ.tail {x} {xs} m) h = elim (Bool-cases (p x)) [
    | inl e ↦ rw e (Memᴰ.tail (mem-select_where p m h))
    | inr e ↦ rw e (mem-select_where p m h)
  ]

  pub find_where-none :
      (p : A → Bool) {s : A} {xs : List A} → Memᴰ s xs → find_where p xs ≡ none → p s ≡ false
  find_where-none p {s} m h = elim (Bool-cases (p s)) [
    | inl e ↦ absurd (cc ((mem-find_where p m e).1, h))
    | inr e ↦ e
  ]

  pub All-mem {κ} : (P : A → Type κ) {r : A} {xs : List A} → All P xs → Memᴰ r xs → P r
  All-mem P h (Memᴰ.head q) = subst P (sym q) h.0
  All-mem P h (Memᴰ.tail m) = All-mem P h.1 m

-- A `TIMESTAMPTZ` column keeps an instant, in nanoseconds, to the microsecond.
unfoldable pub timestamptz : ℕ → ℕ
timestamptz instant = instant / 1000 * 1000

pub timestamptz_idem : (instant : ℕ) → timestamptz (timestamptz instant) ≡ timestamptz instant
unfolding timestamptz
timestamptz_idem instant = omega arith
