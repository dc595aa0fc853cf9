-- ===== src/Base/Sort.antt =====
-- `ORDER BY` a number, ascending.
use Prim.Native.Nat.{ℕ, ◌≤◌}
use mathlib.Core.Path.{◌≡◌}
use mathlib.Core.Logic.{inl, inr}
use mathlib.Core.Bool.{Bool, true}
use mathlib.Core.Option.{some}
use mathlib.Core.List.{List, [], ◌∷◌, Memᴰ}
use native.Mathlib.Omega.{arith}
use kafkaman.Base.Tests.{leb, if◌then◌else◌, Bool-cases}
use kafkaman.Base.Lists.{All}
use kafkaman.Base.Table.{Memᴰ-cases, find_where, All-mem}

module _ {ℓ} {A : Type ℓ} (key : A → ℕ) where
  insert_by : A → List A → List A
  insert_by a [] = a ∷ []
  insert_by a (x ∷ xs) =
      let rest = insert_by a xs in if leb (key a) (key x) then a ∷ x ∷ xs else x ∷ rest

  unfoldable pub sort_by : List A → List A
  unfolding insert_by
  sort_by [] = []
  sort_by (x ∷ xs) = insert_by x (sort_by xs)

  -- Each key is at most the keys behind it.
  abbrev pub IsSorted : List A → Type 0
  IsSorted [] = Unit
  IsSorted (x ∷ xs) = All (λ y. key x ≤ key y) xs × IsSorted xs

  insert_by-mem : (a : A) (xs : List A) {r : A} → Memᴰ r (insert_by a xs) → Memᴰ r (a ∷ xs)
  unfolding insert_by
  insert_by-mem a [] m = m
  insert_by-mem a (x ∷ xs) m = elim (Bool-cases (leb (key a) (key x))) [
    | inl e ↦ rw e at m
    | inr e ↦ elim (Memᴰ-cases (rw e at m)) [
      | inl q ↦ Memᴰ.tail (Memᴰ.head q)
      | inr k ↦ elim (Memᴰ-cases (insert_by-mem a xs k)) [
        | inl q ↦ Memᴰ.head q
        | inr t ↦ Memᴰ.tail (Memᴰ.tail t)
      ]
    ]
  ]

  pub sort_by-mem : (xs : List A) {r : A} → Memᴰ r (sort_by xs) → Memᴰ r xs
  unfolding sort_by
  sort_by-mem [] m = m
  sort_by-mem (x ∷ xs) m = elim (Memᴰ-cases (insert_by-mem x (sort_by xs) m)) [
    | inl q ↦ Memᴰ.head q
    | inr k ↦ Memᴰ.tail (sort_by-mem xs k)
  ]

  insert_by-All : (P : A → Type 0) (a : A) (xs : List A) → P a → All P xs → All P (insert_by a xs)
  unfolding insert_by
  insert_by-All P a [] pa h = (pa, tt)
  insert_by-All P a (x ∷ xs) pa h = elim (Bool-cases (leb (key a) (key x))) [
    | inl e ↦ rw e (pa, h)
    | inr e ↦ rw e (h.0, insert_by-All P a xs pa h.1)
  ]

  All-le :
      (a x : A) (xs : List A)
      → key a ≤ key x
      → All (λ y. key x ≤ key y) xs
      → All (λ y. key a ≤ key y) xs
  All-le a x [] h t = tt
  All-le a x (y ∷ ys) h t = (omega arith, All-le a x ys h t.1)

  insert_by-IsSorted : (a : A) (xs : List A) → IsSorted xs → IsSorted (insert_by a xs)
  unfolding insert_by
  insert_by-IsSorted a [] h = (tt, tt)
  insert_by-IsSorted a (x ∷ xs) h = elim (Bool-cases (leb (key a) (key x))) [
    | inl e ↦ rw e ((ground arith, All-le a x xs (ground arith) h.0), h)
    | inr e ↦
        rw e
          (insert_by-All (λ y. key x ≤ key y) a xs (ground arith) h.0, insert_by-IsSorted a xs h.1)
  ]

  pub sort_by-IsSorted : (xs : List A) → IsSorted (sort_by xs)
  unfolding sort_by
  sort_by-IsSorted [] = tt
  sort_by-IsSorted (x ∷ xs) = insert_by-IsSorted x (sort_by xs) (sort_by-IsSorted xs)

  mem-insert_by : (a : A) (xs : List A) {r : A} → Memᴰ r (a ∷ xs) → Memᴰ r (insert_by a xs)
  unfolding insert_by
  mem-insert_by a [] m = m
  mem-insert_by a (x ∷ xs) m = elim (Bool-cases (leb (key a) (key x))) [
    | inl e ↦ rw e m
    | inr e ↦ elim (Memᴰ-cases m) [
      | inl q ↦ rw e (Memᴰ.tail (mem-insert_by a xs (Memᴰ.head q)))
      | inr k ↦ elim (Memᴰ-cases k) [
        | inl q ↦ rw e (Memᴰ.head q)
        | inr t ↦ rw e (Memᴰ.tail (mem-insert_by a xs (Memᴰ.tail t)))
      ]
    ]
  ]

  pub mem-sort_by : {r : A} {xs : List A} → Memᴰ r xs → Memᴰ r (sort_by xs)
  unfolding sort_by
  mem-sort_by (Memᴰ.head {x} {xs} q) = mem-insert_by x (sort_by xs) (Memᴰ.head q)
  mem-sort_by (Memᴰ.tail {x} {xs} m) = mem-insert_by x (sort_by xs) (Memᴰ.tail (mem-sort_by m))

  -- The first row of a sorted list that satisfies a condition is the least that does.
  pub find_where-least :
      (p : A → Bool) (xs : List A)
      → IsSorted xs
      → {r s : A} → find_where p xs ≡ some r
      → Memᴰ s xs
      → p s ≡ true
      → key r ≤ key s
  unfolding find_where
  find_where-least p [] h f m t = elim m [ ]
  find_where-least p (x ∷ xs) h {r} {s} f m t = elim (Bool-cases (p x)) [
    | inl e ↦
        let same : x ≡ r = ground arith in
        elim (Memᴰ-cases m) [
          | inl q ↦ rw (← same, q) (omega arith)
          | inr k ↦ rw (← same) (All-mem (λ y. key x ≤ key y) h.0 k)
        ]
    | inr e ↦
        let rest : find_where p xs ≡ some r = ground arith in
        elim (Memᴰ-cases m) [
          | inl q ↦ absurd (cc (e, t, q))
          | inr k ↦ find_where-least p xs h.1 rest k t
        ]
  ]
