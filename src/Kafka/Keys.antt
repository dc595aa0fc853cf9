-- ===== src/Kafka/Keys.antt =====
-- What kind of name a header has, and what a list of headers holds under it: ingest_record.rs.
use kafkaman.Base.{
  ℕ, String, Bool, true, false, Option, none, some, List, [], ◌∷◌, ◌||◌, not, ◌≡◌, refl, ◌∙◌, sym,
  ap, str_eq, eq_iff, arith, if◌then◌else◌, Bool-cases, inl, inr, has_prefix, lowercase,
}
use kafkaman.Outbox.Enqueue.{insert_header}
use kafkaman.Kafka.Headers.{get, or_insert, is_trace_header}

abbrev pub or_else {ℓ} : {A : Type ℓ} → Option A → Option A → Option A
or_else none o = o
or_else (some a) o = some a

pub or_else_assoc :
    {A : Type 0} (a b c : Option A) → or_else (or_else a b) c ≡ or_else a (or_else b c)
or_else_assoc none b c = refl
or_else_assoc (some a) b c = refl

pub or_else-none : {A : Type 0} (a : Option A) → or_else a none ≡ a
or_else-none none = refl
or_else-none (some a) = refl

abbrev pub when : Bool → String → Option String
when b v = if b then some v else none

pub get-or_insert :
    (n k v : String) (m : List (String × String))
    → get n (or_insert k v m) ≡ or_else (get n m) (when (str_eq k n) v)
unfolding get or_insert
get-or_insert n k v [] = refl
get-or_insert n k v ((j, w) ∷ m) =
    ground (arith, eq_iff k n, eq_iff j n, eq_iff j k, get-or_insert n k v m)

pub get-insert_header :
    (n k v : String) (m : List (String × String))
    → get n (insert_header k v m) ≡ or_else (when (str_eq k n) v) (get n m)
unfolding get insert_header
get-insert_header n k v [] = ground arith
get-insert_header n k v ((j, w) ∷ m) =
    ground (arith, eq_iff k n, eq_iff j n, eq_iff j k, get-insert_header n k v m)

-- A header's list with raw values.
abbrev pub Raw : Type 0
Raw = List (String × Option (List ℕ))

module _ (lossy : List ℕ → String) where
  -- The value of the first header that satisfies the condition and has one.
  unfoldable pub first_of : (String → Bool) → Raw → Option String
  first_of p [] = none
  first_of p ((key, none) ∷ rest) = first_of p rest
  first_of p ((key, some value) ∷ rest) = or_else (when (p key) (lossy value)) (first_of p rest)

  -- The same of the last one.
  unfoldable pub last_of : (String → Bool) → Raw → Option String
  last_of p [] = none
  last_of p ((key, none) ∷ rest) = last_of p rest
  last_of p ((key, some value) ∷ rest) = or_else (last_of p rest) (when (p key) (lossy value))

abbrev pub is_reserved : String → Bool
is_reserved name = has_prefix "kafkaman-" name

abbrev pub is_user : String → Bool
is_user key = not (is_trace_header (lowercase key) || is_reserved (lowercase key))

-- The header's key is `name`, ASCII case aside, as `name` is in lower case.
abbrev pub lowers_to : String → String → Bool
lowers_to name key = str_eq (lowercase key) name

abbrev pub is_key : String → String → Bool
is_key name key = str_eq key name

pub apart : (p : String → Bool) (a b : String) → p a ≡ true → p b ≡ false → str_eq a b ≡ false
apart p a b h g = elim (Bool-cases (str_eq a b)) [
  | inl e ↦ absurd (cc (ap p ((eq_iff a b).0 e), h, g))
  | inr e ↦ e
]

pub apart_symm : (p : String → Bool) (a b : String) → p a ≡ false → p b ≡ true → str_eq a b ≡ false
apart_symm p a b h g = elim (Bool-cases (str_eq a b)) [
  | inl e ↦ absurd (cc (ap p ((eq_iff a b).0 e), h, g))
  | inr e ↦ e
]

pub unmatched : (o : Option String) {b : Bool} (v : String) → b ≡ false → o ≡ or_else o (when b v)
unmatched o v h = rw h (sym (or_else-none o))

pub if_none : (b : Bool) → ◌≡◌ {A = Option String} (if b then none else none) none
if_none true = refl
if_none false = refl

-- A test of the name, where the key is the name, is one of the key.
pub tested :
    (p : String → Bool) (key name value : String)
    → (if p name then when (is_key name key) value else none)
      ≡ (if p key then when (is_key name key) value else none)
tested p key name value = elim (Bool-cases (str_eq key name)) [
  | inl e ↦
      ap (λ (t : String). if p t then when (is_key name key) value else none)
        (sym ((eq_iff key name).0 e))
  | inr e ↦ rw e (if_none (p name) ∙ sym (if_none (p key)))
]
