-- ===== src/Core/Identifier/Accepted.antt =====
-- What identifier.rs accepts.
use Prim.Native.Char.{Char, code}
use Prim.Native.String.{len}
use kafkaman.Base.{
  ℕ, String, Bool, true, false, none, some, List, [], ◌∷◌, ◌≡◌, ◌≢◌, refl, ◌≤◌, ◌⊎◌, ◌↔◌, not, ltb,
  str_eq, eq_iff, arith, Bool-cases, ap, sym, Option, ◌&&◌, ◌||◌, ◌==◌, if◌then◌else◌, All, codes,
  inl, inr,
}
use kafkaman.Core.Error.{Error, accepted}
use kafkaman.Core.Identifier.{
  SqlIdentifier, max_len, is_ascii_lowercase, may_follow, all_follow, reserved_words, finds,
  validate_identifier, validated, new,
}

abbrev pub IsLetter : ℕ → Type 0
IsLetter c = (b'a' ≤ c) × (c ≤ b'z')

abbrev pub IsWordCharacter : ℕ → Type 0
IsWordCharacter c = IsLetter c ⊎ (((b'0' ≤ c) × (c ≤ b'9')) ⊎ (c ≡ b'_'))

may_follow-IsWordCharacter : (c : ℕ) → may_follow c ≡ true → IsWordCharacter c
may_follow-IsWordCharacter c h = ground arith

IsWordCharacter-may_follow : (c : ℕ) → IsWordCharacter c → may_follow c ≡ true
IsWordCharacter-may_follow c h = ground arith

-- The order of texts, by their characters: the words are in it, which the binary search needs.
abbrev precedes : String → String → Bool
precedes String.[] String.[] = false
precedes String.[] (String.◌∷◌ b t) = true
precedes (String.◌∷◌ a s) String.[] = false
precedes (String.◌∷◌ a s) (String.◌∷◌ b t) =
    ltb (code a) (code b) || (code a == code b) && precedes s t

abbrev is_sorted : List String → Bool
is_sorted [] = true
is_sorted (word ∷ []) = true
is_sorted (word ∷ next ∷ words) = precedes word next && is_sorted (next ∷ words)

reserved_words_are_sorted : is_sorted reserved_words ≡ true
reserved_words_are_sorted = refl

-- What a name in SQL may be: one lower-case letter, then letters, digits and underscores, in no more
-- than 63 bytes, and no reserved word.
pub data IsName : String → Type 0 where
  named :
      (first : Char) (rest : String)
      → IsLetter (code first)
      → All IsWordCharacter (codes rest)
      → len (String.◌∷◌ first rest) ≤ 63
      → All (λ word. word ≢ String.◌∷◌ first rest) reserved_words
      → IsName (String.◌∷◌ first rest)

all_follow-All : (s : String) → all_follow s ≡ true → All IsWordCharacter (codes s)
unfolding all_follow
all_follow-All String.[] h = tt
all_follow-All (String.◌∷◌ c s) h =
    let both : (may_follow (code c) ≡ true) × (all_follow s ≡ true) = ground (arith, h) in
    (may_follow-IsWordCharacter (code c) both.0, all_follow-All s both.1)

All-all_follow : (s : String) → All IsWordCharacter (codes s) → all_follow s ≡ true
unfolding all_follow
All-all_follow String.[] h = refl
All-all_follow (String.◌∷◌ c s) h =
    rw (IsWordCharacter-may_follow (code c) h.0, All-all_follow s h.1) refl

finds-All :
    (words : List String) (value : String)
    → finds words value ≡ false
    → All (λ word. word ≢ value) words
unfolding finds
finds-All [] value h = tt
finds-All (word ∷ words) value h = elim (Bool-cases (str_eq word value)) [
  | inl e ↦ absurd (cc (rw e at h))
  | inr e ↦ ((λ q. absurd (cc ((eq_iff word value).1 q, e))), finds-All words value (rw e at h))
]

All-finds :
    (words : List String) (value : String)
    → All (λ word. word ≢ value) words
    → finds words value ≡ false
unfolding finds
All-finds [] value h = refl
All-finds (word ∷ words) value h = elim (Bool-cases (str_eq word value)) [
  | inl e ↦ absurd (h.0 ((eq_iff word value).0 e))
  | inr e ↦ rw (e, All-finds words value h.1) refl
]

-- The chain of checks passes only where each does.
passed :
    (long letter follow reserved : Bool) (e e' e'' e''' : Error)
    → (if long
        then some e
        else if not letter
        then some e'
        else if not follow
        then some e''
        else if reserved
        then some e'''
        else none)
      ≡ none
    → (long ≡ false) × (letter ≡ true) × (follow ≡ true) × (reserved ≡ false)
passed true letter follow reserved e e' e'' e''' h = absurd (cc h)
passed false false follow reserved e e' e'' e''' h = absurd (cc h)
passed false true false reserved e e' e'' e''' h = absurd (cc h)
passed false true true true e e' e'' e''' h = absurd (cc h)
passed false true true false e e' e'' e''' h = (refl, refl, refl, refl)

lowercase-IsLetter : (c : ℕ) → is_ascii_lowercase c ≡ true → IsLetter c
lowercase-IsLetter c h = ground arith

not_longer : (n : ℕ) → ltb max_len n ≡ false → n ≤ 63
not_longer n h = ground arith

valid-IsName : (value : String) → validate_identifier value ≡ none → IsName value
unfolding validate_identifier
valid-IsName String.[] h = absurd (cc h)
valid-IsName (String.◌∷◌ first rest) h =
    let (short, starts, continues, unreserved) =
      passed (ltb max_len (len (String.◌∷◌ first rest))) (is_ascii_lowercase (code first))
        (all_follow rest) (finds reserved_words (String.◌∷◌ first rest)) _ _ _ _ h in
    named first rest (lowercase-IsLetter (code first) starts) (all_follow-All rest continues)
      (not_longer (len (String.◌∷◌ first rest)) short)
      (finds-All reserved_words (String.◌∷◌ first rest) unreserved)

IsLetter-lowercase : (c : ℕ) → IsLetter c → is_ascii_lowercase c ≡ true
IsLetter-lowercase c h = ground arith

IsName-valid : {value : String} → IsName value → validate_identifier value ≡ none
unfolding validate_identifier
IsName-valid (named first rest starts continues fits unreserved) =
    let short : ltb max_len (len (String.◌∷◌ first rest)) ≡ false = ground (arith, fits) in
    rw
      (
        short,
        IsLetter-lowercase (code first) starts,
        All-all_follow rest continues,
        All-finds reserved_words (String.◌∷◌ first rest) unreserved,
      )
      refl

validated-value :
    (value : String) (e : Option Error) (id : SqlIdentifier)
    → validated value e ≡ accepted id
    → (e ≡ none) × (id.value ≡ value)
validated-value value none id h =
    let same : record { value = value } ≡ id = cc h in
    (refl, ap (λ (i : SqlIdentifier). i.value) (sym same))
validated-value value (some e) id h = absurd (cc h)

accepted-IsName :
    (value : String) (id : SqlIdentifier)
    → new value ≡ accepted id
    → (id.value ≡ value) × IsName value
unfolding new
accepted-IsName value id h =
    let (valid, same) = validated-value value (validate_identifier value) id h in
    (same, valid-IsName value valid)

IsName-accepted :
    (value : String) (id : SqlIdentifier)
    → (id.value ≡ value) × IsName value
    → new value ≡ accepted id
unfolding new
IsName-accepted value id (same, name) =
    rw (IsName-valid name) (ap (λ v. accepted (record { value = v })) (sym same))

-- A text becomes an identifier exactly when it is a lower-case ASCII letter that lower-case ASCII
-- letters, digits and underscores follow, in 63 bytes at most, and none of the reserved words; the
-- identifier is the text itself.
pub new-IsName :
    (value : String) (id : SqlIdentifier)
    → (new value ≡ accepted id) ↔ ((id.value ≡ value) × IsName value)
new-IsName value id = (accepted-IsName value id, IsName-accepted value id)
