-- ===== src/Base/Text.antt =====
-- Texts by the numbers of their characters, which are the bytes where a text is ASCII.
use Prim.Native.Char.{Char, char, IsScalar, code, len_utf8, len_utf8_def, width}
use Prim.Native.Nat.{ℕ, ◌+◌, ◌<◌, ◌≤◌, compare, Ordering}
use Prim.Native.String.{String, len}
use Prim.Native.String.len as Len
use mathlib.Core.Path.{◌≡◌, refl, ◌∙◌}
use mathlib.Core.Bool.{Bool, true, false, ◌&&◌}
use mathlib.Core.List.{List, [], ◌∷◌, map}
use native.Mathlib.Omega.{arith}
use kafkaman.Base.Tests.{leb, ◌==◌, if◌then◌else◌, if_elim}
use kafkaman.Base.Lists.{length, All}

abbrev pub codes : String → List ℕ
codes String.[] = []
codes (String.◌∷◌ c s) = code c ∷ codes s

-- `to_ascii_lowercase` of one character.
abbrev pub to_lower : ℕ → ℕ
to_lower c = if leb b'A' c && leb c b'Z' then c + 32 else c

width_ascii : (n : ℕ) → n < 128 → width (compare n 128) (compare n 2048) (compare n 65536) ≡ 1
width_ascii n h = ground arith

pub len_utf8_ascii : (c : Char) → code c < 128 → len_utf8 c ≡ 1
len_utf8_ascii c h = (λ i. len_utf8_def c i) ∙ width_ascii (code c) h

-- The bytes of an ASCII text are its characters.
pub len_ascii : (s : String) → All (λ c. c < 128) (codes s) → len s ≡ length (codes s)
len_ascii String.[] h = refl
len_ascii (String.◌∷◌ c s) h = rw (Len.cons, len_utf8_ascii c h.0) (omega (arith, len_ascii s h.1))

pub length-map {ℓ κ} :
    {A : Type ℓ} {B : Type κ} (f : A → B) (xs : List A) → length (map f xs) ≡ length xs
length-map f [] = refl
length-map f (x ∷ xs) = omega (arith, length-map f xs)

pub IsScalar-lower : (n : ℕ) → IsScalar n → IsScalar (to_lower n)
IsScalar-lower n p =
    if_elim IsScalar (leb b'A' n && leb n b'Z') (λ e. ascii n (ground arith)) (λ e. p)
  where
    below : (n : ℕ) → n ≤ 90 → compare (n + 32) 55296 ≡ Ordering.lt
    below n h = ground arith

    ascii : (n : ℕ) → n ≤ 90 → IsScalar (n + 32)
    ascii n h = rw (below n h) tt

abbrev pub lower_char : Char → Char
lower_char (char n p) = char (to_lower n) (IsScalar-lower n p)

-- `str::to_ascii_lowercase`.
abbrev pub lowercase : String → String
lowercase String.[] = String.[]
lowercase (String.◌∷◌ c s) = String.◌∷◌ (lower_char c) (lowercase s)

-- `str::eq_ignore_ascii_case`.
unfoldable pub eq_ignore_case : String → String → Bool
eq_ignore_case String.[] String.[] = true
eq_ignore_case (String.◌∷◌ a s) (String.◌∷◌ b t) =
    (to_lower (code a) == to_lower (code b)) && eq_ignore_case s t
eq_ignore_case _ _ = false

-- `str::starts_with`.
unfoldable pub has_prefix : String → String → Bool
has_prefix String.[] s = true
has_prefix (String.◌∷◌ p prefix) String.[] = false
has_prefix (String.◌∷◌ p prefix) (String.◌∷◌ c s) = (code c == code p) && has_prefix prefix s

pub code-lower_char : (c : Char) → code (lower_char c) ≡ to_lower (code c)
code-lower_char (char n p) = refl

to_lower_idem : (n : ℕ) → to_lower (to_lower n) ≡ to_lower n
to_lower_idem n = ground arith

pub eq_ignore_case-lowercase : (s t : String) → eq_ignore_case (lowercase s) t ≡ eq_ignore_case s t
unfolding eq_ignore_case
eq_ignore_case-lowercase String.[] t = refl
eq_ignore_case-lowercase (String.◌∷◌ a s) String.[] = refl
eq_ignore_case-lowercase (String.◌∷◌ a s) (String.◌∷◌ b t) =
    rw (code-lower_char a, to_lower_idem (code a), eq_ignore_case-lowercase s t) refl
