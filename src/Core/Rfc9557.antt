-- ===== src/Core/Rfc9557.antt =====
-- crates/kafkaman-core/src/rfc9557.rs: timestamps with a bracketed annotation. The RFC 3339 text of
-- an instant is the `time` crate's: parameters.
use Prim.Native.Char.{code}
use Prim.Native.String.{◌++◌ as ◌<>◌}
use Prim.Native.String.append as Append
use kafkaman.Base.{ℕ, String, ◌≡◌, ◌≢◌, refl, ◌==◌, if◌then◌else◌, codes, All, arith}
use kafkaman.Core.Error.{Parsed, parsed, malformed}

-- `value.split_once('[')`, its first part; the whole text where there is no bracket.
unfoldable pub before_bracket : String → String
before_bracket String.[] = String.[]
before_bracket (String.◌∷◌ c s) =
    let rest = before_bracket s in if code c == b'[' then String.[] else String.◌∷◌ c rest

abbrev pub annotate : Parsed String → Parsed String
annotate (parsed text) = parsed (text <> "[UTC]")
annotate (malformed error) = malformed error

unfoldable pub render : (ℕ → Parsed String) → ℕ → Parsed String
render format value = annotate (format value)

unfoldable pub parse : (String → Parsed ℕ) → String → Parsed ℕ
unfolding before_bracket
parse read value = read (before_bracket value)

pub before_bracket-append :
    (t : String) → All (λ c. c ≢ b'[') (codes t) → before_bracket (t <> "[UTC]") ≡ t
unfolding before_bracket
before_bracket-append String.[] h = refl
before_bracket-append (String.◌∷◌ c s) h =
    rw (Append.cons, before_bracket-append s h.1) (ground (arith, h.0))

-- An instant whose RFC 3339 text holds no bracket and is read back, is read back from the text that
-- is written.
pub parse-render :
    (format : ℕ → Parsed String) (read : String → Parsed ℕ) (value : ℕ) (text : String)
    → format value ≡ parsed text
    → All (λ c. c ≢ b'[') (codes text)
    → read text ≡ parsed value
    → (written : String) × (render format value ≡ parsed written)
      × (parse read written ≡ parsed value)
unfolding render parse
parse-render format read value text f h r =
    (text <> "[UTC]", rw f refl, rw (before_bracket-append text h) r)
