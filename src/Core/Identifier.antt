-- ===== src/Core/Identifier.antt =====
-- crates/kafkaman-core/src/identifier.rs: names that are safe to put into generated SQL.
pub mod Accepted
use Prim.Native.Char.{code}
use Prim.Native.String.{len}
use kafkaman.Base.{
  ℕ, String, Bool, true, false, Option, none, some, List, [], ◌∷◌, ◌&&◌, ◌||◌, ◌==◌, leb, ltb, not,
  str_eq, if◌then◌else◌,
}
use kafkaman.Core.Error.{Error, invalid_identifier, Checked, accepted, rejected}

pub record SqlIdentifier : Type 0 where
  pub value : String

abbrev pub max_len : ℕ
max_len = 63

-- `char::is_ascii_lowercase`.
abbrev pub is_ascii_lowercase : ℕ → Bool
is_ascii_lowercase c = leb b'a' c && leb c b'z'

-- `char::is_ascii_digit`.
abbrev pub is_ascii_digit : ℕ → Bool
is_ascii_digit c = leb b'0' c && leb c b'9'

-- The characters that may follow the first.
abbrev pub may_follow : ℕ → Bool
may_follow c = is_ascii_lowercase c || is_ascii_digit c || c == b'_'

unfoldable pub all_follow : String → Bool
all_follow String.[] = true
all_follow (String.◌∷◌ c rest) = may_follow (code c) && all_follow rest

abbrev pub reserved_words : List String
reserved_words =
    "all" ∷ "alter" ∷ "and" ∷ "as" ∷ "by" ∷ "case" ∷ "create" ∷ "delete" ∷ "drop" ∷ "from" ∷ "group"
    ∷ "insert" ∷ "into" ∷ "join" ∷ "limit" ∷ "not" ∷ "null" ∷ "or" ∷ "order" ∷ "select" ∷ "set"
    ∷ "table" ∷ "type" ∷ "update" ∷ "where" ∷ []

-- `slice::binary_search(..).is_ok()`, which on a sorted list says whether the text is in it;
-- `reserved_words_are_sorted` of Accepted is about the list.
unfoldable pub finds : List String → String → Bool
finds [] value = false
finds (word ∷ words) value = str_eq word value || finds words value

unfoldable pub validate_identifier : String → Option Error
unfolding all_follow finds
validate_identifier String.[] = some (invalid_identifier String.[] "must not be empty")
validate_identifier (String.◌∷◌ first rest) =
    let value = String.◌∷◌ first rest in
    if ltb max_len (len value)
    then some (invalid_identifier value "must be at most 63 bytes")
    else if not (is_ascii_lowercase (code first))
    then some (invalid_identifier value "must start with a lowercase ASCII letter")
    else if not (all_follow rest)
    then some (
        invalid_identifier value
          "may contain only lowercase ASCII letters, digits, and underscores")
    else if finds reserved_words value
    then some (invalid_identifier value "must not be a reserved SQL word")
    else none

abbrev pub validated : String → Option Error → Checked SqlIdentifier
validated value none = accepted (record { value = value })
validated value (some e) = rejected e

unfoldable pub new : String → Checked SqlIdentifier
unfolding validate_identifier
new value = validated value (validate_identifier value)
