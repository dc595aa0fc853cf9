-- ===== src/Core/Idempotency.antt =====
-- crates/kafkaman-core/src/idempotency.rs: the key of a message and its hexadecimal form. A byte is a
-- number; `IdempotencyKey` is the list of its 32 bytes.
pub mod Hex
use Prim.Native.Char.{Char, code}
use Prim.Native.String.{len, char_at}
use kafkaman.Base.{
  ℕ, ◌+◌, ◌-◌, ◌*◌, ◌/◌, ◌%◌, ◌<◌, ◌≡◌, String, Bool, Option, none, some, List, [], ◌∷◌, ◌&&◌, ◌==◌,
  leb, length, All, codes, if◌then◌else◌,
}
use kafkaman.Core.Error.{Checked, accepted, rejected, invalid_idempotency_key}

abbrev pub hex_len : ℕ
hex_len = 64

-- A `u8` array of 32: the invariant of the type.
abbrev pub IsKey : List ℕ → Type 0
IsKey bytes = (length bytes ≡ 32) × All (λ b. b < 256) bytes

-- `nibble & 0x0f` indexes the table.
unfoldable pub hex_digit : ℕ → Char
hex_digit nibble = char_at "0123456789abcdef" (nibble % 16)

unfoldable pub decode_hex_nibble : ℕ → Option ℕ
decode_hex_nibble byte =
    if leb b'0' byte && leb byte b'9'
    then some (byte - b'0')
    else if leb b'a' byte && leb byte b'f'
    then some (byte - b'a' + 10)
    else if leb b'A' byte && leb byte b'F'
    then some (byte - b'A' + 10)
    else none

-- `byte >> 4` and `byte & 0x0f`, for each byte of the key.
unfoldable pub to_hex : List ℕ → String
unfolding hex_digit
to_hex [] = String.[]
to_hex (byte ∷ bytes) =
    String.◌∷◌ (hex_digit (byte / 16)) (String.◌∷◌ (hex_digit (byte % 16)) (to_hex bytes))

abbrev pub pair : Option ℕ → Option ℕ → Option (List ℕ) → Option (List ℕ)
pair (some high) (some low) (some bytes) = some ((high * 16 + low) ∷ bytes)
pair _ _ _ = none

-- The loop over the 32 pairs. A byte of a character outside ASCII is no digit, and neither is the
-- character's number, so that the two lists fail together.
unfoldable pub decode_pairs : List ℕ → Option (List ℕ)
unfolding decode_hex_nibble
decode_pairs [] = some []
decode_pairs (high ∷ []) = none
decode_pairs (high ∷ low ∷ rest) =
    pair (decode_hex_nibble high) (decode_hex_nibble low) (decode_pairs rest)

abbrev pub checked_digits : String → Option (List ℕ) → Checked (List ℕ)
checked_digits value (some bytes) = accepted bytes
checked_digits value none =
    rejected (invalid_idempotency_key value "must contain only hexadecimal characters")

unfoldable pub from_hex : String → Checked (List ℕ)
unfolding decode_pairs
from_hex value =
    if len value == hex_len
    then checked_digits value (decode_pairs (codes value))
    else rejected (invalid_idempotency_key value "must be 64 hexadecimal characters")
