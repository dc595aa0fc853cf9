-- ===== src/Core/Idempotency/Hex.antt =====
-- The hexadecimal form of a key.
use Prim.Native.Char.{code, len_utf8}
use Prim.Native.String.{len}
use Prim.Native.String.len as Len
use kafkaman.Base.{
  ℕ, zero, suc, ◌+◌, ◌*◌, ◌/◌, ◌%◌, ◌<◌, ◌≡◌, refl, String, Option, none, some, List, [], ◌∷◌, ◌==◌,
  length, All, if◌then◌else◌, arith, inl, inr, Bool-cases, map, ltb, codes, to_lower, len_ascii,
  subst, sym, ==_iff,
}
use kafkaman.Core.Error.{accepted}
use kafkaman.Core.Idempotency.{
  IsKey, hex_digit, decode_hex_nibble, to_hex, pair, decode_pairs, checked_digits, from_hex,
}

code-hex_digit : (n : ℕ) → n < 16 → code (hex_digit n) ≡ (if ltb n 10 then 48 + n else 87 + n)
unfolding hex_digit
code-hex_digit zero h = refl
code-hex_digit (suc zero) h = refl
code-hex_digit (suc (suc zero)) h = refl
code-hex_digit (suc (suc (suc zero))) h = refl
code-hex_digit (suc (suc (suc (suc zero)))) h = refl
code-hex_digit (suc (suc (suc (suc (suc zero))))) h = refl
code-hex_digit (suc (suc (suc (suc (suc (suc zero)))))) h = refl
code-hex_digit (suc (suc (suc (suc (suc (suc (suc zero))))))) h = refl
code-hex_digit (suc (suc (suc (suc (suc (suc (suc (suc zero)))))))) h = refl
code-hex_digit (suc (suc (suc (suc (suc (suc (suc (suc (suc zero))))))))) h = refl
code-hex_digit (suc (suc (suc (suc (suc (suc (suc (suc (suc (suc zero)))))))))) h = refl
code-hex_digit (suc (suc (suc (suc (suc (suc (suc (suc (suc (suc (suc zero))))))))))) h = refl
code-hex_digit (suc (suc (suc (suc (suc (suc (suc (suc (suc (suc (suc (suc zero)))))))))))) h = refl
code-hex_digit (suc (suc (suc (suc (suc (suc (suc (suc (suc (suc (suc (suc (suc zero)))))))))))))
      h =
    refl
code-hex_digit
      (suc (suc (suc (suc (suc (suc (suc (suc (suc (suc (suc (suc (suc (suc zero)))))))))))))) h =
    refl
code-hex_digit
      (suc (suc (suc (suc (suc (suc (suc (suc (suc (suc (suc (suc (suc (suc (suc zero)))))))))))))))
      h =
    refl
code-hex_digit
      (suc
        (suc (suc (suc (suc (suc (suc (suc (suc (suc (suc (suc (suc (suc (suc (suc n))))))))))))))))
      h =
    absurd (omega (arith, h))

len_utf8-hex_digit : (n : ℕ) → n < 16 → len_utf8 (hex_digit n) ≡ 1
unfolding hex_digit
len_utf8-hex_digit zero h = refl
len_utf8-hex_digit (suc zero) h = refl
len_utf8-hex_digit (suc (suc zero)) h = refl
len_utf8-hex_digit (suc (suc (suc zero))) h = refl
len_utf8-hex_digit (suc (suc (suc (suc zero)))) h = refl
len_utf8-hex_digit (suc (suc (suc (suc (suc zero))))) h = refl
len_utf8-hex_digit (suc (suc (suc (suc (suc (suc zero)))))) h = refl
len_utf8-hex_digit (suc (suc (suc (suc (suc (suc (suc zero))))))) h = refl
len_utf8-hex_digit (suc (suc (suc (suc (suc (suc (suc (suc zero)))))))) h = refl
len_utf8-hex_digit (suc (suc (suc (suc (suc (suc (suc (suc (suc zero))))))))) h = refl
len_utf8-hex_digit (suc (suc (suc (suc (suc (suc (suc (suc (suc (suc zero)))))))))) h = refl
len_utf8-hex_digit (suc (suc (suc (suc (suc (suc (suc (suc (suc (suc (suc zero))))))))))) h = refl
len_utf8-hex_digit (suc (suc (suc (suc (suc (suc (suc (suc (suc (suc (suc (suc zero)))))))))))) h =
    refl
len_utf8-hex_digit
      (suc (suc (suc (suc (suc (suc (suc (suc (suc (suc (suc (suc (suc zero))))))))))))) h =
    refl
len_utf8-hex_digit
      (suc (suc (suc (suc (suc (suc (suc (suc (suc (suc (suc (suc (suc (suc zero)))))))))))))) h =
    refl
len_utf8-hex_digit
      (suc (suc (suc (suc (suc (suc (suc (suc (suc (suc (suc (suc (suc (suc (suc zero)))))))))))))))
      h =
    refl
len_utf8-hex_digit
      (suc
        (suc (suc (suc (suc (suc (suc (suc (suc (suc (suc (suc (suc (suc (suc (suc n))))))))))))))))
      h =
    absurd (omega (arith, h))

decode_hex_nibble-hex_digit : (n : ℕ) → n < 16 → decode_hex_nibble (code (hex_digit n)) ≡ some n
unfolding decode_hex_nibble
decode_hex_nibble-hex_digit n h = rw (code-hex_digit n h) (ground arith)

decode_hex_nibble-some :
    (byte : ℕ) {n : ℕ}
    → decode_hex_nibble byte ≡ some n
    → (n < 16) × (code (hex_digit n) ≡ to_lower byte)
unfolding decode_hex_nibble
decode_hex_nibble-some byte {n} h =
    let small : n < 16 = ground arith in (small, rw (code-hex_digit n small) (ground arith))

decode_pairs-to_hex :
    (bytes : List ℕ) → All (λ b. b < 256) bytes → decode_pairs (codes (to_hex bytes)) ≡ some bytes
unfolding decode_pairs to_hex
decode_pairs-to_hex [] h = refl
decode_pairs-to_hex (b ∷ bs) h =
    rw
      (
        decode_hex_nibble-hex_digit (b / 16) (omega (arith, h.0)),
        decode_hex_nibble-hex_digit (b % 16) (omega arith),
        decode_pairs-to_hex bs h.1,
      )
      (ground arith)

len-to_hex : (bytes : List ℕ) → All (λ b. b < 256) bytes → len (to_hex bytes) ≡ 2 * length bytes
unfolding to_hex
len-to_hex [] h = refl
len-to_hex (b ∷ bs) h =
    rw
      (
        Len.cons,
        Len.cons,
        len_utf8-hex_digit (b / 16) (omega (arith, h.0)),
        len_utf8-hex_digit (b % 16) (omega arith),
      )
      (omega (arith, len-to_hex bs h.1))

abbrev IsReading : List ℕ → List ℕ → Type 0
IsReading cs bytes =
    All (λ b. b < 256) bytes
    × (codes (to_hex bytes) ≡ map to_lower cs)
    × (length cs ≡ 2 * length bytes)
    × All (λ c. c < 128) cs

pair-some :
    (a b : Option ℕ) (c : Option (List ℕ)) {bytes : List ℕ}
    → pair a b c ≡ some bytes
    → (h : ℕ) × (l : ℕ) × (bs : List ℕ) × (a ≡ some h)
      × (b ≡ some l)
      × (c ≡ some bs)
      × (bytes ≡ (h * 16 + l) ∷ bs)
pair-some (some h) (some l) (some bs) e = (h, l, bs, refl, refl, refl, ground arith)
pair-some none b c e = absurd (cc)
pair-some (some h) none c e = absurd (cc)
pair-some (some h) (some l) none e = absurd (cc)

IsReading-cons :
    {h l x y : ℕ} (bs cs : List ℕ)
    → (h < 16) × (code (hex_digit h) ≡ to_lower x)
    → (l < 16) × (code (hex_digit l) ≡ to_lower y)
    → (x < 128) × (y < 128)
    → IsReading cs bs
    → IsReading (x ∷ y ∷ cs) ((h * 16 + l) ∷ bs)
unfolding to_hex
IsReading-cons {h} {l} bs cs a b small (every, same, sized, ascii) = (
  (omega (arith, a.0, b.0), every),
  let high : (h * 16 + l) / 16 ≡ h = omega (arith, b.0) in
      let low : (h * 16 + l) % 16 ≡ l = omega (arith, b.0) in rw (high, low, a.1, b.1, same) refl,
  omega (arith, sized),
  (small.0, (small.1, ascii)),
)

decode_hex_nibble_ascii : (byte : ℕ) {n : ℕ} → decode_hex_nibble byte ≡ some n → byte < 128
unfolding decode_hex_nibble
decode_hex_nibble_ascii byte h = ground arith

empty-IsReading : IsReading [] []
unfolding to_hex
empty-IsReading = (tt, refl, refl, tt)

-- The decoder reads both cases of a digit, and nothing else.
decode_pairs-some :
    (cs : List ℕ) {bytes : List ℕ} → decode_pairs cs ≡ some bytes → IsReading cs bytes
unfolding decode_pairs
decode_pairs-some [] {bytes} h = subst (IsReading []) (ground arith) empty-IsReading
decode_pairs-some (x ∷ []) h = absurd (cc)
decode_pairs-some (x ∷ y ∷ cs) {bytes} e =
    let (h, l, bs, eh, el, ebs, same) =
      pair-some (decode_hex_nibble x) (decode_hex_nibble y) (decode_pairs cs) e in
    subst (IsReading (x ∷ y ∷ cs)) (sym same) (
      IsReading-cons bs cs (decode_hex_nibble-some x eh) (decode_hex_nibble-some y el)
        (decode_hex_nibble_ascii x eh, decode_hex_nibble_ascii y el) (decode_pairs-some cs ebs))

-- A key survives its hexadecimal form.
pub from_hex-to_hex : (key : List ℕ) → IsKey key → from_hex (to_hex key) ≡ accepted key
unfolding from_hex
from_hex-to_hex key h = rw (len-to_hex key h.1, h.0, decode_pairs-to_hex key h.1) refl

checked_digits-accepted :
    (value : String) (o : Option (List ℕ)) {key : List ℕ}
    → checked_digits value o ≡ accepted key
    → o ≡ some key
checked_digits-accepted value none h = absurd (cc)
checked_digits-accepted value (some bytes) h = ground arith

-- What is accepted is a key, and its hexadecimal form is the text in lower case.
pub from_hex-accepted :
    (value : String) {key : List ℕ}
    → from_hex value ≡ accepted key
    → IsKey key × (codes (to_hex key) ≡ map to_lower (codes value))
unfolding from_hex
from_hex-accepted value {key} h = elim (Bool-cases (len value == 64)) [
  | inr e ↦ absurd (cc (rw e at h))
  | inl e ↦
      let (every, same, sized, ascii) =
        decode_pairs-some (codes value)
          (checked_digits-accepted value (decode_pairs (codes value)) (rw e at h)) in
      ((omega (arith, sized, len_ascii value ascii, (==_iff (len value) 64).0 e), every), same)
]
