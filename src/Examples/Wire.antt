-- ===== src/Examples/Wire.antt =====
-- A codec that reads what it writes, and a row that is published and read with it.
use Prim.Native.Char.{Char, char, code, nul, IsScalar}
use Prim.Native.Nat.{Ordering, compare}
use text.Mathlib.TextEquality.{Char-path}
use kafkaman.Base.{
  ℕ, zero, suc, String, true, false, Option, none, some, List, [], ◌∷◌, ◌≡◌, refl, ap, arith, codes,
  to_lower, map, if◌then◌else◌, has_prefix,
}
use kafkaman.Base.Int.{pos}
use kafkaman.Core.Status.{OutboxStatus}
use kafkaman.Core.Error.{Parsed, parsed, malformed, accepted}
use kafkaman.Core.Idempotency.{IsKey, to_hex, from_hex}
use kafkaman.Core.Idempotency.Hex.{from_hex-to_hex, from_hex-accepted}
use kafkaman.Failure.{ok}
use kafkaman.Outbox.{OutboxRow}
use kafkaman.Outbox.Enqueue.{Call, returned, Message}
use kafkaman.Kafka.{KafkaRecord, Codec}
use kafkaman.Kafka as Kafka
use kafkaman.Kafka.Headers.{get, record_headers, is_trace_header}
use kafkaman.Kafka.Decode.{Made, DecodedRecord, record_envelope}
use kafkaman.Kafka.Keys.{is_reserved, first_of, last_of, lowers_to, is_key, is_user}
use kafkaman.Kafka.Namespaces.{reserved_first, user_last}
use kafkaman.Kafka.Publisher.{FutureRecord, future_record}
use kafkaman.Kafka.Wire.{delivered}
use kafkaman.Kafka.Carried.{IsFaithful}
use kafkaman.Kafka.RoundTrip.{IsSendable, IsCarried, published_is_decoded}

-- The character of a number, U+0000 where there is none.
abbrev pick :
    (n : ℕ) (a b c : Ordering)
    → compare n 55296 ≡ a
    → compare 57343 n ≡ b
    → compare n 1114112 ≡ c
    → Char
pick n Ordering.lt b c e f g = char n (rw e tt)
pick n Ordering.eq Ordering.lt Ordering.lt e f g = char n (rw (e, f, g) tt)
pick n Ordering.gt Ordering.lt Ordering.lt e f g = char n (rw (e, f, g) tt)
pick n _ _ _ e f g = nul

unfoldable pub from_code : ℕ → Char
from_code n = pick n (compare n 55296) (compare 57343 n) (compare n 1114112) refl refl refl

pick-code :
    (n : ℕ) (p : IsScalar n) (a b c : Ordering) (e : compare n 55296 ≡ a) (f : compare 57343 n ≡ b)
    (g : compare n 1114112 ≡ c)
    → code (pick n a b c e f g) ≡ n
pick-code n p Ordering.lt b c e f g = refl
pick-code n p Ordering.eq Ordering.lt Ordering.lt e f g = refl
pick-code n p Ordering.gt Ordering.lt Ordering.lt e f g = refl
pick-code n p Ordering.eq Ordering.lt Ordering.eq e f g = absurd (rw (e, f, g) at p)
pick-code n p Ordering.eq Ordering.lt Ordering.gt e f g = absurd (rw (e, f, g) at p)
pick-code n p Ordering.eq Ordering.eq c e f g = absurd (rw (e, f) at p)
pick-code n p Ordering.eq Ordering.gt c e f g = absurd (rw (e, f) at p)
pick-code n p Ordering.gt Ordering.lt Ordering.eq e f g = absurd (rw (e, f, g) at p)
pick-code n p Ordering.gt Ordering.lt Ordering.gt e f g = absurd (rw (e, f, g) at p)
pick-code n p Ordering.gt Ordering.eq c e f g = absurd (rw (e, f) at p)
pick-code n p Ordering.gt Ordering.gt c e f g = absurd (rw (e, f) at p)

from_code-code : (c : Char) → from_code (code c) ≡ c
unfolding from_code
from_code-code (char n p) =
    Char-path (from_code n) (char n p)
      (pick-code n p (compare n 55296) (compare 57343 n) (compare n 1114112) refl refl refl)

unfoldable pub text_of : List ℕ → String
unfolding from_code
text_of [] = String.[]
text_of (c ∷ cs) = String.◌∷◌ (from_code c) (text_of cs)

text_of-codes : (s : String) → text_of (codes s) ≡ s
unfolding text_of
text_of-codes String.[] = refl
text_of-codes (String.◌∷◌ c s) = λ i. String.◌∷◌ (from_code-code c i) (text_of-codes s i)

-- A number as so many strokes.
unfoldable pub strokes : ℕ → String
strokes zero = String.[]
strokes (suc n) = String.◌∷◌ "1" (strokes n)

unfoldable pub tally : String → ℕ
tally String.[] = 0
tally (String.◌∷◌ c s) = suc (tally s)

tally-strokes : (n : ℕ) → tally (strokes n) ≡ n
unfolding tally strokes
tally-strokes zero = refl
tally-strokes (suc n) = ap suc (tally-strokes n)

abbrev pub message_of : ℕ → Message ℕ
message_of n = record {
  partition_key = returned none;
  entity_key = returned "order-1";
  serialize = returned (ok n);
}

abbrev pub read_payload : List ℕ → Call (Parsed (Message ℕ))
read_payload [] = returned (malformed "empty")
read_payload (n ∷ rest) = returned (parsed (message_of n))

abbrev pub codec : Codec ℕ
codec = record {
  as_bytes = codes;
  from_utf8_lossy = text_of;
  uuid_to_string = strokes;
  uuid_parse_str = λ s. parsed (tally s);
  format_rfc3339 = λ n. parsed (strokes n);
  parse_rfc3339 = λ s. parsed (tally s);
  json_to_string = strokes;
  json_from_str = λ s. some (tally s);
  json_to_vec = λ n. parsed (n ∷ []);
  payload_from_slice = read_payload;
}

pub codec-IsFaithful : IsFaithful codec
codec-IsFaithful = text_of-codes

abbrev pub made : Made
made = record { message_id = 90; correlation_id = 91; now = 92; core_text = λ e. "no" }

unfoldable pub repeat : ℕ → ℕ → List ℕ
repeat zero b = []
repeat (suc n) b = b ∷ repeat n b

abbrev pub key : List ℕ
key = repeat 32 171

pub key-IsKey : IsKey key
unfolding repeat
key-IsKey = ground arith

from_hex-to_hex_example : from_hex (to_hex key) ≡ accepted key
from_hex-to_hex_example = from_hex-to_hex key key-IsKey

abbrev upper : String
upper = "ABABABABABABABABABABABABABABABABABABABABABABABABABABABABABABABAB"

upper_accepted : from_hex upper ≡ accepted key
unfolding from_hex repeat
upper_accepted = refl

from_hex-accepted_example : IsKey key × (codes (to_hex key) ≡ map to_lower (codes upper))
from_hex-accepted_example = from_hex-accepted upper upper_accepted

abbrev row : OutboxRow ℕ
row = record {
  message_id = 5;
  idempotency_key = some (to_hex key);
  idempotency_source = some 8;
  status = OutboxStatus.publishing;
  attempts = 1;
  next_attempt_at = 0;
  last_error = none;
  claim_id = some 1;
  claimed_by = some "worker";
  claim_expires_at = some 40;
  topic = "orders";
  partition_key = none;
  entity_key = some "order-1";
  correlation_id = 6;
  causation_id = none;
  trace = none;
  headers = ("tenant", "a") ∷ ("kafkaman-entity-key", "order-1") ∷ ("Traceparent", "forged") ∷ [];
  payload = 3;
  occurred_at = 2;
  created_at = 2;
  published_at = none;
  enqueue_order = 1;
}

row-IsSendable : IsSendable codec row key (message_of 3)
unfolding strokes tally has_prefix
row-IsSendable = record {
  written = strokes 2;
  formats = refl;
  plain = (omega arith, (omega arith, tt));
  reads = refl;
  bytes = 3 ∷ [];
  encodes = refl;
  decodes = refl;
  identity = refl;
  sized = key-IsKey;
  unique = ((refl, (refl, tt)), ((refl, tt), (tt, tt)));
  enqueued = ((λ h. absurd (cc h)), ((λ h. refl), ((λ h. absurd (cc h)), tt)));
  message_id = refl;
  correlation_id = refl;
  causation_id = tt;
}

abbrev pub no_record : FutureRecord
no_record = record { topic = ""; key = none; payload = []; headers = [] }

abbrev pub sent_or : Kafka.Result FutureRecord → FutureRecord
sent_or (Kafka.ok sent) = sent
sent_or (Kafka.err e) = no_record

abbrev pub sent : FutureRecord
sent = sent_or (future_record codec row (some ("trace", none)))

row_sent : future_record codec row (some ("trace", none)) ≡ Kafka.ok sent
unfolding future_record
row_sent = refl

abbrev pub arrived : KafkaRecord
arrived = delivered codes sent (pos 0) (pos 7)

published_is_decoded_example :
    (r : DecodedRecord ℕ) × (record_envelope codec made "orders" arrived
        (record_headers text_of arrived)
      ≡ Kafka.ok r)
    × IsCarried codec row key (message_of 3) r.envelope
published_is_decoded_example =
    published_is_decoded codec codec-IsFaithful made row (some ("trace", none)) key (message_of 3)
      row-IsSendable (pos 0) (pos 7) sent row_sent

-- The second copy of a reserved header, in other letters, and two of a user's header.
abbrev raw : List (String × Option (List ℕ))
raw =
    ("Kafkaman-Message-Id", some (codes "1"))
    ∷ ("tenant", some (codes "a"))
    ∷ ("kafkaman-message-id", some (codes "11"))
    ∷ ("tenant", some (codes "b"))
    ∷ []

abbrev copied : KafkaRecord
copied = record arrived { headers = some raw }

message_id_reserved : is_reserved "kafkaman-message-id" ≡ true
unfolding has_prefix
message_id_reserved = refl

message_id_not_trace : is_trace_header "kafkaman-message-id" ≡ false
unfolding is_trace_header
message_id_not_trace = refl

reserved_first_example :
    get "kafkaman-message-id" (record_headers text_of copied).reserved
    ≡ first_of text_of (lowers_to "kafkaman-message-id") raw
reserved_first_example =
    reserved_first text_of "kafkaman-message-id" copied raw refl message_id_reserved
      message_id_not_trace

user_last_example :
    get "tenant" (record_headers text_of copied).user
    ≡ (if is_user "tenant" then last_of text_of (is_key "tenant") raw else none)
user_last_example = user_last text_of "tenant" copied raw refl
