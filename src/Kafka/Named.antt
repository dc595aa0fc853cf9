-- ===== src/Kafka/Named.antt =====
-- The key that a decoded record has is the one that its header names: ingest_record.rs.
use kafkaman.Base.{
  ℕ, String, Option, none, some, List, ◌≡◌, refl, ap, sym, str_eq, Bool-cases, inl, inr, subst,
}
use kafkaman.Core.Error.{Checked, accepted, rejected}
use kafkaman.Core.Idempotency.{from_hex, to_hex}
use kafkaman.Outbox.Enqueue.{Envelope, Identity, Message}
use kafkaman.Kafka.{
  KafkaRecord, Codec, Error, ok, bind_ok, ok_inj, missing_payload, missing_idempotency_key,
}
use kafkaman.Kafka.Headers.{get, record_headers}
use kafkaman.Kafka.Decode.{
  DecodedRecord, Made, require, read_payload, read_key, optional, some_of, envelope_of,
  record_envelope,
}

-- The key in the form that it is stored in, read from the record's reserved header.
pub record NamesKey (lossy : List ℕ → String) (message : KafkaRecord) (key : String) : Type 0 where
  pub hex : String
  pub bytes : List ℕ
  pub header : get "kafkaman-idempotency-key" (record_headers lossy message).reserved ≡ some hex
  pub digits : from_hex hex ≡ accepted bytes
  pub stored : key ≡ to_hex bytes

abbrev pub HasIdentity : {Json : Type 0} → String → Envelope Json → Type 0
HasIdentity {Json} key evt = (i : Identity Json) × (evt.idempotency_key ≡ some i) × (i.key ≡ key)

require-ok : {A : Type 0} (e : Error) (o : Option A) {a : A} → require e o ≡ ok a → o ≡ some a
require-ok e none h = absurd (cc h)
require-ok e (some a) h = cc h

read_key-ok :
    (made : Made) (c : Checked (List ℕ)) {key : String}
    → read_key made c ≡ ok key
    → (bytes : List ℕ) × (c ≡ accepted bytes) × (key ≡ to_hex bytes)
read_key-ok made (accepted bytes) h = (bytes, refl, cc h)
read_key-ok made (rejected e) h = absurd (cc h)

module _ {Json : Type 0} (codec : Codec Json) (made : Made) where
  -- The identity is the one that the record names, and the headers are those of the application.
  abbrev pub Named : KafkaRecord → Envelope Json → Type 0
  Named message evt =
      (key : String) × NamesKey codec.from_utf8_lossy message key
      × HasIdentity key evt
      × (evt.headers ≡ (record_headers codec.from_utf8_lossy message).user)

  envelope_of-Named :
      (message : KafkaRecord) (payload : Message Json) {evt : Envelope Json}
      → envelope_of codec made (record_headers codec.from_utf8_lossy message) payload ≡ ok evt
      → Named message evt
  unfolding envelope_of
  envelope_of-Named message payload {evt} h =
      let headers = record_headers codec.from_utf8_lossy message in
      let (hex, eh, rest) =
        bind_ok (require missing_idempotency_key (get "kafkaman-idempotency-key" headers.reserved))
          _ h in
      let (key, ek, rest) = bind_ok (read_key made (from_hex hex)) _ rest in
      let (occurred_at, e, rest) =
        bind_ok
          (optional "kafkaman-occurred-at" _ made.now (get "kafkaman-occurred-at" headers.reserved))
          _ rest in
      let (message_id, e, rest) =
        bind_ok
          (optional "kafkaman-message-id" codec.uuid_parse_str made.message_id
            (get "kafkaman-message-id" headers.reserved))
          _ rest in
      let (correlation_id, e, rest) =
        bind_ok
          (optional "kafkaman-correlation-id" codec.uuid_parse_str made.correlation_id
            (get "kafkaman-correlation-id" headers.reserved))
          _ rest in
      let (causation_id, e, rest) =
        bind_ok
          (optional "kafkaman-causation-id" (λ text. some_of (codec.uuid_parse_str text)) none
            (get "kafkaman-causation-id" headers.reserved))
          _ rest in
      let (bytes, digits, stored) = read_key-ok made (from_hex hex) ek in
      let same = ok_inj rest in
      (
        key,
        record {
          hex = hex;
          bytes = bytes;
          header = require-ok missing_idempotency_key _ eh;
          digits = digits;
          stored = stored;
        },
        (_, sym (ap (λ (u : Envelope Json). u.idempotency_key) same), refl),
        sym (ap (λ (u : Envelope Json). u.headers) same),
      )

  -- A decoded record's key is the one of its header, in lower case, and it has no other headers than
  -- the application's.
  pub record_envelope-Named :
      (topic : String) (message : KafkaRecord) {r : DecodedRecord Json}
      → record_envelope codec made topic message (record_headers codec.from_utf8_lossy message)
        ≡ ok r
      → Named message r.envelope
  unfolding record_envelope
  record_envelope-Named topic message {r} h = elim (Bool-cases (str_eq message.topic topic)) [
    | inr e ↦ absurd (cc (rw e at h))
    | inl e ↦
        let (bytes, e', rest) = bind_ok (require missing_payload message.payload) _ (rw e at h) in
        let (payload, e', rest) = bind_ok (read_payload (codec.payload_from_slice bytes)) _ rest in
        let (envelope, e', rest) =
          bind_ok (envelope_of codec made (record_headers codec.from_utf8_lossy message) payload) _
            rest in
        let same = ok_inj rest in
        subst (Named message) (ap (λ (u : DecodedRecord Json). u.envelope) same)
          (envelope_of-Named message payload e')
  ]
