-- ===== src/Kafka/Carried.antt =====
-- The headers that a consumer finds on a published record: publisher.rs, ingest_record.rs.
use kafkaman.Base.{
  ℕ, String, Bool, true, false, Option, none, some, [], ◌∷◌, ◌++◌, ◌≡◌, refl, ◌∙◌, sym, ap, str_eq,
  eq_iff, arith, if◌then◌else◌, Bool-cases, inl, inr, All, subst, lowercase, ◌⊎◌, has_prefix,
  eq_ignore_case-lowercase,
}
use kafkaman.Base.Int.{ℤ}
use kafkaman.Core.Error.{parsed}
use kafkaman.Outbox.{OutboxRow}
use kafkaman.Kafka.{KafkaRecord, Codec}
use kafkaman.Kafka.Headers.{get, is_trace_header, RecordHeaders, record_headers}
use kafkaman.Kafka.Keys.{
  or_else, or_else-none, last_of, is_reserved, is_user, lowers_to, is_key, apart_symm,
}
use kafkaman.Kafka.Namespaces.{reserved_first, user_last}
use kafkaman.Kafka.Publisher.{
  FutureRecord, header_if, trace_headers, or_trace, kept_headers, managed,
}
use kafkaman.Kafka.Wire.{
  Pairs, raw_of, delivered, first_pair, last_pair, first_of-raw_of, last_of-raw_of,
  first_pair-append, last_pair-append, Without, first_pair-Without, last_pair-Without,
  Without-append, header_if-Without, trace_headers-Without, kept_headers-Without, IsMap,
  last_pair-kept_headers,
}

-- The one reserved name that enqueuing adds to the headers of a row.
abbrev pub IsEnqueued : Pairs → Type 0
IsEnqueued xs =
    All
      (λ (h : String × String).
        is_reserved (lowercase h.0) ≡ true → lowercase h.0 ≡ "kafkaman-entity-key")
      xs

-- The bytes of a text are UTF-8, and read back.
abbrev pub IsFaithful : {Json : Type 0} → Codec Json → Type 0
IsFaithful codec = (s : String) → codec.from_utf8_lossy (codec.as_bytes s) ≡ s

-- The text of an identifier is read back.
abbrev pub ReadsId : {Json : Type 0} → Codec Json → ℕ → Type 0
ReadsId codec n = codec.uuid_parse_str (codec.uuid_to_string n) ≡ parsed n

abbrev pub ReadsOptionalId : {Json : Type 0} → Codec Json → Option ℕ → Type 0
ReadsOptionalId codec none = Unit
ReadsOptionalId codec (some n) = ReadsId codec n

-- What is left of an identity's source: what its text is read as, and nothing where that cannot be
-- read.
abbrev pub source_read : {Json : Type 0} → Codec Json → Option Json → Option Json
source_read codec none = none
source_read codec (some source) = codec.json_from_str (codec.json_to_string source)

Without-IsEnqueued :
    (name : String) (xs : Pairs)
    → is_reserved name ≡ true
    → str_eq "kafkaman-entity-key" name ≡ false
    → IsEnqueued xs
    → Without (lowers_to name) xs
Without-IsEnqueued name [] r n e = tt
Without-IsEnqueued name ((key, value) ∷ xs) r n e =
    (other (Bool-cases (str_eq (lowercase key) name)), Without-IsEnqueued name xs r n e.1)
  where
    other :
        (str_eq (lowercase key) name ≡ true) ⊎ (str_eq (lowercase key) name ≡ false)
        → str_eq (lowercase key) name ≡ false
    other (inr q) = q
    other (inl q) =
        let same = (eq_iff (lowercase key) name).0 q in
        let known = e.0 (subst (λ n. is_reserved n ≡ true) (sym same) r) in
        absurd (cc ((eq_iff "kafkaman-entity-key" name).1 (sym known ∙ same), n))

abbrev pub text_of : {A : Type 0} → (A → String) → Option A → Option String
text_of text none = none
text_of text (some a) = some (text a)

first_pair-header_if :
    {A : Type 0} (p : String → Bool) (name : String) (text : A → String) (o : Option A)
    → p name ≡ true
    → first_pair p (header_if name text o) ≡ text_of text o
first_pair-header_if p name text none h = refl
first_pair-header_if p name text (some a) h = rw h refl

skip_left :
    (p : String → Bool) (xs ys : Pairs) → Without p xs → first_pair p (xs ++ ys) ≡ first_pair p ys
skip_left p xs ys w =
    first_pair-append p xs ys ∙ ap (λ o. or_else o (first_pair p ys)) (first_pair-Without p xs w)

skip_right :
    (p : String → Bool) (xs ys : Pairs) → Without p ys → first_pair p (xs ++ ys) ≡ first_pair p xs
skip_right p xs ys w =
    first_pair-append p xs ys
    ∙ ap (or_else (first_pair p xs)) (first_pair-Without p ys w)
    ∙ or_else-none (first_pair p xs)

user-not_trace : (name : String) → is_user name ≡ true → is_trace_header name ≡ false
unfolding is_trace_header
user-not_trace name u =
    rw (← eq_ignore_case-lowercase name "traceparent", ← eq_ignore_case-lowercase name "tracestate")
      (ground (arith, u))

module _ {Json : Type 0} (codec : Codec Json) (faithful : IsFaithful codec) (row : OutboxRow Json)
    (trace : Option (String × Option String)) (sent : FutureRecord) (time : String)
    (is_sent : sent.headers ≡ kept_headers row.headers ++ managed codec row trace time)
    (partition offset : ℤ) where
  abbrev pub message : KafkaRecord
  message = delivered codec.as_bytes sent partition offset

  abbrev pub headers : RecordHeaders
  headers = record_headers codec.from_utf8_lossy message

  look :
      (name : String)
      → is_reserved name ≡ true
      → is_trace_header name ≡ false
      → str_eq "kafkaman-entity-key" name ≡ false
      → IsEnqueued row.headers
      → get name headers.reserved ≡ first_pair (lowers_to name) (managed codec row trace time)
  look name r t n e =
      reserved_first codec.from_utf8_lossy name message (raw_of codec.as_bytes sent.headers) refl r
        t
      ∙ first_of-raw_of codec.from_utf8_lossy codec.as_bytes faithful (lowers_to name) sent.headers
      ∙ ap (first_pair (lowers_to name)) is_sent
      ∙ first_pair-append (lowers_to name) (kept_headers row.headers) (managed codec row trace time)
      ∙ ap (λ o. or_else o (first_pair (lowers_to name) (managed codec row trace time)))
          (first_pair-Without (lowers_to name) (kept_headers row.headers) (
            kept_headers-Without (lowers_to name) row.headers
              (Without-IsEnqueued name row.headers r n e)))

  pub has_message_id :
      IsEnqueued row.headers
      → get "kafkaman-message-id" headers.reserved ≡ some (codec.uuid_to_string row.message_id)
  unfolding is_trace_header has_prefix
  has_message_id e = look "kafkaman-message-id" refl refl refl e

  pub has_correlation_id :
      IsEnqueued row.headers
      → get "kafkaman-correlation-id" headers.reserved
        ≡ some (codec.uuid_to_string row.correlation_id)
  unfolding is_trace_header has_prefix
  has_correlation_id e = look "kafkaman-correlation-id" refl refl refl e

  pub has_occurred_at :
      IsEnqueued row.headers → get "kafkaman-occurred-at" headers.reserved ≡ some time
  unfolding is_trace_header has_prefix
  has_occurred_at e = look "kafkaman-occurred-at" refl refl refl e

  pub has_key :
      (key : String)
      → row.idempotency_key ≡ some key
      → IsEnqueued row.headers
      → get "kafkaman-idempotency-key" headers.reserved ≡ some key
  unfolding is_trace_header has_prefix
  has_key key i e = look "kafkaman-idempotency-key" refl refl refl e ∙ rw i refl

  pub has_source :
      IsEnqueued row.headers
      → get "kafkaman-idempotency-source" headers.reserved
        ≡ text_of codec.json_to_string row.idempotency_source
  unfolding is_trace_header has_prefix
  has_source e =
      look "kafkaman-idempotency-source" refl refl refl e
      ∙ skip_left is_it (header_if "kafkaman-idempotency-key" (λ key. key) row.idempotency_key)
          (header_if "kafkaman-idempotency-source" codec.json_to_string row.idempotency_source
            ++ behind)
          (header_if-Without is_it "kafkaman-idempotency-key" (λ key. key) row.idempotency_key refl)
      ∙ skip_right is_it
          (header_if "kafkaman-idempotency-source" codec.json_to_string row.idempotency_source)
          behind
          (Without-append is_it
            (header_if "kafkaman-causation-id" codec.uuid_to_string row.causation_id)
            (trace_headers (or_trace trace row.trace))
            (header_if-Without is_it "kafkaman-causation-id" codec.uuid_to_string row.causation_id
              refl)
            (trace_headers-Without is_it (or_trace trace row.trace) refl refl))
      ∙ first_pair-header_if is_it "kafkaman-idempotency-source" codec.json_to_string
          row.idempotency_source refl
    where
      is_it : String → Bool
      is_it = lowers_to "kafkaman-idempotency-source"

      behind : Pairs
      behind =
          header_if "kafkaman-causation-id" codec.uuid_to_string row.causation_id
          ++ trace_headers (or_trace trace row.trace)

  pub has_causation_id :
      IsEnqueued row.headers
      → get "kafkaman-causation-id" headers.reserved ≡ text_of codec.uuid_to_string row.causation_id
  unfolding is_trace_header has_prefix
  has_causation_id e =
      look "kafkaman-causation-id" refl refl refl e
      ∙ skip_left is_it (header_if "kafkaman-idempotency-key" (λ key. key) row.idempotency_key)
          (header_if "kafkaman-idempotency-source" codec.json_to_string row.idempotency_source
            ++ behind)
          (header_if-Without is_it "kafkaman-idempotency-key" (λ key. key) row.idempotency_key refl)
      ∙ skip_left is_it
          (header_if "kafkaman-idempotency-source" codec.json_to_string row.idempotency_source)
          behind
          (header_if-Without is_it "kafkaman-idempotency-source" codec.json_to_string
            row.idempotency_source refl)
      ∙ skip_right is_it (header_if "kafkaman-causation-id" codec.uuid_to_string row.causation_id)
          (trace_headers (or_trace trace row.trace))
          (trace_headers-Without is_it (or_trace trace row.trace) refl refl)
      ∙ first_pair-header_if is_it "kafkaman-causation-id" codec.uuid_to_string row.causation_id
          refl
    where
      is_it : String → Bool
      is_it = lowers_to "kafkaman-causation-id"

      behind : Pairs
      behind =
          header_if "kafkaman-causation-id" codec.uuid_to_string row.causation_id
          ++ trace_headers (or_trace trace row.trace)

  managed-Without :
      (name : String) → is_user name ≡ true → Without (is_key name) (managed codec row trace time)
  unfolding is_trace_header has_prefix
  managed-Without name u = (
    other "kafkaman-message-id" refl,
    (
      other "kafkaman-correlation-id" refl,
      (
        other "kafkaman-occurred-at" refl,
        Without-append (is_key name)
            (header_if "kafkaman-idempotency-key" (λ key. key) row.idempotency_key) _
            (header_if-Without (is_key name) "kafkaman-idempotency-key" (λ key. key)
              row.idempotency_key (other "kafkaman-idempotency-key" refl))
            (Without-append (is_key name)
              (header_if "kafkaman-idempotency-source" codec.json_to_string row.idempotency_source)
              _
              (header_if-Without (is_key name) "kafkaman-idempotency-source" codec.json_to_string
                row.idempotency_source (other "kafkaman-idempotency-source" refl))
              (Without-append (is_key name)
                (header_if "kafkaman-causation-id" codec.uuid_to_string row.causation_id) _
                (header_if-Without (is_key name) "kafkaman-causation-id" codec.uuid_to_string
                  row.causation_id (other "kafkaman-causation-id" refl))
                (trace_headers-Without (is_key name) (or_trace trace row.trace)
                  (other "traceparent" refl) (other "tracestate" refl)))),
      ),
    ),
  )
    where
      other : (key : String) → is_user key ≡ false → str_eq key name ≡ false
      other key e = apart_symm is_user key name e u

  pub has_user :
      (name : String)
      → IsMap row.headers
      → get name headers.user ≡ (if is_user name then get name row.headers else none)
  has_user name m =
      user_last codec.from_utf8_lossy name message (raw_of codec.as_bytes sent.headers) refl
      ∙ settle (Bool-cases (is_user name))
    where
      sent_last : Option String
      sent_last = last_of codec.from_utf8_lossy (is_key name) (raw_of codec.as_bytes sent.headers)

      found : is_user name ≡ true → sent_last ≡ get name row.headers
      found u =
          last_of-raw_of codec.from_utf8_lossy codec.as_bytes faithful (is_key name) sent.headers
          ∙ ap (last_pair (is_key name)) is_sent
          ∙ last_pair-append (is_key name) (kept_headers row.headers) (managed codec row trace time)
          ∙ ap (λ o. or_else o (last_pair (is_key name) (kept_headers row.headers)))
              (last_pair-Without (is_key name) (managed codec row trace time)
                (managed-Without name u))
          ∙ last_pair-kept_headers name row.headers m (user-not_trace name u)

      settle :
          (is_user name ≡ true) ⊎ (is_user name ≡ false)
          → (if is_user name then sent_last else none)
            ≡ (if is_user name then get name row.headers else none)
      settle (inl u) = rw (u, found u) refl
      settle (inr u) = rw u refl
