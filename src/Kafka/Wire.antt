-- ===== src/Kafka/Wire.antt =====
-- A published record as the consumer reads it: publisher.rs and ingest_record.rs.
use kafkaman.Base.{
  ℕ, String, Bool, false, Option, none, some, List, [], ◌∷◌, ◌++◌, ◌≡◌, refl, sym, str_eq, eq_iff,
  if◌then◌else◌, if_elim, Bool-cases, inl, inr, All, subst,
}
use kafkaman.Base.Int.{ℤ}
use kafkaman.Kafka.{KafkaRecord}
use kafkaman.Kafka.Headers.{get, is_trace_header}
use kafkaman.Kafka.Keys.{or_else, or_else_assoc, or_else-none, when, Raw, first_of, last_of, is_key}
use kafkaman.Kafka.Publisher.{FutureRecord, header_if, trace_headers, kept_headers}

abbrev pub Pairs : Type 0
Pairs = List (String × String)

-- The headers as bytes.
abbrev pub raw_of : (String → List ℕ) → Pairs → Raw
raw_of bytes [] = []
raw_of bytes ((key, value) ∷ rest) = (key, some (bytes value)) ∷ raw_of bytes rest

abbrev bytes_of : (String → List ℕ) → Option String → Option (List ℕ)
bytes_of bytes none = none
bytes_of bytes (some key) = some (bytes key)

-- What a consumer gets for what a producer sent, at the place where the broker put it.
abbrev pub delivered : (String → List ℕ) → FutureRecord → ℤ → ℤ → KafkaRecord
delivered bytes sent partition offset = record {
  topic = sent.topic;
  partition = partition;
  offset = offset;
  key = bytes_of bytes sent.key;
  payload = some sent.payload;
  headers = some (raw_of bytes sent.headers);
}

abbrev pub first_pair : (String → Bool) → Pairs → Option String
first_pair p [] = none
first_pair p ((key, value) ∷ rest) = or_else (when (p key) value) (first_pair p rest)

abbrev pub last_pair : (String → Bool) → Pairs → Option String
last_pair p [] = none
last_pair p ((key, value) ∷ rest) = or_else (last_pair p rest) (when (p key) value)

module _ (lossy : List ℕ → String) (bytes : String → List ℕ)
    (decodes : (s : String) → lossy (bytes s) ≡ s) where
  pub first_of-raw_of :
      (p : String → Bool) (pairs : Pairs)
      → first_of lossy p (raw_of bytes pairs) ≡ first_pair p pairs
  unfolding first_of
  first_of-raw_of p [] = refl
  first_of-raw_of p ((key, value) ∷ rest) = rw (decodes value, first_of-raw_of p rest) refl

  pub last_of-raw_of :
      (p : String → Bool) (pairs : Pairs) → last_of lossy p (raw_of bytes pairs) ≡ last_pair p pairs
  unfolding last_of
  last_of-raw_of p [] = refl
  last_of-raw_of p ((key, value) ∷ rest) = rw (decodes value, last_of-raw_of p rest) refl

pub first_pair-append :
    (p : String → Bool) (xs ys : Pairs)
    → first_pair p (xs ++ ys) ≡ or_else (first_pair p xs) (first_pair p ys)
first_pair-append p [] ys = refl
first_pair-append p ((key, value) ∷ xs) ys =
    rw (first_pair-append p xs ys)
      (sym (or_else_assoc (when (p key) value) (first_pair p xs) (first_pair p ys)))

pub last_pair-append :
    (p : String → Bool) (xs ys : Pairs)
    → last_pair p (xs ++ ys) ≡ or_else (last_pair p ys) (last_pair p xs)
last_pair-append p [] ys = sym (or_else-none (last_pair p ys))
last_pair-append p ((key, value) ∷ xs) ys =
    rw (last_pair-append p xs ys)
      (or_else_assoc (last_pair p ys) (last_pair p xs) (when (p key) value))

-- No key of the list satisfies the condition.
abbrev pub Without : (String → Bool) → Pairs → Type 0
Without p pairs = All (λ (h : String × String). p h.0 ≡ false) pairs

pub first_pair-Without : (p : String → Bool) (xs : Pairs) → Without p xs → first_pair p xs ≡ none
first_pair-Without p [] w = refl
first_pair-Without p ((key, value) ∷ xs) w = rw (w.0, first_pair-Without p xs w.1) refl

pub last_pair-Without : (p : String → Bool) (xs : Pairs) → Without p xs → last_pair p xs ≡ none
last_pair-Without p [] w = refl
last_pair-Without p ((key, value) ∷ xs) w = rw (w.0, last_pair-Without p xs w.1) refl

pub Without-append :
    (p : String → Bool) (xs ys : Pairs) → Without p xs → Without p ys → Without p (xs ++ ys)
Without-append p [] ys u v = v
Without-append p (x ∷ xs) ys u v = (u.0, Without-append p xs ys u.1 v)

pub header_if-Without :
    {A : Type 0} (p : String → Bool) (name : String) (text : A → String) (o : Option A)
    → p name ≡ false
    → Without p (header_if name text o)
header_if-Without p name text none h = tt
header_if-Without p name text (some a) h = (h, tt)

pub trace_headers-Without :
    (p : String → Bool) (t : Option (String × Option String))
    → p "traceparent" ≡ false
    → p "tracestate" ≡ false
    → Without p (trace_headers t)
trace_headers-Without p none g h = tt
trace_headers-Without p (some (parent, state)) g h =
    (g, header_if-Without p "tracestate" (λ state. state) state h)

pub kept_headers-Without :
    (p : String → Bool) (xs : Pairs) → Without p xs → Without p (kept_headers xs)
unfolding kept_headers
kept_headers-Without p [] w = tt
kept_headers-Without p ((key, value) ∷ xs) w =
    if_elim (Without p) (is_trace_header key) (λ e. kept_headers-Without p xs w.1)
      (λ e. (w.0, kept_headers-Without p xs w.1))

-- No key occurs twice: the list stands for a map.
abbrev pub IsMap : Pairs → Type 0
IsMap [] = Unit
IsMap ((key, value) ∷ rest) = Without (is_key key) rest × IsMap rest

-- The last value of a name that is kept is the one that the map has.
pub last_pair-kept_headers :
    (name : String) (xs : Pairs)
    → IsMap xs
    → is_trace_header name ≡ false
    → last_pair (is_key name) (kept_headers xs) ≡ get name xs
unfolding kept_headers get
last_pair-kept_headers name [] m t = refl
last_pair-kept_headers name ((key, value) ∷ xs) m t = elim (Bool-cases (str_eq key name)) [
  | inl e ↦
      let same = (eq_iff key name).0 e in
      let none_later : last_pair (is_key name) (kept_headers xs) ≡ none =
        subst (λ n. last_pair (is_key n) (kept_headers xs) ≡ none) same
          (last_pair-Without (is_key key) (kept_headers xs)
            (kept_headers-Without (is_key key) xs m.0)) in
      let open_key : is_trace_header key ≡ false =
        subst (λ n. is_trace_header n ≡ false) (sym same) t in
      rw (open_key, none_later, e) refl
  | inr e ↦
      if_elim
        (λ (ys : Pairs).
          last_pair (is_key name) ys ≡ (if str_eq key name then some value else get name xs))
        (is_trace_header key) (λ q. rw e (last_pair-kept_headers name xs m.1 t))
        (λ q. rw (e, last_pair-kept_headers name xs m.1 t) (or_else-none (get name xs)))
]
