-- ===== src/Kafka/Headers.antt =====
-- `RecordHeaders` of crates/kafkaman-rdkafka/src/ingest_record.rs and `is_trace_header` of publisher.rs.
-- A `BTreeMap` is a list of pairs in the order of insertion.
use kafkaman.Base.{
  ℕ, String, Bool, Option, none, some, List, [], ◌∷◌, ◌||◌, str_eq, if◌then◌else◌, eq_ignore_case,
  has_prefix, lowercase,
}
use kafkaman.Outbox.Enqueue.{insert_header}
use kafkaman.Kafka.{KafkaRecord}

-- `BTreeMap::get`.
unfoldable pub get : String → List (String × String) → Option String
get name [] = none
get name ((key, value) ∷ rest) = if str_eq key name then some value else get name rest

-- `entry(key).or_insert(value)`: the value that is there stays.
unfoldable pub or_insert : String → String → List (String × String) → List (String × String)
or_insert k v [] = (k, v) ∷ []
or_insert k v ((j, w) ∷ rest) = if str_eq j k then (j, w) ∷ rest else (j, w) ∷ or_insert k v rest

unfoldable pub is_trace_header : String → Bool
unfolding eq_ignore_case
is_trace_header key = eq_ignore_case key "traceparent" || eq_ignore_case key "tracestate"

pub record RecordHeaders : Type 0 where
  pub user : List (String × String)
  pub reserved : List (String × String)
  pub trace : List (String × String)

abbrev pub no_headers : RecordHeaders
no_headers = record { user = []; reserved = []; trace = [] }

-- One header that has a value, in the three namespaces.
unfoldable pub file_header : String → String → RecordHeaders → RecordHeaders
unfolding is_trace_header has_prefix or_insert insert_header
file_header key value h =
    if is_trace_header (lowercase key)
    then record h { trace = or_insert (lowercase key) value h.trace }
    else if has_prefix "kafkaman-" (lowercase key)
    then record h { reserved = or_insert (lowercase key) value h.reserved }
    else record h { user = insert_header key value h.user }

-- The loop over the headers.
unfoldable pub file_headers :
    (List ℕ → String) → List (String × Option (List ℕ)) → RecordHeaders → RecordHeaders
unfolding file_header
file_headers lossy [] h = h
file_headers lossy ((key, none) ∷ rest) h = file_headers lossy rest h
file_headers lossy ((key, some value) ∷ rest) h =
    file_headers lossy rest (file_header key (lossy value) h)

abbrev pub file_all : (List ℕ → String) → Option (List (String × Option (List ℕ))) → RecordHeaders
file_all lossy none = no_headers
file_all lossy (some headers) = file_headers lossy headers no_headers

-- `RecordHeaders::of`.
unfoldable pub record_headers : (List ℕ → String) → KafkaRecord → RecordHeaders
unfolding file_headers
record_headers lossy message = file_all lossy message.headers
