-- ===== src/Kafka/Namespaces.antt =====
-- The three namespaces of a record's headers, by the headers themselves: ingest_record.rs.
use kafkaman.Base.{
  ℕ, String, Bool, true, false, Option, none, some, List, [], ◌∷◌, ◌≡◌, refl, ◌∙◌, sym, ap, arith,
  if◌then◌else◌, if_elim, lowercase,
}
use kafkaman.Kafka.{KafkaRecord}
use kafkaman.Kafka.Headers.{
  get, is_trace_header, RecordHeaders, no_headers, file_header, file_headers, record_headers,
}
use kafkaman.Kafka.Keys.{
  or_else, or_else_assoc, or_else-none, when, get-or_insert, get-insert_header, Raw, first_of,
  last_of, is_reserved, is_user, lowers_to, is_key, apart, apart_symm, unmatched, if_none, tested,
}

module _ (name : String) where
  file_header-reserved :
      (key value : String) (h : RecordHeaders)
      → is_reserved name ≡ true
      → is_trace_header name ≡ false
      → get name (file_header key value h).reserved
        ≡ or_else (get name h.reserved) (when (lowers_to name key) value)
  unfolding file_header
  file_header-reserved key value h r t =
      if_elim
        (λ (g : RecordHeaders).
          get name g.reserved ≡ or_else (get name h.reserved) (when (lowers_to name key) value))
        (is_trace_header (lowercase key))
        (λ e.
          unmatched (get name h.reserved) value (apart is_trace_header (lowercase key) name e t))
        (λ e.
          if_elim
            (λ (g : RecordHeaders).
              get name g.reserved ≡ or_else (get name h.reserved) (when (lowers_to name key) value))
            (is_reserved (lowercase key)) (λ e. get-or_insert name (lowercase key) value h.reserved)
            (λ e.
              unmatched (get name h.reserved) value
                (apart_symm is_reserved (lowercase key) name e r)))

  file_header-trace :
      (key value : String) (h : RecordHeaders)
      → is_trace_header name ≡ true
      → get name (file_header key value h).trace
        ≡ or_else (get name h.trace) (when (lowers_to name key) value)
  unfolding file_header
  file_header-trace key value h t =
      if_elim
        (λ (g : RecordHeaders).
          get name g.trace ≡ or_else (get name h.trace) (when (lowers_to name key) value))
        (is_trace_header (lowercase key)) (λ e. get-or_insert name (lowercase key) value h.trace)
        (λ e.
          if_elim
            (λ (g : RecordHeaders).
              get name g.trace ≡ or_else (get name h.trace) (when (lowers_to name key) value))
            (is_reserved (lowercase key))
            (λ q.
              unmatched (get name h.trace) value
                (apart_symm is_trace_header (lowercase key) name e t))
            (λ q.
              unmatched (get name h.trace) value
                (apart_symm is_trace_header (lowercase key) name e t)))

  file_header-user :
      (key value : String) (h : RecordHeaders)
      → get name (file_header key value h).user
        ≡ or_else (if is_user name then when (is_key name key) value else none) (get name h.user)
  unfolding file_header
  file_header-user key value h =
      if_elim (λ (g : RecordHeaders). get name g.user ≡ or_else kept (get name h.user))
        (is_trace_header (lowercase key)) (λ e. dropped (ground (arith, e)))
        (λ e.
          if_elim (λ (g : RecordHeaders). get name g.user ≡ or_else kept (get name h.user))
            (is_reserved (lowercase key)) (λ q. dropped (ground (arith, q, e)))
            (λ q.
              get-insert_header name key value h.user
              ∙ ap (λ o. or_else o (get name h.user)) (same (ground (arith, q, e)))))
    where
      kept : Option String
      kept = if is_user name then when (is_key name key) value else none

      dropped : is_user key ≡ false → get name h.user ≡ or_else kept (get name h.user)
      dropped e = rw (tested is_user key name value, e) refl

      same : is_user key ≡ true → when (is_key name key) value ≡ kept
      same e = rw (tested is_user key name value, e) refl

-- With the headers resolved one by one, the first value of a reserved or trace name counts, and the
-- last one of any other name.
module _ (lossy : List ℕ → String) (name : String) where
  file_headers-reserved :
      (raw : Raw) (h : RecordHeaders)
      → is_reserved name ≡ true
      → is_trace_header name ≡ false
      → get name (file_headers lossy raw h).reserved
        ≡ or_else (get name h.reserved) (first_of lossy (lowers_to name) raw)
  unfolding file_headers first_of
  file_headers-reserved [] h r t = sym (or_else-none (get name h.reserved))
  file_headers-reserved ((key, none) ∷ rest) h r t = file_headers-reserved rest h r t
  file_headers-reserved ((key, some value) ∷ rest) h r t =
      file_headers-reserved rest (file_header key (lossy value) h) r t
      ∙ ap (λ o. or_else o (first_of lossy (lowers_to name) rest))
          (file_header-reserved name key (lossy value) h r t)
      ∙ or_else_assoc (get name h.reserved) (when (lowers_to name key) (lossy value))
          (first_of lossy (lowers_to name) rest)

  file_headers-trace :
      (raw : Raw) (h : RecordHeaders)
      → is_trace_header name ≡ true
      → get name (file_headers lossy raw h).trace
        ≡ or_else (get name h.trace) (first_of lossy (lowers_to name) raw)
  unfolding file_headers first_of
  file_headers-trace [] h t = sym (or_else-none (get name h.trace))
  file_headers-trace ((key, none) ∷ rest) h t = file_headers-trace rest h t
  file_headers-trace ((key, some value) ∷ rest) h t =
      file_headers-trace rest (file_header key (lossy value) h) t
      ∙ ap (λ o. or_else o (first_of lossy (lowers_to name) rest))
          (file_header-trace name key (lossy value) h t)
      ∙ or_else_assoc (get name h.trace) (when (lowers_to name key) (lossy value))
          (first_of lossy (lowers_to name) rest)

  file_headers-user :
      (raw : Raw) (h : RecordHeaders)
      → get name (file_headers lossy raw h).user
        ≡ or_else (if is_user name then last_of lossy (is_key name) raw else none) (get name h.user)
  unfolding file_headers last_of
  file_headers-user [] h = rw (if_none (is_user name)) refl
  file_headers-user ((key, none) ∷ rest) h = file_headers-user rest h
  file_headers-user ((key, some value) ∷ rest) h =
      file_headers-user rest (file_header key (lossy value) h)
      ∙ ap (or_else (if is_user name then last_of lossy (is_key name) rest else none))
          (file_header-user name key (lossy value) h)
      ∙ later (is_user name) (last_of lossy (is_key name) rest)
          (when (is_key name key) (lossy value)) (get name h.user)
    where
      later :
          (b : Bool) (x y z : Option String)
          → or_else (if b then x else none) (or_else (if b then y else none) z)
            ≡ or_else (if b then or_else x y else none) z
      later true x y z = sym (or_else_assoc x y z)
      later false x y z = refl

-- A reserved name has the value of the first header of that name that has one, whatever the case of
-- its letters: a later copy cannot override it.
pub reserved_first :
    (lossy : List ℕ → String) (name : String) (message : KafkaRecord) (raw : Raw)
    → message.headers ≡ some raw
    → is_reserved name ≡ true
    → is_trace_header name ≡ false
    → get name (record_headers lossy message).reserved ≡ first_of lossy (lowers_to name) raw
unfolding record_headers get
reserved_first lossy name message raw e r t =
    rw e (file_headers-reserved lossy name raw no_headers r t)

-- What is left for the application under a name is the value of the last header of exactly that name
-- that has one, and nothing if the name is reserved or a trace header in any case of its letters.
pub user_last :
    (lossy : List ℕ → String) (name : String) (message : KafkaRecord) (raw : Raw)
    → message.headers ≡ some raw
    → get name (record_headers lossy message).user
      ≡ (if is_user name then last_of lossy (is_key name) raw else none)
unfolding record_headers get
user_last lossy name message raw e = rw e (
    file_headers-user lossy name raw no_headers
    ∙ or_else-none (if is_user name then last_of lossy (is_key name) raw else none))
