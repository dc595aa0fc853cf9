-- ===== src/Kafka/Enqueued.antt =====
-- What enqueuing makes of a message's headers, as publishing needs them: outbox_enqueue.rs, publisher.rs.
use kafkaman.Base.{
  String, Bool, false, Option, none, some, [], ◌∷◌, ◌≡◌, refl, str_eq, eq_iff, arith, if_elim,
  Bool-cases, inl, inr, subst, lowercase, code-lower_char, has_prefix,
}
use kafkaman.Failure.{ok, bind_ok}
use kafkaman.Outbox.{sql_text_eq}
use kafkaman.Outbox.Enqueue.{
  Envelope, MessageDescriptor, Prepared, prepare, row_headers, unless_reserved-ok,
  find_reserved_header, has_prefix_ignore_case, insert_header, catch_application_panic,
}
use kafkaman.Kafka.Keys.{is_key}
use kafkaman.Kafka.Wire.{Pairs, Without, IsMap}
use kafkaman.Kafka.Carried.{IsEnqueued}

pub prefix_lowers :
    (p k : String) → has_prefix_ignore_case p k ≡ has_prefix (lowercase p) (lowercase k)
unfolding has_prefix_ignore_case has_prefix
prefix_lowers String.[] k = refl
prefix_lowers (String.◌∷◌ a p) String.[] = refl
prefix_lowers (String.◌∷◌ a p) (String.◌∷◌ c k) =
    rw (code-lower_char a, code-lower_char c, prefix_lowers p k) refl

-- What `find_reserved_header` says of each key where it finds none.
unreserved-IsEnqueued : (xs : Pairs) → find_reserved_header xs ≡ none → IsEnqueued xs
unfolding find_reserved_header
unreserved-IsEnqueued [] h = tt
unreserved-IsEnqueued ((key, value) ∷ xs) h =
    elim (Bool-cases (has_prefix_ignore_case "kafkaman-" key)) [
      | inl e ↦ absurd (cc (rw e at h))
      | inr e ↦ (
        λ r. absurd (cc (prefix_lowers "kafkaman-" key, e, r)),
        unreserved-IsEnqueued xs (rw e at h),
      )
    ]

pub insert_header-Without :
    (p : String → Bool) (k v : String) (xs : Pairs)
    → p k ≡ false
    → Without p xs
    → Without p (insert_header k v xs)
unfolding insert_header
insert_header-Without p k v [] h w = (h, tt)
insert_header-Without p k v ((j, u) ∷ xs) h w =
    if_elim (Without p) (str_eq j k) (λ e. (h, w.1))
      (λ e. (w.0, insert_header-Without p k v xs h w.1))

insert_header-IsMap : (k v : String) (xs : Pairs) → IsMap xs → IsMap (insert_header k v xs)
unfolding insert_header
insert_header-IsMap k v [] m = (tt, tt)
insert_header-IsMap k v ((j, u) ∷ xs) m =
    if_elim IsMap (str_eq j k)
      (λ e. (subst (λ n. Without (is_key n) xs) ((eq_iff j k).0 e) m.0, m.1))
      (λ e. (
        insert_header-Without (is_key j) k v xs (ground (arith, e, eq_iff j k, eq_iff k j)) m.0,
        insert_header-IsMap k v xs m.1,
      ))

insert_header-IsEnqueued :
    (v : String) (xs : Pairs)
    → IsEnqueued xs
    → IsEnqueued (insert_header "kafkaman-entity-key" v xs)
unfolding insert_header
insert_header-IsEnqueued v [] e = (λ r. refl, tt)
insert_header-IsEnqueued v ((j, u) ∷ xs) e =
    if_elim IsEnqueued (str_eq j "kafkaman-entity-key") (λ q. (λ r. refl, e.1))
      (λ q. (e.0, insert_header-IsEnqueued v xs e.1))

row_headers-cases :
    (partition_key : Option String) (entity_key : String) (xs : Pairs)
    → find_reserved_header xs ≡ none
    → IsMap xs
    → IsMap (row_headers partition_key entity_key xs)
      × IsEnqueued (row_headers partition_key entity_key xs)
row_headers-cases partition_key entity_key xs h m =
    if_elim (λ (ys : Pairs). IsMap ys × IsEnqueued ys) (sql_text_eq partition_key (some entity_key))
      (λ e. (m, unreserved-IsEnqueued xs h))
      (λ e. (
        insert_header-IsMap "kafkaman-entity-key" entity_key xs m,
        insert_header-IsEnqueued entity_key xs (unreserved-IsEnqueued xs h),
      ))

-- The headers of an enqueued row are a map, and its reserved names are kafkaman's own.
pub prepare-IsEnqueued :
    {Json : Type 0} (d : MessageDescriptor) (evt : Envelope Json) {p : Prepared Json}
    → IsMap evt.headers
    → prepare d evt ≡ ok p
    → IsMap p.headers × IsEnqueued p.headers
unfolding prepare
prepare-IsEnqueued d evt {p} m h =
    let (free, rest) = unless_reserved-ok (find_reserved_header evt.headers) _ h in
    let (partition_key, e, rest) =
      bind_ok
        (catch_application_panic d.message_type "resolve partition key" evt.payload.partition_key) _
        rest in
    let (entity_key, e, rest) =
      bind_ok (catch_application_panic d.message_type "resolve entity key" evt.payload.entity_key) _
        rest in
    let (serialized, e, rest) =
      bind_ok (catch_application_panic d.message_type "serialize payload" evt.payload.serialize) _
        rest in
    let (payload, e, rest) = bind_ok serialized _ rest in
    let same : row_headers partition_key entity_key evt.headers ≡ p.headers = cc rest in
    subst (λ (ys : Pairs). IsMap ys × IsEnqueued ys) same
      (row_headers-cases partition_key entity_key evt.headers free m)
