-- ===== src/Received/Kept.antt =====
-- What storing a message keeps, and the key of a stored message: received_storage.rs.
use kafkaman.Base.{String, Option, none, some, List, [], ◌∷◌, ◌≡◌, refl, ap, ◌∙◌}
use kafkaman.Base.Table.{mem-append_left}
use kafkaman.Failure.{Result, ok, err, bind_ok}
use kafkaman.Outbox.Enqueue.{
  unless_reserved-ok, find_reserved_header, catch_application_panic, MessageDescriptor, Envelope,
  Identity,
}
use kafkaman.Received.{ReceivedRow}
use kafkaman.Received.Storage.{
  require_identity, ReceivedInsertOutcome, Insertion, Source, Decoded, decode, received_row,
  after_decode, insert_received_with_outcome,
}
use kafkaman.Received.Once.{Keeps}
use kafkaman.Received.Dedup.{
  HasKey, Inserting, insert_row-Inserting, failed, added, repeated, clashing, vanished, unread,
}

module _ {Json : Type 0} where
  require_identity-ok :
      (o : Option (Identity Json)) {i : Identity Json} → require_identity o ≡ ok i → o ≡ some i
  require_identity-ok none h = absurd (cc h)
  require_identity-ok (some i) h = cc h

  Inserting-Keeps :
      (tx : Insertion Json) (row : ReceivedRow Json) (rows : List (ReceivedRow Json)) (key : String)
      {p : List (ReceivedRow Json) × Result ReceivedInsertOutcome}
      → Keeps tx.seen
      → HasKey key rows
      → Inserting tx row rows p
      → HasKey key p.0
  Inserting-Keeps tx row rows key keeps (r, m, q) (added n) = (r, mem-append_left (row ∷ []) m, q)
  Inserting-Keeps tx row rows key keeps k (failed e q) = k
  Inserting-Keeps tx row rows key keeps k (repeated h) = keeps.keys key rows k
  Inserting-Keeps tx row rows key keeps k (clashing n h) = keeps.keys key rows k
  Inserting-Keeps tx row rows key keeps k (vanished c n) = keeps.keys key rows k
  Inserting-Keeps tx row rows key keeps k (unread e q) = keeps.keys key rows k

  -- A key that is stored stays so, however the storing of a message ends.
  pub insert-Keeps :
      (tx : Insertion Json) (table : Result MessageDescriptor) (evt : Envelope Json)
      (source : Source) (rows : List (ReceivedRow Json)) (key : String)
      → Keeps tx.seen
      → HasKey key rows
      → HasKey key (insert_received_with_outcome tx table evt source rows).0
  unfolding insert_received_with_outcome
  insert-Keeps tx (err e) evt source rows key keeps k = k
  insert-Keeps tx (ok d) evt source rows key keeps k = settle (decode d evt)
    where
      settle : (r : Result (Decoded Json)) → HasKey key (after_decode tx d evt source rows r).0
      settle (err e) = k
      settle (ok p) =
          Inserting-Keeps tx (received_row d evt p source tx.now) rows key keeps k
            (insert_row-Inserting tx (received_row d evt p source tx.now) rows)

  -- Where storing has an outcome, the message was decoded.
  pub stored-decoded :
      (tx : Insertion Json) (d : MessageDescriptor) (evt : Envelope Json) (source : Source)
      (rows : List (ReceivedRow Json)) {rows' : List (ReceivedRow Json)} {o : ReceivedInsertOutcome}
      → insert_received_with_outcome tx (ok d) evt source rows ≡ (rows', ok o)
      → (p : Decoded Json) × (decode d evt ≡ ok p)
  unfolding insert_received_with_outcome
  stored-decoded tx d evt source rows h = settle (decode d evt) refl
    where
      settle :
          (r : Result (Decoded Json))
          → decode d evt ≡ r
          → (p : Decoded Json) × (decode d evt ≡ ok p)
      settle (ok p) q = (p, q)
      settle (err e) q = absurd (cc (rw q at h))

  -- The key of a decoded message is that of its envelope.
  pub decode-key :
      (d : MessageDescriptor) (evt : Envelope Json) {p : Decoded Json}
      → decode d evt ≡ ok p
      → evt.idempotency_key ≡ some p.identity
  unfolding decode
  decode-key d evt {p} h =
      let (free, rest) = unless_reserved-ok (find_reserved_header evt.headers) _ h in
      let (identity, e, rest) = bind_ok (require_identity evt.idempotency_key) _ rest in
      let (serialized, e', rest) =
        bind_ok (catch_application_panic d.message_type "serialize payload" evt.payload.serialize) _
          rest in
      let (payload, e', rest) = bind_ok serialized _ rest in
      let (entity_key, e', rest) =
        bind_ok (catch_application_panic d.message_type "resolve entity key" evt.payload.entity_key)
          _ rest in
      let same : identity ≡ p.identity = cc rest in
      require_identity-ok evt.idempotency_key e ∙ ap some same
