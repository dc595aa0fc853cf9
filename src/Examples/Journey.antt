-- ===== src/Examples/Journey.antt =====
-- One message from `enqueue` into the received table.
use kafkaman.Base.{ℕ, true, none, some, [], ◌∷◌, ◌≡◌, refl, codes}
use kafkaman.Base.Int.{pos}
use kafkaman.Base.Table.{timestamptz}
use kafkaman.Core.Idempotency.{to_hex}
use kafkaman.Failure as SqlxFailure
use kafkaman.Outbox.{sql_text_eq}
use kafkaman.Outbox.Enqueue.{
  Envelope, Identity, MessageDescriptor, Prepared, Session, prepare, new_row,
}
use kafkaman.Received.{ReceivedRow}
use kafkaman.Received.Storage.{Insertion, Source, insert_received_with_outcome}
use kafkaman.Received.Once.{Stores}
use kafkaman.Kafka as Kafka
use kafkaman.Kafka.Headers.{record_headers}
use kafkaman.Kafka.Decode.{DecodedRecord, record_envelope}
use kafkaman.Kafka.Publisher.{FutureRecord, future_record}
use kafkaman.Kafka.Wire.{delivered}
use kafkaman.Kafka.EndToEnd.{IsCarriable, IsReceived, enqueued_row, enqueued_is_stored}
use kafkaman.Examples.Wire.{
  codec, codec-IsFaithful, made, key, key-IsKey, message_of, sent_or, strokes, tally, text_of,
}

abbrev descriptor : MessageDescriptor
descriptor = record { message_type = "order"; topic = "orders" }

abbrev identity : Identity ℕ
identity = record { key = to_hex key; source = some 4 }

abbrev message : Envelope ℕ
message = record {
  message_id = 5;
  idempotency_key = some identity;
  correlation_id = 6;
  causation_id = some 1;
  headers = ("tenant", "a") ∷ [];
  payload = message_of 3;
  occurred_at = 2;
}

abbrev session : Session ℕ
session = record {
  now = 9;
  next_order = 1;
  trace = some ("trace", none);
  visible = λ r. true;
  fault = none;
  unique = SqlxFailure.driver;
}

abbrev prepared : Prepared ℕ
prepared = record {
  partition_key = none;
  entity_key = "order-1";
  headers = ("tenant", "a") ∷ ("kafkaman-entity-key", "order-1") ∷ [];
  payload = 3;
}

message_prepared : prepare descriptor message ≡ SqlxFailure.ok prepared
unfolding prepare sql_text_eq
message_prepared = refl

message-IsCarriable : IsCarriable codec message prepared identity key (message_of 3)
unfolding strokes tally timestamptz
message-IsCarriable = record {
  written = strokes 0;
  formats = refl;
  plain = tt;
  reads = refl;
  bytes = 3 ∷ [];
  encodes = refl;
  decodes = refl;
  serializes = refl;
  resolves = refl;
  identified = refl;
  hex = refl;
  sized = key-IsKey;
  unique = (tt, tt);
  message_id = refl;
  correlation_id = refl;
  causation_id = refl;
}

abbrev row_of : Kafka.Result FutureRecord
row_of =
    future_record codec
      (enqueued_row codec codec-IsFaithful made session descriptor message prepared message_prepared
        identity key (message_of 3) message-IsCarriable)
      none

row_sent : row_of ≡ Kafka.ok (sent_or row_of)
unfolding future_record new_row
row_sent = refl

abbrev quiet : Insertion ℕ
quiet = record { now = 20; insert_fault = none; select_fault = none; seen = λ rows. rows }

abbrev source : Source
source = record { partition = pos 0; offset = pos 7; key = none; trace = none }

enqueued_is_stored_example :
    (r : DecodedRecord ℕ) × (row : ReceivedRow ℕ) × (record_envelope codec made "orders"
        (delivered codes (sent_or row_of) (pos 0) (pos 7))
        (record_headers text_of (delivered codes (sent_or row_of) (pos 0) (pos 7)))
      ≡ Kafka.ok r)
    × Stores row []
        (insert_received_with_outcome quiet (SqlxFailure.ok descriptor) r.envelope source [])
    × IsReceived codec message prepared identity row
enqueued_is_stored_example =
    enqueued_is_stored codec codec-IsFaithful made session descriptor message prepared
      message_prepared identity key (message_of 3) message-IsCarriable none (sent_or row_of) (pos 0)
      (pos 7) quiet source [] row_sent
      (record { inserts = refl; selects = refl; alone = λ rows. refl })
