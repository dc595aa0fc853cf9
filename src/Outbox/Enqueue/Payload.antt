-- ===== src/Outbox/Enqueue/Payload.antt =====
-- What a writer hands to `enqueue`: crates/kafkaman-core/src/message.rs, envelope.rs and idempotency.rs,
-- with `catch_application_panic` of kafkaman-sqlx/src/catch_panic.rs.
use Prim.Native.Char.{code}
use kafkaman.Base.{
  ℕ, String, Bool, true, false, Option, none, some, List, [], ◌∷◌, ◌&&◌, ◌==◌, str_eq, to_lower,
  if◌then◌else◌,
}
use kafkaman.Failure.{Result, ok, err, application_panicked}

-- A call of application code: it returns or it unwinds.
pub data Call {ℓ} (A : Type ℓ) : Type ℓ where
  returned : A → Call A
  panicked : String → Call A

unfoldable pub catch_application_panic {ℓ} : {A : Type ℓ} → String → String → Call A → Result A
catch_application_panic message_type operation (returned a) = ok a
catch_application_panic message_type operation (panicked message) =
    err (application_panicked message_type operation message)

-- What a message type's own code answers for one payload. `serialize` may also return an error.
pub record Message (Json : Type 0) : Type 0 where
  pub partition_key : Call (Option String)
  pub entity_key : Call String
  pub serialize : Call (Result Json)

pub record MessageDescriptor : Type 0 where
  pub message_type : String
  pub topic : String

-- `IdempotencyIdentity`, its key in hexadecimal.
pub record Identity (Json : Type 0) : Type 0 where
  pub key : String
  pub source : Option Json

pub record Envelope (Json : Type 0) : Type 0 where
  pub message_id : ℕ
  pub idempotency_key : Option (Identity Json)
  pub correlation_id : ℕ
  pub causation_id : Option ℕ
  pub headers : List (String × String)
  pub payload : Message Json
  pub occurred_at : ℕ

-- The key starts with the prefix, ASCII case aside. The prefix is ASCII, so that bytes and characters
-- agree on it.
unfoldable pub has_prefix_ignore_case : String → String → Bool
has_prefix_ignore_case String.[] key = true
has_prefix_ignore_case (String.◌∷◌ p prefix) String.[] = false
has_prefix_ignore_case (String.◌∷◌ p prefix) (String.◌∷◌ c key) =
    (to_lower (code c) == to_lower (code p)) && has_prefix_ignore_case prefix key

unfoldable pub find_reserved_header : List (String × String) → Option String
unfolding has_prefix_ignore_case
find_reserved_header [] = none
find_reserved_header ((key, value) ∷ rest) =
    if has_prefix_ignore_case "kafkaman-" key then some key else find_reserved_header rest

-- `headers.insert` of a `BTreeMap`, in the order of the list where the key is there.
unfoldable pub insert_header : String → String → List (String × String) → List (String × String)
insert_header k v [] = (k, v) ∷ []
insert_header k v ((j, w) ∷ rest) =
    if str_eq j k then (k, v) ∷ rest else (j, w) ∷ insert_header k v rest
