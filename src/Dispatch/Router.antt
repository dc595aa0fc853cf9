-- ===== src/Dispatch/Router.antt =====
-- crates/kafkaman-sqlx/src/router.rs, and `ReceivedMeta` of kafkaman-core/src/rows.rs. Handlers are
-- application code: a parameter. They reach the tables of the application, `App`, through their
-- connection, and neither the received table nor the cache.
use kafkaman.Base.{
  ℕ, String, Bool, true, false, Option, none, some, List, ◌||◌, str_eq, if◌then◌else◌,
}
use kafkaman.Base.Int.{ℤ}
use kafkaman.Failure.{Result, ok, err, handler_panicked, handler}
use kafkaman.Received.{ReceivedRow}

pub record ReceivedMeta (Json : Type 0) : Type 0 where
  pub message_id : ℕ
  pub idempotency_key : String
  pub idempotency_source : Option Json
  pub entity_key : Option String
  pub message_type : String
  pub message_version : ℤ
  pub attempts : ℤ
  pub headers : List (String × String)
  pub source_topic : String
  pub source_partition : ℤ
  pub source_offset : ℤ
  pub key : Option (List ℕ)
  pub correlation_id : Option ℕ
  pub causation_id : Option ℕ
  pub occurred_at : ℕ
  pub created_at : ℕ
  pub deleted : Bool

unfoldable pub meta_of : {Json : Type 0} → ReceivedRow Json → ReceivedMeta Json
meta_of row = record {
  message_id = row.message_id;
  idempotency_key = row.idempotency_key;
  idempotency_source = row.idempotency_source;
  entity_key = row.entity_key;
  message_type = row.message_type;
  message_version = row.message_version;
  attempts = row.attempts;
  headers = row.headers;
  source_topic = row.source_topic;
  source_partition = row.source_partition;
  source_offset = row.source_offset;
  key = row.key;
  correlation_id = row.correlation_id;
  causation_id = row.causation_id;
  occurred_at = row.occurred_at;
  created_at = row.created_at;
  deleted = false;
}

pub data HandlerFlow : Type 0 where
  continue skip_handler : HandlerFlow

-- How a handler's future ends, as `catch_handler_panic` of catch_panic.rs reports it.
pub data HandlerCall (A : Type 0) : Type 0 where
  completed : Result A → HandlerCall A
  panicked : String → HandlerCall A
  polled_after_completion : HandlerCall A

-- `run_handler` of dispatch.rs, without its span.
unfoldable pub run_handler : {A : Type 0} → HandlerCall A → Result A
run_handler (completed r) = r
run_handler (panicked message) = err (handler_panicked message)
run_handler polled_after_completion =
    err (handler "kafkaman polled the handler boundary after it completed")

module _ (Json App : Type 0) where
  abbrev pub ErasedHandler : Type 0 → Type 0
  ErasedHandler A = ReceivedMeta Json → Json → App → HandlerCall A × App

  pub record MessageRouter : Type 0 where
    pub handlers : String → Option (ErasedHandler (Unit {0}))
    pub before_handlers : String → Option (ErasedHandler HandlerFlow)

-- The payload is decoded, and then the handler runs.
abbrev decode_then :
    {App A P : Type 0} → Result P → (P → App → HandlerCall A × App) → App → HandlerCall A × App
decode_then (ok p) f app = f p app
decode_then (err e) f app = (completed (err e), app)

abbrev pub is_some : {A : Type 0} → Option A → Bool
is_some none = false
is_some (some _) = true

module _ {Json App : Type 0} where
  -- `TypedMessageHandler::handle` and `TypedBeforeHandler::handle`.
  unfoldable pub typed :
      {A P : Type 0}
      → (Json → Result P)
      → (ReceivedMeta Json → P → App → HandlerCall A × App)
      → ErasedHandler Json App A
  typed from_value f meta payload app = decode_then (from_value payload) (f meta) app

  unfoldable pub empty_router : MessageRouter Json App
  empty_router = record { handlers = λ _. none; before_handlers = λ _. none }

  unfoldable pub add_handler :
      MessageRouter Json App → String → ErasedHandler Json App (Unit {0}) → MessageRouter Json App
  add_handler router message_type f = record router {
    handlers = λ k. if str_eq k message_type then some f else router.handlers k;
  }

  unfoldable pub add_handler_before :
      MessageRouter Json App → String → ErasedHandler Json App HandlerFlow → MessageRouter Json App
  add_handler_before router message_type f = record router {
    before_handlers = λ k. if str_eq k message_type then some f else router.before_handlers k;
  }

  unfoldable pub routes : MessageRouter Json App → String → Bool
  routes router message_type =
      is_some (router.handlers message_type) || is_some (router.before_handlers message_type)
