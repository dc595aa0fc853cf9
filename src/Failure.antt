-- ===== src/Failure.antt =====
-- crates/kafkaman-sqlx/src/error.rs and the classification of dispatch_failure.rs.
use kafkaman.Base.{
  ℕ, String, Bool, true, false, Option, none, some, List, ◌∷◌, ◌&&◌, ◌||◌, ◌==◌, if◌then◌else◌, ◌≡◌,
  refl,
}
use kafkaman.Base.Int.{ℤ}
use kafkaman.Core.Error as CoreError
use kafkaman.Core.Problem.{
  missing_handler_uri, invalid_payload_uri, infrastructure_uri, handler_uri, handler_panicked_uri,
  application_panicked_uri, configuration_uri, schema_uri, message_routing_uri, cache_invariant_uri,
  idempotency_uri, unsafe_replay_uri, constraint_uri, contention_uri, statement_uri,
  ReceivedFailureKind, coarsening, FailureStage,
}

-- What the code reads of a `sqlx::Error`: whether it is `Database`, and then whether `kind()` is
-- `Other`, and the bytes of `code()`.
pub data SqlxError : Type 0 where
  database : Bool → Option (List ℕ) → SqlxError
  driver : SqlxError

pub data Error : Type 0 where
  core : CoreError.Error → Error
  sqlx : SqlxError → Error
  serde : String → Error
  config : String → Error
  config_errors : List String → Error
  duplicate_changeset_version : ℤ → Error
  disordered_changeset_version : ℤ → ℤ → Error
  checksum_mismatch : ℤ → String → String → Error
  invalid_replay : ℤ → String → Error
  unsafe_outbox_replay : String → Error
  invalid_resync : String → Error
  invalid_ingest_failure_kind : String → Error
  invalid_received_filter : String → Error
  migration_lock_busy : Error
  migration_pool_too_small : ℕ → Error
  unknown_message_type : String → Error
  conflicting_message_type : String → String → String → Error
  reserved_header : String → Error
  missing_idempotency_key : Error
  application_panicked : String → String → String → Error
  invalid_entity_key : String → Error
  missing_entity_key : ℕ → String → Error
  cache_origin_mismatch : String → String → ℤ → String → ℤ → Error
  missing_handler : String → Error
  handler : String → Error
  handler_panicked : String → Error
  conflicting_role : String → String → String → Error
  changeset_band_collision : ℤ → String → String → Error

-- `code.get(..2)` compared with two digits.
abbrev class_is : ℕ → ℕ → Option (List ℕ) → Bool
class_is a b (some (x ∷ y ∷ rest)) = x == a && y == b
class_is a b _ = false

unfoldable pub sqlx_problem_type : SqlxError → String
sqlx_problem_type driver = infrastructure_uri
sqlx_problem_type (database kind_is_other code) =
    if kind_is_other
    then (if class_is b'2' b'3' code
        then constraint_uri
        else if class_is b'4' b'0' code
        then contention_uri
        else if class_is b'2' b'2' code || class_is b'4' b'2' code
        then statement_uri
        else infrastructure_uri)
    else constraint_uri

unfoldable pub problem_type : Error → String
unfolding CoreError.problem_type sqlx_problem_type
problem_type (core error) = CoreError.problem_type error
problem_type (sqlx error) = sqlx_problem_type error
problem_type (serde _) = invalid_payload_uri
problem_type (config _) = configuration_uri
problem_type (config_errors _) = configuration_uri
problem_type (invalid_received_filter _) = configuration_uri
problem_type (invalid_resync _) = configuration_uri
problem_type (migration_pool_too_small _) = configuration_uri
problem_type (duplicate_changeset_version _) = schema_uri
problem_type (disordered_changeset_version _ _) = schema_uri
problem_type (checksum_mismatch _ _ _) = schema_uri
problem_type (invalid_replay _ _) = schema_uri
problem_type (invalid_ingest_failure_kind _) = schema_uri
problem_type migration_lock_busy = schema_uri
problem_type (changeset_band_collision _ _ _) = schema_uri
problem_type (unsafe_outbox_replay _) = unsafe_replay_uri
problem_type (unknown_message_type _) = message_routing_uri
problem_type (conflicting_message_type _ _ _) = message_routing_uri
problem_type (reserved_header _) = message_routing_uri
problem_type (conflicting_role _ _ _) = message_routing_uri
problem_type missing_idempotency_key = idempotency_uri
problem_type (application_panicked _ _ _) = application_panicked_uri
problem_type (invalid_entity_key _) = cache_invariant_uri
problem_type (missing_entity_key _ _) = cache_invariant_uri
problem_type (cache_origin_mismatch _ _ _ _ _) = cache_invariant_uri
problem_type (missing_handler _) = missing_handler_uri
problem_type (handler _) = handler_uri
problem_type (handler_panicked _) = handler_panicked_uri

-- `ProblemType::failure_kind`, the provided method.
unfoldable pub failure_kind : Error → ReceivedFailureKind
unfolding problem_type coarsening
failure_kind error = coarsening (problem_type error)

pub record FailureDisposition : Type 0 where
  pub kind : ReceivedFailureKind
  pub stage : FailureStage
  pub terminal : Bool

unfoldable pub is_terminal : Error → Bool
is_terminal (cache_origin_mismatch _ _ _ _ _) = true
is_terminal (missing_entity_key _ _) = true
is_terminal (invalid_entity_key _) = true
is_terminal _ = false

unfoldable pub failure_disposition : Error → FailureStage → FailureDisposition
unfolding failure_kind is_terminal
failure_disposition error stage = record {
  kind = failure_kind error;
  stage = stage;
  terminal = is_terminal error;
}

pub data Result {ℓ} (A : Type ℓ) : Type ℓ where
  ok : A → Result A
  err : Error → Result A

infixl 5 ◌>>=◌ ◌>>◌
abbrev pub ◌>>=◌ {ℓ κ} : {A : Type ℓ} {B : Type κ} → Result A → (A → Result B) → Result B
ok a >>= f = f a
err e >>= f = err e

abbrev pub ◌>>◌ {ℓ κ} : {A : Type ℓ} {B : Type κ} → Result A → Result B → Result B
m >> k = m >>= λ _. k

-- A statement of the database fails or does not: `none` is success.
abbrev pub attempt : Option SqlxError → Result (Unit {0})
attempt none = ok tt
attempt (some e) = err (sqlx e)

-- A chain that succeeds does so in its first step, and then in the rest.
pub bind_ok {ℓ κ} :
    {A : Type ℓ} {B : Type κ} (m : Result A) (f : A → Result B) {b : B}
    → m >>= f ≡ ok b
    → (a : A) × (m ≡ ok a) × (f a ≡ ok b)
bind_ok (ok a) f h = (a, refl, h)
bind_ok (err e) f h = absurd (cc h)
