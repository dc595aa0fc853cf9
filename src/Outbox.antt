-- ===== src/Outbox.antt =====
-- The outbox table of crates/kafkaman-sqlx: its rows (`OutboxRow` of kafkaman-core/src/rows.rs with
-- the storage column `enqueue_order`) and the tests that its statements make. An instant is a number
-- of ticks of the database clock. `Json` is the type of `serde_json::Value`.
pub mod Enqueue
pub mod Claim
pub mod Mark
pub mod Purge
pub mod Stored
pub mod Order
use kafkaman.Base.{
  ℕ, ◌≤◌, String, Bool, true, false, Option, none, some, List, ◌≡◌, ◌&&◌, refl, str_eq, eq_iff, leb,
  ltb, arith, sym,
}
use kafkaman.Core.Status.{OutboxStatus, outbox_is}

pub record OutboxRow (Json : Type 0) : Type 0 where
  pub message_id : ℕ
  pub idempotency_key : Option String
  pub idempotency_source : Option Json
  pub status : OutboxStatus
  pub attempts : ℕ
  pub next_attempt_at : ℕ
  pub last_error : Option String
  pub claim_id : Option ℕ
  pub claimed_by : Option String
  pub claim_expires_at : Option ℕ
  pub topic : String
  pub partition_key : Option String
  pub entity_key : Option String
  pub correlation_id : ℕ
  pub causation_id : Option ℕ
  pub trace : Option (String × Option String)
  pub headers : List (String × String)
  pub payload : Json
  pub occurred_at : ℕ
  pub created_at : ℕ
  pub published_at : Option ℕ
  pub enqueue_order : ℕ

-- SQL's `=` on two nullable texts: a null equals nothing.
unfoldable pub sql_text_eq : Option String → Option String → Bool
sql_text_eq (some a) (some b) = str_eq a b
sql_text_eq (some a) none = false
sql_text_eq none b = false

pub sql_text_eq-eq : (a b : Option String) → sql_text_eq a b ≡ true → a ≡ b
unfolding sql_text_eq
sql_text_eq-eq (some a) (some b) h = ground (arith, eq_iff a b)
sql_text_eq-eq (some a) none h = ground arith
sql_text_eq-eq none b h = ground arith

pub sql_text_eq_symm : (a b : Option String) → sql_text_eq a b ≡ true → sql_text_eq b a ≡ true
unfolding sql_text_eq
sql_text_eq_symm (some a) (some b) h = ground (arith, eq_iff a b, eq_iff b a)
sql_text_eq_symm (some a) none h = ground arith
sql_text_eq_symm none b h = ground arith

module _ {Json : Type 0} where
  abbrev pub same_entity : OutboxRow Json → OutboxRow Json → Bool
  same_entity a b = sql_text_eq a.entity_key b.entity_key

  abbrev pub has_status : OutboxStatus → OutboxRow Json → Bool
  has_status s r = outbox_is r.status s
