-- ===== src/Core/Topics.antt =====
-- crates/kafkaman-core/src/topics.rs: what a topic must look like, and what boot does about one.
pub mod Reconciled
use Prim.Native.Char.{Char, code}
use kafkaman.Base.{
  ℕ, String, Bool, true, false, Option, none, some, List, [], ◌∷◌, not, ◌&&◌, ◌||◌, ◌==◌, leb,
  str_eq, eq_ignore_case, if◌then◌else◌,
}
use kafkaman.Base.Int.{ℤ, pos, ltb_ℤ, eqb_ℤ}
use kafkaman.Core.Error.{
  Checked, accepted, rejected, invalid_topic_spec, topic_policy_mismatch, topic_missing,
  topic_partitions_undeclared,
}

pub data CleanupPolicy : Type 0 where
  compact delete compact_and_delete : CleanupPolicy
  unrecognized : String → CleanupPolicy

-- `char::is_whitespace`: the Unicode property.
unfoldable pub is_whitespace : ℕ → Bool
is_whitespace c =
    leb 9 c && leb c 13
    || c == 32
    || c == 133
    || c == 160
    || c == 5760
    || leb 8192 c && leb c 8202
    || c == 8232
    || c == 8233
    || c == 8239
    || c == 8287
    || c == 12288

unfoldable pub trim_start : String → String
unfolding is_whitespace
trim_start String.[] = String.[]
trim_start (String.◌∷◌ c s) =
    let rest = trim_start s in if is_whitespace (code c) then rest else String.◌∷◌ c s

abbrev pub is_empty : String → Bool
is_empty String.[] = true
is_empty (String.◌∷◌ c s) = false

unfoldable pub trim_end : String → String
unfolding is_whitespace
trim_end String.[] = String.[]
trim_end (String.◌∷◌ c s) =
    let rest = trim_end s in
    if is_whitespace (code c) && is_empty rest then String.[] else String.◌∷◌ c rest

unfoldable pub trim : String → String
unfolding trim_start trim_end
trim s = trim_end (trim_start s)

-- A character in front of the first part.
abbrev pub into_first : Char → List String → List String
into_first c [] = String.◌∷◌ c String.[] ∷ []
into_first c (part ∷ parts) = String.◌∷◌ c part ∷ parts

-- `raw.split(',')`.
unfoldable pub split : String → List String
split String.[] = String.[] ∷ []
split (String.◌∷◌ c s) =
    let parts = split s in if code c == b',' then String.[] ∷ parts else into_first c parts

-- The three flags of the loop: `compact`, `delete`, `unknown`.
pub record Flags : Type 0 where
  pub compacts : Bool
  pub deletes : Bool
  pub unknown : Bool

-- A part is compared in lower case with the two names, which are in lower case.
unfoldable pub note_part : String → Flags → Flags
unfolding trim eq_ignore_case
note_part part f =
    if eq_ignore_case (trim part) "compact"
    then record f { compacts = true }
    else if eq_ignore_case (trim part) "delete"
    then record f { deletes = true }
    else if is_empty (trim part)
    then f
    else record f { unknown = true }

unfoldable pub note_parts : List String → Flags → Flags
unfolding note_part
note_parts [] f = f
note_parts (part ∷ parts) f = note_parts parts (note_part part f)

unfoldable pub parse : String → CleanupPolicy
unfolding note_parts split trim
parse raw =
    let f =
      note_parts (split raw) (record { compacts = false; deletes = false; unknown = false }) in
    if f.unknown
    then CleanupPolicy.unrecognized (trim raw)
    else if f.compacts && f.deletes
    then CleanupPolicy.compact_and_delete
    else if f.compacts
    then CleanupPolicy.compact
    else if f.deletes
    then CleanupPolicy.delete
    else CleanupPolicy.unrecognized (trim raw)

unfoldable pub as_broker_value : CleanupPolicy → String
as_broker_value CleanupPolicy.compact = "compact"
as_broker_value CleanupPolicy.delete = "delete"
as_broker_value CleanupPolicy.compact_and_delete = "compact,delete"
as_broker_value (CleanupPolicy.unrecognized raw) = raw

-- The derived equality.
abbrev pub policy_eq : CleanupPolicy → CleanupPolicy → Bool
policy_eq CleanupPolicy.compact CleanupPolicy.compact = true
policy_eq CleanupPolicy.delete CleanupPolicy.delete = true
policy_eq CleanupPolicy.compact_and_delete CleanupPolicy.compact_and_delete = true
policy_eq (CleanupPolicy.unrecognized a) (CleanupPolicy.unrecognized b) = str_eq a b
policy_eq _ _ = false

pub record TopicSpec : Type 0 where
  pub cleanup_policy : CleanupPolicy
  pub partitions : Option ℤ
  pub replication_factor : Option ℤ

abbrev pub compacted : TopicSpec
compacted = record {
  cleanup_policy = CleanupPolicy.compact;
  partitions = none;
  replication_factor = none;
}

unfoldable pub with_partitions : ℤ → TopicSpec → Checked TopicSpec
with_partitions partitions spec =
    if ltb_ℤ partitions (pos 1)
    then rejected (invalid_topic_spec "partitions" "must be at least 1")
    else accepted (record spec { partitions = some partitions })

unfoldable pub with_replication_factor : ℤ → TopicSpec → Checked TopicSpec
with_replication_factor replication_factor spec =
    if ltb_ℤ replication_factor (pos 1)
    then rejected (invalid_topic_spec "replication_factor" "must be at least 1")
    else accepted (record spec { replication_factor = some replication_factor })

pub record ObservedTopic : Type 0 where
  pub name : String
  pub cleanup_policy : CleanupPolicy
  pub partitions : ℤ

pub record PartitionDrift : Type 0 where
  pub topic : String
  pub declared : ℤ
  pub found : ℤ

abbrev pub drift_of : Option ℤ → ObservedTopic → Option PartitionDrift
drift_of none observed = none
drift_of (some declared) observed =
    if eqb_ℤ declared observed.partitions
    then none
    else some (record { topic = observed.name; declared = declared; found = observed.partitions })

unfoldable pub check : TopicSpec → ObservedTopic → Checked (Option PartitionDrift)
unfolding as_broker_value
check spec observed =
    if policy_eq spec.cleanup_policy observed.cleanup_policy
    then accepted (drift_of spec.partitions observed)
    else rejected (
        topic_policy_mismatch observed.name (as_broker_value spec.cleanup_policy)
          (as_broker_value observed.cleanup_policy))

pub data TopicMode : Type 0 where
  verify create off : TopicMode

pub data TopicAction : Type 0 where
  satisfied : TopicAction
  creation : ℤ → Option ℤ → TopicAction

pub record TopicOutcome : Type 0 where
  pub action : TopicAction
  pub drift : Option PartitionDrift

-- `partitions_for_create`, and the outcome with the count.
abbrev pub create_with : String → Option ℤ → Option ℤ → Checked TopicOutcome
create_with topic none replication_factor = rejected (topic_partitions_undeclared topic)
create_with topic (some partitions) replication_factor =
    accepted (record { action = creation partitions replication_factor; drift = none })

abbrev pub with_drift : Checked (Option PartitionDrift) → Checked TopicOutcome
with_drift (accepted drift) = accepted (record { action = satisfied; drift = drift })
with_drift (rejected e) = rejected e

unfoldable pub reconcile :
    String → TopicSpec → Option ObservedTopic → TopicMode → Checked TopicOutcome
unfolding check
reconcile topic spec observed TopicMode.off = accepted (record { action = satisfied; drift = none })
reconcile topic spec none TopicMode.create =
    create_with topic spec.partitions spec.replication_factor
reconcile topic spec none TopicMode.verify = rejected (topic_missing topic)
reconcile topic spec (some observed) _ = with_drift (check spec observed)
