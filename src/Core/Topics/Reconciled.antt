-- ===== src/Core/Topics/Reconciled.antt =====
-- What boot accepts: topics.rs.
use kafkaman.Base.{
  String, true, Option, none, some, ◌≡◌, ◌≢◌, refl, sym, ap, inl, inr, ◌↔◌, eq_iff, eq_refl,
  Bool-cases, subst,
}
use kafkaman.Base.Int.{ℤ, eqb_ℤ, eqb_ℤ_iff}
use kafkaman.Core.Error.{accepted}
use kafkaman.Core.Topics.{
  CleanupPolicy, policy_eq, TopicSpec, ObservedTopic, PartitionDrift, drift_of, check, TopicMode,
  satisfied, creation, TopicOutcome, create_with, with_drift, reconcile,
}

policy_eq-eq : (a b : CleanupPolicy) → policy_eq a b ≡ true → a ≡ b
policy_eq-eq CleanupPolicy.compact CleanupPolicy.compact h = refl
policy_eq-eq CleanupPolicy.delete CleanupPolicy.delete h = refl
policy_eq-eq CleanupPolicy.compact_and_delete CleanupPolicy.compact_and_delete h = refl
policy_eq-eq (CleanupPolicy.unrecognized a) (CleanupPolicy.unrecognized b) h =
    ap CleanupPolicy.unrecognized ((eq_iff a b).0 h)
policy_eq-eq CleanupPolicy.compact CleanupPolicy.delete h = absurd (cc h)
policy_eq-eq CleanupPolicy.compact CleanupPolicy.compact_and_delete h = absurd (cc h)
policy_eq-eq CleanupPolicy.compact (CleanupPolicy.unrecognized b) h = absurd (cc h)
policy_eq-eq CleanupPolicy.delete CleanupPolicy.compact h = absurd (cc h)
policy_eq-eq CleanupPolicy.delete CleanupPolicy.compact_and_delete h = absurd (cc h)
policy_eq-eq CleanupPolicy.delete (CleanupPolicy.unrecognized b) h = absurd (cc h)
policy_eq-eq CleanupPolicy.compact_and_delete CleanupPolicy.compact h = absurd (cc h)
policy_eq-eq CleanupPolicy.compact_and_delete CleanupPolicy.delete h = absurd (cc h)
policy_eq-eq CleanupPolicy.compact_and_delete (CleanupPolicy.unrecognized b) h = absurd (cc h)
policy_eq-eq (CleanupPolicy.unrecognized a) CleanupPolicy.compact h = absurd (cc h)
policy_eq-eq (CleanupPolicy.unrecognized a) CleanupPolicy.delete h = absurd (cc h)
policy_eq-eq (CleanupPolicy.unrecognized a) CleanupPolicy.compact_and_delete h = absurd (cc h)

policy_eq_refl : (a : CleanupPolicy) → policy_eq a a ≡ true
policy_eq_refl CleanupPolicy.compact = refl
policy_eq_refl CleanupPolicy.delete = refl
policy_eq_refl CleanupPolicy.compact_and_delete = refl
policy_eq_refl (CleanupPolicy.unrecognized a) = eq_refl a

-- What is said of the partitions: nothing where none are declared or the counts agree.
pub data Drift (declared : Option ℤ) (observed : ObservedTopic)
    : Option PartitionDrift → Type 0 where
  undeclared : declared ≡ none → Drift declared observed none
  agreed : declared ≡ some observed.partitions → Drift declared observed none
  drifted :
      (n : ℤ)
      → declared ≡ some n
      → n ≢ observed.partitions
      → Drift declared observed
          (some (record { topic = observed.name; declared = n; found = observed.partitions }))

-- What boot may do: nothing when it is off, create a missing topic with the declared count, or find a
-- topic that has the required policy.
pub data Reconciled (spec : TopicSpec)
    : Option ObservedTopic → TopicMode → TopicOutcome → Type 0 where
  unchecked :
      (observed : Option ObservedTopic)
      → Reconciled spec observed TopicMode.off (record { action = satisfied; drift = none })
  created :
      (n : ℤ)
      → spec.partitions ≡ some n
      → Reconciled spec none TopicMode.create
          (record { action = creation n spec.replication_factor; drift = none })
  found :
      (observed : ObservedTopic) (mode : TopicMode) (drift : Option PartitionDrift)
      → ¬ (mode ≡ TopicMode.off)
      → observed.cleanup_policy ≡ spec.cleanup_policy
      → Drift spec.partitions observed drift
      → Reconciled spec (some observed) mode (record { action = satisfied; drift = drift })

drift_of-Drift :
    (declared : Option ℤ) (observed : ObservedTopic)
    → Drift declared observed (drift_of declared observed)
drift_of-Drift none observed = undeclared refl
drift_of-Drift (some n) observed = elim (Bool-cases (eqb_ℤ n observed.partitions)) [
  | inl e ↦ rw e (agreed (ap some ((eqb_ℤ_iff n observed.partitions).0 e)))
  | inr e ↦ rw e (drifted n refl (λ q. absurd (cc ((eqb_ℤ_iff n observed.partitions).1 q, e))))
]

Drift-drift_of :
    (declared : Option ℤ) (observed : ObservedTopic) {d : Option PartitionDrift}
    → Drift declared observed d
    → drift_of declared observed ≡ d
Drift-drift_of declared observed (undeclared h) = rw h refl
Drift-drift_of declared observed (agreed h) =
    rw (h, (eqb_ℤ_iff observed.partitions observed.partitions).1 refl) refl
Drift-drift_of declared observed (drifted n h q) = elim (Bool-cases (eqb_ℤ n observed.partitions)) [
  | inl e ↦ absurd (q ((eqb_ℤ_iff n observed.partitions).0 e))
  | inr e ↦ rw (h, e) refl
]

found-Reconciled :
    (topic : String) (spec : TopicSpec) (observed : ObservedTopic) (mode : TopicMode)
    (o : TopicOutcome)
    → ¬ (mode ≡ TopicMode.off)
    → with_drift (check spec observed) ≡ accepted o
    → Reconciled spec (some observed) mode o
unfolding check
found-Reconciled topic spec observed mode o n h =
    elim (Bool-cases (policy_eq spec.cleanup_policy observed.cleanup_policy)) [
      | inr e ↦ absurd (cc (rw e at h))
      | inl e ↦
          let same : accepted
                (record { action = satisfied; drift = drift_of spec.partitions observed })
              ≡ accepted o =
            rw e at h in
          let outcome : record { action = satisfied; drift = drift_of spec.partitions observed }
              ≡ o =
            cc same in
          subst (Reconciled spec (some observed) mode) outcome (
            found observed mode (drift_of spec.partitions observed) n
              (sym (policy_eq-eq spec.cleanup_policy observed.cleanup_policy e))
              (drift_of-Drift spec.partitions observed))
    ]

found-accepted :
    (spec : TopicSpec) (observed : ObservedTopic) {drift : Option PartitionDrift}
    → observed.cleanup_policy ≡ spec.cleanup_policy
    → Drift spec.partitions observed drift
    → with_drift (check spec observed) ≡ accepted (record { action = satisfied; drift = drift })
unfolding check
found-accepted spec observed q d =
    let same : policy_eq spec.cleanup_policy observed.cleanup_policy ≡ true =
      subst (λ p. policy_eq spec.cleanup_policy p ≡ true) (sym q)
        (policy_eq_refl spec.cleanup_policy) in
    rw (same, Drift-drift_of spec.partitions observed d) refl

create_with-Reconciled :
    (topic : String) (spec : TopicSpec) (partitions : Option ℤ) (o : TopicOutcome)
    → spec.partitions ≡ partitions
    → create_with topic partitions spec.replication_factor ≡ accepted o
    → Reconciled spec none TopicMode.create o
create_with-Reconciled topic spec none o q h = absurd (cc h)
create_with-Reconciled topic spec (some n) o q h =
    let outcome : record { action = creation n spec.replication_factor; drift = none } ≡ o = cc h in
    subst (Reconciled spec none TopicMode.create) outcome (created n q)

accepted-Reconciled :
    (topic : String) (spec : TopicSpec) (observed : Option ObservedTopic) (mode : TopicMode)
    (o : TopicOutcome)
    → reconcile topic spec observed mode ≡ accepted o
    → Reconciled spec observed mode o
unfolding reconcile
accepted-Reconciled topic spec observed TopicMode.off o h =
    let outcome : record { action = satisfied; drift = none } ≡ o = cc h in
    subst (Reconciled spec observed TopicMode.off) outcome (unchecked observed)
accepted-Reconciled topic spec none TopicMode.create o h =
    create_with-Reconciled topic spec spec.partitions o refl h
accepted-Reconciled topic spec none TopicMode.verify o h = absurd (cc h)
accepted-Reconciled topic spec (some observed) TopicMode.create o h =
    found-Reconciled topic spec observed TopicMode.create o (λ q. absurd (cc q)) h
accepted-Reconciled topic spec (some observed) TopicMode.verify o h =
    found-Reconciled topic spec observed TopicMode.verify o (λ q. absurd (cc q)) h

Reconciled-accepted :
    (topic : String) (spec : TopicSpec) {observed : Option ObservedTopic} {mode : TopicMode}
    {o : TopicOutcome}
    → Reconciled spec observed mode o
    → reconcile topic spec observed mode ≡ accepted o
unfolding reconcile
Reconciled-accepted topic spec (unchecked observed) = refl
Reconciled-accepted topic spec (created n q) = rw q refl
Reconciled-accepted topic spec (found observed TopicMode.off drift n q d) = absurd (n refl)
Reconciled-accepted topic spec (found observed TopicMode.create drift n q d) =
    found-accepted spec observed q d
Reconciled-accepted topic spec (found observed TopicMode.verify drift n q d) =
    found-accepted spec observed q d

-- The reconciliation of a topic succeeds with an outcome exactly when the outcome is one that boot
-- may have: nothing is done and nothing reported when checking is off; a missing topic is created
-- in the mode that creates, with the partitions its specification declares; a topic that exists is
-- left alone and has the required cleanup policy, with the drift reported exactly when a declared
-- number of partitions is not the observed one. In every other case it is an error.
pub reconciled :
    (topic : String) (spec : TopicSpec) (observed : Option ObservedTopic) (mode : TopicMode)
    (o : TopicOutcome)
    → (reconcile topic spec observed mode ≡ accepted o) ↔ Reconciled spec observed mode o
reconciled topic spec observed mode o =
    (accepted-Reconciled topic spec observed mode o, Reconciled-accepted topic spec)
