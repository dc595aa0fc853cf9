-- ===== src/Examples/Core.antt =====
-- The pure parts at concrete values.
use kafkaman.Base.{refl, ◌*◌, ◌/◌, ◌<◌, ◌≡◌, ◌↔◌, none, some, [], ◌∷◌, arith, true}
use kafkaman.Base.Int.{pos, ◌<ℤ◌}
use kafkaman.Core.Problem.{
  ReceivedFailureKind, discriminant, kind_problem_type, coarsening, from_problem_type,
}
use kafkaman.Core.Names.{failure_kinds_round_trip}
use kafkaman.Core.Config.{
  RelayConfig, validate_relay, DispatcherConfig, validate_dispatcher, PurgeConfig, validate_purge,
}
use kafkaman.Core.Validated.{accepted_settings}
use kafkaman.Core.Sampler.{sampler}
use kafkaman.Core.Error.{accepted}
use kafkaman.Core.Identifier.{SqlIdentifier, new}
use kafkaman.Core.Identifier.Accepted.{IsName, new-IsName}
use kafkaman.Core.Topics.{
  TopicSpec, ObservedTopic, TopicOutcome, TopicMode, parse, satisfied, reconcile,
}
use kafkaman.Core.Topics.Reconciled.{Reconciled, reconciled}
use kafkaman.Core.Sampler.Rate.{take_all, sum, emits_at_rate}

emits_at_rate_example :
    take_all (sampler (some 750000)) (3 ∷ 0 ∷ 5 ∷ []) ≡ sum (3 ∷ 0 ∷ 5 ∷ []) * 750000 / 1000000
emits_at_rate_example = emits_at_rate 750000 (3 ∷ 0 ∷ 5 ∷ []) (omega arith) (omega arith)

failure_kinds_round_trip_example :
    (from_problem_type (kind_problem_type ReceivedFailureKind.handler)
      ≡ some ReceivedFailureKind.handler)
    × (from_problem_type (discriminant ReceivedFailureKind.handler)
        ≡ some ReceivedFailureKind.handler)
    × (coarsening (kind_problem_type ReceivedFailureKind.handler) ≡ ReceivedFailureKind.handler)
failure_kinds_round_trip_example = failure_kinds_round_trip ReceivedFailureKind.handler

abbrev relay : RelayConfig
relay = record {
  worker_id = "w";
  batch_limit = pos 10;
  lease_for = 30;
  retry_after = 5;
  poll_interval = 1;
}

abbrev dispatcher : DispatcherConfig
dispatcher = record { poll_interval = 1; max_consecutive_panicking_rows = 0 }

abbrev purge : PurgeConfig
purge = record { older_than = 7; batch_size = pos 100; poll_interval = 1; include_failed = true }

accepted_settings_example :
    ((validate_relay relay ≡ none)
      ↔ ((0 < relay.lease_for) × (pos 0 <ℤ relay.batch_limit) × (0 < relay.poll_interval)))
    × ((validate_dispatcher dispatcher ≡ none)
        ↔ ((0 < dispatcher.poll_interval) × (0 < dispatcher.max_consecutive_panicking_rows)))
    × ((validate_purge purge ≡ none)
        ↔ ((0 < purge.older_than) × (pos 0 <ℤ purge.batch_size) × (0 < purge.poll_interval)))
accepted_settings_example = accepted_settings relay dispatcher purge

abbrev orders : TopicSpec
orders = record {
  cleanup_policy = parse " Compact ";
  partitions = some (pos 6);
  replication_factor = none;
}

abbrev repartitioned : ObservedTopic
repartitioned = record { name = "orders"; cleanup_policy = parse "compact,"; partitions = pos 12 }

abbrev with_warning : TopicOutcome
with_warning = record {
  action = satisfied;
  drift = some (record { topic = "orders"; declared = pos 6; found = pos 12 });
}

reconciled_example :
    (reconcile "orders" orders (some repartitioned) TopicMode.create ≡ accepted with_warning)
    ↔ Reconciled orders (some repartitioned) TopicMode.create with_warning
reconciled_example = reconciled "orders" orders (some repartitioned) TopicMode.create with_warning

warned : reconcile "orders" orders (some repartitioned) TopicMode.create ≡ accepted with_warning
unfolding reconcile parse
warned = refl

abbrev order_items : SqlIdentifier
order_items = record { value = "order_items" }

new-IsName_example :
    (new "order_items" ≡ accepted order_items)
    ↔ ((order_items.value ≡ "order_items") × IsName "order_items")
new-IsName_example = new-IsName "order_items" order_items

named_items : new "order_items" ≡ accepted order_items
unfolding new
named_items = refl
