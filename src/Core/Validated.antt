-- ===== src/Core/Validated.antt =====
-- What the validated settings of relay_config.rs, dispatcher_config.rs and purge_config.rs promise
-- to the loops.
use kafkaman.Base.{◌<◌, ◌≡◌, ◌↔◌, none, arith}
use kafkaman.Base.Int.{pos, ◌<ℤ◌}
use kafkaman.Core.Config.{
  RelayConfig, validate_relay, DispatcherConfig, validate_dispatcher, PurgeConfig, validate_purge,
}

-- Settings are accepted exactly when each number that keeps a loop going is positive: the lease,
-- the batch and the poll interval of a relay; the poll interval and the panic limit of a dispatcher;
-- the age, the batch and the poll interval of a purge.
pub accepted_settings :
    (r : RelayConfig) (d : DispatcherConfig) (p : PurgeConfig)
    → ((validate_relay r ≡ none)
        ↔ ((0 < r.lease_for) × (pos 0 <ℤ r.batch_limit) × (0 < r.poll_interval)))
      × ((validate_dispatcher d ≡ none)
          ↔ ((0 < d.poll_interval) × (0 < d.max_consecutive_panicking_rows)))
      × ((validate_purge p ≡ none)
          ↔ ((0 < p.older_than) × (pos 0 <ℤ p.batch_size) × (0 < p.poll_interval)))
unfolding validate_relay validate_dispatcher validate_purge
accepted_settings r d p = (ground arith, ground arith, ground arith)
