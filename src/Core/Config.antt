-- ===== src/Core/Config.antt =====
-- crates/kafkaman-core/src/relay_config.rs, dispatcher_config.rs and purge_config.rs: the settings of
-- the worker loops and their validation. A `Duration` is a number of ticks, as an instant is.
use kafkaman.Base.{ℕ, String, Bool, Option, none, some, ◌==◌, if◌then◌else◌}
use kafkaman.Base.Int.{ℤ, pos, leb_ℤ}
use kafkaman.Core.Error.{
  Error, invalid_relay_config, invalid_dispatcher_config, invalid_purge_config,
}

pub record RelayConfig : Type 0 where
  pub worker_id : String
  pub batch_limit : ℤ
  pub lease_for : ℕ
  pub retry_after : ℕ
  pub poll_interval : ℕ

-- `none` is `Ok(())`.
unfoldable pub validate_relay : RelayConfig → Option Error
validate_relay c =
    if c.lease_for == 0
    then some (
        invalid_relay_config "lease_for"
          "must be greater than zero; a claim that expires as it is taken lets another worker reclaim and republish in a tight loop")
    else if leb_ℤ c.batch_limit (pos 0)
    then some (invalid_relay_config "batch_limit" "must be greater than zero")
    else if c.poll_interval == 0
    then some (
        invalid_relay_config "poll_interval"
          "must be greater than zero; it is the only thing that yields between empty polls")
    else none

pub record DispatcherConfig : Type 0 where
  pub poll_interval : ℕ
  pub max_consecutive_panicking_rows : ℕ

unfoldable pub validate_dispatcher : DispatcherConfig → Option Error
validate_dispatcher c =
    if c.poll_interval == 0
    then some (
        invalid_dispatcher_config "poll_interval"
          "must be greater than zero; it is the only thing that yields between empty polls")
    else if c.max_consecutive_panicking_rows == 0
    then some (
        invalid_dispatcher_config "max_consecutive_panicking_rows"
          "must be greater than zero; there is no way to spell \"never stop\" here, because a handler that panics on every row is not something to keep retrying in silence")
    else none

pub record PurgeConfig : Type 0 where
  pub older_than : ℕ
  pub batch_size : ℤ
  pub poll_interval : ℕ
  pub include_failed : Bool

unfoldable pub validate_purge : PurgeConfig → Option Error
validate_purge c =
    if c.older_than == 0
    then some (
        invalid_purge_config "older_than"
          "must be greater than zero; retaining nothing deletes rows as they land")
    else if leb_ℤ c.batch_size (pos 0)
    then some (invalid_purge_config "batch_size" "must be greater than zero")
    else if c.poll_interval == 0
    then some (invalid_purge_config "poll_interval" "must be greater than zero")
    else none
