-- ===== src/Core/Sampler.antt =====
-- crates/kafkaman-core/src/lifecycle.rs: how many successes get an event. The rate is the numerator
-- that `LifecycleEmission::numerator` computes from a float; counts are u64.
pub mod Rate
use kafkaman.Base.{ℕ, ◌+◌, ◌-◌, ◌*◌, ◌/◌, Option, none, some, ltb, leb, ◌==◌, if◌then◌else◌}

abbrev pub rate_denominator : ℕ
rate_denominator = 1000000

abbrev pub u64_max : ℕ
u64_max = 18446744073709551615

pub record LifecycleSampler : Type 0 where
  pub numerator : Option ℕ
  pub seen : ℕ
  pub emitted : ℕ

unfoldable pub sampler : Option ℕ → LifecycleSampler
sampler numerator = record { numerator = numerator; seen = 0; emitted = 0 }

abbrev pub saturate : ℕ → ℕ
saturate n = if leb n u64_max then n else u64_max

-- The number of events for these successes, and the sampler after them.
unfoldable pub take_events : LifecycleSampler → ℕ → ℕ × LifecycleSampler
take_events s successes = elim s.numerator [
  | none ↦ (0, s)
  | some numerator ↦
      if successes == 0
      then (0, s)
      else let seen = saturate (s.seen + saturate successes) in
        let owed = saturate (seen * numerator / rate_denominator) in
        (owed - s.emitted, record s { seen = seen; emitted = owed })
]
