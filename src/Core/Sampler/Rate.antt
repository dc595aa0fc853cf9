-- ===== src/Core/Sampler/Rate.antt =====
-- The sampler of lifecycle.rs emits at its rate.
use kafkaman.Base.{
  ℕ, zero, suc, ◌+◌, ◌-◌, ◌*◌, ◌/◌, ◌≤◌, false, some, List, [], ◌∷◌, ◌≡◌, refl, ap, sym, subst, ◌∙◌,
  arith, ◌==◌,
}
use kafkaman.Core.Sampler.{
  rate_denominator, u64_max, saturate, LifecycleSampler, sampler, take_events,
}

abbrev pub sum : List ℕ → ℕ
sum [] = 0
sum (n ∷ ns) = n + sum ns

-- The events of all cycles, the sampler passed from each to the next.
unfoldable pub take_all : LifecycleSampler → List ℕ → ℕ
unfolding take_events
take_all s [] = 0
take_all s (successes ∷ rest) =
    (take_events s successes).0 + take_all (take_events s successes).1 rest

-- A sampler that has emitted what it owes.
abbrev on_rate : ℕ → ℕ → LifecycleSampler
on_rate n seen = record { numerator = some n; seen = seen; emitted = seen * n / rate_denominator }

add_mul : (a b n : ℕ) → (a + b) * n ≡ a * n + b * n
add_mul a b n = grind arith

mul_add : (a b c : ℕ) → a * (b + c) ≡ a * b + a * c
mul_add a b c = grind arith

mul_le : (a n : ℕ) → n ≤ rate_denominator → a * n ≤ a * rate_denominator
mul_le a n h =
    let split : n + (rate_denominator - n) ≡ rate_denominator = omega arith in
    let whole =
      subst (λ x. a * x ≡ a * n + a * (rate_denominator - n)) split
        (mul_add a n (rate_denominator - n)) in
    omega (arith, whole)

saturate-small : (n : ℕ) → n ≤ u64_max → saturate n ≡ n
saturate-small n h = ground arith

owed-le : (m n : ℕ) → n ≤ rate_denominator → m ≤ u64_max → m * n / rate_denominator ≤ u64_max
owed-le m n h u = omega (arith, mul_le m n h)

-- One cycle: the events are the difference of what is owed.
take_events-on_rate :
    (n seen k : ℕ)
    → n ≤ rate_denominator
    → seen + k ≤ u64_max
    → take_events (on_rate n seen) k
      ≡ ((seen + k) * n / rate_denominator - seen * n / rate_denominator, on_rate n (seen + k))
unfolding take_events
take_events-on_rate n seen zero h u =
    let same : seen + 0 ≡ seen = omega arith in
    let nothing : 0 ≡ (seen + 0) * n / rate_denominator - seen * n / rate_denominator =
      rw same (omega arith) in
    λ i. (nothing i, on_rate n (sym same i))
take_events-on_rate n seen (suc k) h u =
    let some_more : (suc k == 0) ≡ false = ground arith in
    rw
      (
        some_more,
        saturate-small (suc k) (omega arith),
        saturate-small (seen + suc k) u,
        saturate-small _ (owed-le (seen + suc k) n h u),
      )
      refl

growth : (n seen k : ℕ) → seen * n / rate_denominator ≤ (seen + k) * n / rate_denominator
growth n seen k = omega (arith, add_mul seen k n)

take_all-on_rate :
    (n seen : ℕ) (batches : List ℕ)
    → n ≤ rate_denominator
    → seen + sum batches ≤ u64_max
    → take_all (on_rate n seen) batches + seen * n / rate_denominator
      ≡ (seen + sum batches) * n / rate_denominator
unfolding take_all
take_all-on_rate n seen [] h u =
    let same : seen ≡ seen + 0 = omega arith in
    let goal = ap (λ x. x * n / rate_denominator) same in omega (arith, goal)
take_all-on_rate n seen (k ∷ rest) h u =
    let step = take_events-on_rate n seen k h (omega arith) in
    let later = take_all-on_rate n (seen + k) rest h (omega arith) in
    let sums : seen + k + sum rest ≡ seen + (k + sum rest) = omega arith in
    let goal = ap (λ x. x * n / rate_denominator) sums in
    rw step (omega (arith, later, goal, growth n seen k))

-- After cycles with N successes in all, a new sampler of a rate of n millionths, at most one, has
-- emitted ⌊N * n / 1000000⌋ events, as long as N fits 64 bits.
pub emits_at_rate :
    (n : ℕ) (batches : List ℕ)
    → n ≤ rate_denominator
    → sum batches ≤ u64_max
    → take_all (sampler (some n)) batches ≡ sum batches * n / rate_denominator
unfolding sampler
emits_at_rate n batches h u =
    let none_owed : 0 ≡ 0 * n / rate_denominator = omega arith in
    let start : sampler (some n) ≡ on_rate n 0 =
      λ i. record { numerator = some n; seen = 0; emitted = none_owed i } in
    let all = take_all-on_rate n 0 batches h (omega arith) in
    let total : 0 + sum batches ≡ sum batches = omega arith in
    ap (λ s. take_all s batches) start
    ∙ omega (arith, all, ap (λ x. x * n / rate_denominator) total)
