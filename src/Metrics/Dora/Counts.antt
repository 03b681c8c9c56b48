-- ===== src/Metrics/Dora/Counts.antt =====
-- The counting calculations of app/metrics/calculator.py: deployment frequency and change failure
-- rate.
use native.Mathlib.Nat.{mul-div_right, mul-mod_right}
use adept_engine.Base.{
  ℕ, zero, suc, ◌+◌, ◌*◌, ◌≡◌, ◌≤◌, ◌<◌, refl, List, [], ◌∷◌, Text, arith, if◌then◌else◌, length,
  Option-cases, inl, inr,
}
use adept_engine.Metrics.Rounding.{round_div, round_div_mono}
use adept_engine.Metrics.Percentiles.{sum}
use adept_engine.Metrics.Snapshot.{in_period, values}
use adept_engine.Metrics.Dora.{
  Deployment, succeeded, successful_count, success_observations, calculate_deployment_frequency,
  total_prod, failed_prod, failure_observations, failure_rate, calculate_change_failure_rate,
}

split_period :
    (a b c at : ℕ)
    → a ≤ b
    → b ≤ c
    → (if in_period a c at then 1 else 0)
      ≡ (if in_period a b at then 1 else 0) + (if in_period b c at then 1 else 0)
split_period a b c at h k = ground arith

step_count :
    (a b c : ℕ) (dep : Deployment) (x y z : ℕ)
    → a ≤ b
    → b ≤ c
    → x ≡ y + z
    → (if succeeded a c dep then 1 + x else x)
      ≡ (if succeeded a b dep then 1 + y else y) + (if succeeded b c dep then 1 + z else z)
step_count a b c dep x y z h k e = elim (Option-cases dep.finished_at) [
  | inl n ↦ rw n e
  | inr s ↦ rw s.1 (ground (arith, split_period a b c s.0 h k))
]

successful_count-split :
    (a b c : ℕ) (deps : List Deployment)
    → a ≤ b
    → b ≤ c
    → successful_count a c deps ≡ successful_count a b deps + successful_count b c deps
unfolding successful_count
successful_count-split a b c [] h k = refl
successful_count-split a b c (dep ∷ deps) h k =
    step_count a b c dep (successful_count a c deps) (successful_count a b deps)
      (successful_count b c deps) h k (successful_count-split a b c deps h k)

-- Adjacent periods share no deployment and leave none out: of `a <= b <= c` the frequencies of
-- `[a, b)` and `[b, c)` add up to that of `[a, c)`, whatever the granularities are called.
pub calculate_deployment_frequency_adds :
    (a b c : ℕ) (g : Text) (deps : List Deployment)
    → a ≤ b
    → b ≤ c
    → (calculate_deployment_frequency a c g deps).value
      ≡ (calculate_deployment_frequency a b g deps).value
        + (calculate_deployment_frequency b c g deps).value
unfolding calculate_deployment_frequency
calculate_deployment_frequency_adds a b c g deps h k =
    omega (arith, successful_count-split a b c deps h k)

success_observations-sum :
    (a b : ℕ) (deps : List Deployment)
    → (sum (values (success_observations a b deps)) ≡ 100 * successful_count a b deps)
      × (length (success_observations a b deps) ≡ successful_count a b deps)
unfolding success_observations successful_count
success_observations-sum a b [] = (refl, refl)
success_observations-sum a b (dep ∷ deps) = ground (arith, success_observations-sum a b deps)

failure_observations-sum :
    (a b : ℕ) (deps : List Deployment)
    → (sum (values (failure_observations a b deps)) ≡ 100 * failed_prod a b deps)
      × (length (failure_observations a b deps) ≡ total_prod a b deps)
      × (failed_prod a b deps ≤ total_prod a b deps)
unfolding failure_observations failed_prod total_prod
failure_observations-sum a b [] = (refl, refl, omega arith)
failure_observations-sum a b (dep ∷ deps) = ground (arith, failure_observations-sum a b deps)

-- The observations of a deployment frequency are its sample, and their values add up to its value.
pub calculate_deployment_frequency_observed :
    (a b : ℕ) (g : Text) (deps : List Deployment)
    → (length (calculate_deployment_frequency a b g deps).dimensions
        ≡ (calculate_deployment_frequency a b g deps).sample_size)
      × (sum (values (calculate_deployment_frequency a b g deps).dimensions)
          ≡ (calculate_deployment_frequency a b g deps).value)
unfolding calculate_deployment_frequency
calculate_deployment_frequency_observed a b g deps =
    ((success_observations-sum a b deps).1, (success_observations-sum a b deps).0)

round_div_whole : (n : ℕ) → 0 < n → round_div (n * 10_000) n ≡ 10_000
unfolding round_div
round_div_whole n h = rw (mul-div_right 10_000 h) (rw (mul-mod_right n 10_000) (ground arith))

failure_rate_of : (f n : ℕ) → failure_rate f (suc n) ≡ round_div (f * 10_000) (suc n)
failure_rate_of f n = ground arith

failure_rate_bound : (f n : ℕ) → f ≤ n → failure_rate f n ≤ 10_000
failure_rate_bound f zero h = omega arith
failure_rate_bound f (suc n) h = omega (
  arith,
  failure_rate_of f n,
  round_div_whole (suc n) (omega arith),
  round_div_mono (f * 10_000) (suc n * 10_000) (suc n) (omega arith) (omega arith),
)

-- A change failure rate is at most 100 percent and its failed deployments are among the counted
-- ones; there is one observation for each of these, and their values add up to the failed ones.
pub calculate_change_failure_rate_bounds :
    (a b : ℕ) (g : Text) (deps : List Deployment)
    → ((calculate_change_failure_rate a b g deps).value ≤ 10_000)
      × ((calculate_change_failure_rate a b g deps).dimensions.failed_deployments
          ≤ (calculate_change_failure_rate a b g deps).dimensions.total_deployments)
      × (length (calculate_change_failure_rate a b g deps).dimensions.observations
          ≡ (calculate_change_failure_rate a b g deps).sample_size)
      × (sum (values (calculate_change_failure_rate a b g deps).dimensions.observations)
          ≡ 100 * (calculate_change_failure_rate a b g deps).dimensions.failed_deployments)
unfolding calculate_change_failure_rate
calculate_change_failure_rate_bounds a b g deps =
    let o = failure_observations-sum a b deps in
    (failure_rate_bound (failed_prod a b deps) (total_prod a b deps) (o.2), o.2, o.1, o.0)
