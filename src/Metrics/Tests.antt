-- ===== src/Metrics/Tests.antt =====
-- The theorems on app/metrics at a week of deployments, incidents and pull requests.
use adept_engine.Base.{
  ℕ, ◌+◌, ◌-◌, ◌*◌, ◌≡◌, ◌≤◌, refl, Bool, true, false, Option, none, some, List, [], ◌∷◌, Text,
  codes, arith, length, same,
}
use adept_engine.Metrics.Percentiles.{at, sum}
use adept_engine.Metrics.Snapshot.{MetricSnapshotResult, values, hour}
use adept_engine.Metrics.Dora.{Deployment, PrDeployment, Incident, calculate_change_failure_rate}
use adept_engine.Metrics.Dora.Counts.{calculate_change_failure_rate_bounds}
use adept_engine.Metrics.CycleTime.{
  PullRequest, Stage, StageDimensions, calculate_cycle_time_stages,
}
use adept_engine.Metrics.CycleTime.Stages.{IsMeasured, pull_request_stage_hours_contiguous}
use adept_engine.Metrics.CycleTime.Cohort.{IsCohort, calculate_cycle_time_stages-IsCohort}

abbrev day : Text
day = codes "day"

abbrev deployment : ℕ → Option Text → Bool → Deployment
deployment at status incident = record {
  id = codes "d";
  finished_at = some at;
  is_production = true;
  status = status;
  has_incident = incident;
}

abbrev deployments : List Deployment
deployments =
    deployment 10 (some (codes "SUCCESS")) false
    ∷ deployment 20 (some (codes "SUCCESS")) true
    ∷ deployment 30 (some (codes "FAILURE")) false
    ∷ []

calculate_change_failure_rate_bounds_example :
    ((calculate_change_failure_rate 0 100 day deployments).value ≤ 10_000)
    × ((calculate_change_failure_rate 0 100 day deployments).dimensions.failed_deployments
        ≤ (calculate_change_failure_rate 0 100 day deployments).dimensions.total_deployments)
    × (length (calculate_change_failure_rate 0 100 day deployments).dimensions.observations
        ≡ (calculate_change_failure_rate 0 100 day deployments).sample_size)
    × (sum (values (calculate_change_failure_rate 0 100 day deployments).dimensions.observations)
        ≡ 100 * (calculate_change_failure_rate 0 100 day deployments).dimensions.failed_deployments)
calculate_change_failure_rate_bounds_example =
    calculate_change_failure_rate_bounds 0 100 day deployments

two_of_three : (calculate_change_failure_rate 0 100 day deployments).value ≡ 6_667
unfolding calculate_change_failure_rate same
two_of_three = refl

abbrev change : PrDeployment
change = record {
  deployment_id = codes "d";
  pr_id = codes "p";
  deployment_finished_at = some (3 * hour);
  is_production = true;
  deployment_status = some (codes "SUCCESS");
  first_commit_at = some hour;
}

abbrev outage : Incident
outage = record {
  id = codes "i";
  recovery_finished_at = none;
  resolved_at = some (3 * hour);
  detected_at = some hour;
  created_at = some 0;
}

-- Opened as a draft, ready for review an hour later.
abbrev pr : PullRequest
pr = record {
  id = codes "p";
  opened_at = some (2 * hour);
  ready_for_review_at = some (3 * hour);
  first_review_at = some (5 * hour);
  first_commit_at = some hour;
  merged_at = some (6 * hour);
  deployed_at = some (9 * hour);
}

pull_request_stage_hours_contiguous_example :
    (coding pickup review deploy : ℕ) × IsMeasured pr Stage.coding coding
    × IsMeasured pr Stage.pickup pickup
    × IsMeasured pr Stage.review review
    × IsMeasured pr Stage.deploy deploy
    × (coding + pickup + review + deploy ≡ 9 * hour - hour)
pull_request_stage_hours_contiguous_example = pull_request_stage_hours_contiguous pr (record {
  commit = hour;
  opened = 2 * hour;
  review = 5 * hour;
  merge = 6 * hour;
  deployment = 9 * hour;
  commit_known = refl;
  opened_known = refl;
  review_known = refl;
  merge_known = refl;
  deployment_known = refl;
  commit_first = omega arith;
  opened_before = omega arith;
  review_before = omega arith;
  deployed_last = omega arith;
})

calculate_cycle_time_stages-IsCohort_example :
    (coding pickup review deploy : MetricSnapshotResult StageDimensions)
    × (calculate_cycle_time_stages 0 (7 * hour) day (pr ∷ [])
        ≡ coding ∷ pickup ∷ review ∷ deploy ∷ [])
    × IsCohort 0 (7 * hour) Stage.coding (pr ∷ []) coding
    × IsCohort 0 (7 * hour) Stage.pickup (pr ∷ []) pickup
    × IsCohort 0 (7 * hour) Stage.review (pr ∷ []) review
    × IsCohort 0 (7 * hour) Stage.deploy (pr ∷ []) deploy
calculate_cycle_time_stages-IsCohort_example =
    calculate_cycle_time_stages-IsCohort 0 (7 * hour) day (pr ∷ [])
