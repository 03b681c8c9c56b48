-- ===== src/Metrics/Dora.antt =====
-- The four DORA calculations of app/metrics/calculator.py. An observed duration is a number of
-- microseconds (the program's `seconds / 3600.0` is the same duration in hours); a value is in
-- hundredths, as `round(_, 2)` leaves it.
pub mod Counts
use adept_engine.Base.{
  ℕ, ◌+◌, ◌-◌, ◌*◌, ◌≡◌, refl, Bool, true, false, ◌&&◌, ◌||◌, Option, none, some, List, [], ◌∷◌,
  ◌++◌, Text, codes, leb, ltb, ◌==◌, if◌then◌else◌, length, same,
}
use adept_engine.Metrics.Rounding.{round_div}
use adept_engine.Metrics.Percentiles.{Percentiles, compute_percentiles}
use adept_engine.Metrics.Snapshot.{
  MetricSnapshotResult, Observation, calculation_version, upper, in_period, is_status, or_option,
  values, hour,
}

-- The row of a deployment, as far as the calculations read it.
pub record Deployment : Type 0 where
  pub id : Text
  pub finished_at : Option ℕ
  pub is_production : Bool
  pub status : Option Text
  pub has_incident : Bool

abbrev pub success : Text
success = codes "SUCCESS"

abbrev pub failure : Text
failure = codes "FAILURE"

abbrev pub frequency_unit : Text → Text
frequency_unit g =
    if same g (codes "DAY")
    then codes "deployments/day"
    else if same g (codes "WEEK")
    then codes "deployments/week"
    else if same g (codes "MONTH")
    then codes "deployments/month"
    else codes "deployments"

-- A successful production deployment of the period.
abbrev pub succeeded : ℕ → ℕ → Deployment → Bool
succeeded from to dep = elim dep.finished_at [
  | none ↦ false
  | some at ↦ dep.is_production && is_status dep.status success && in_period from to at
]

-- `for dep in deployments: ... successful_count += 1`
unfoldable pub successful_count : ℕ → ℕ → List Deployment → ℕ
successful_count from to [] = 0
successful_count from to (dep ∷ deps) =
    let rest = successful_count from to deps in if succeeded from to dep then 1 + rest else rest

abbrev pub finish_time : Deployment → ℕ
finish_time dep = elim dep.finished_at [ none ↦ 0 | some at ↦ at ]

unfoldable pub success_observations : ℕ → ℕ → List Deployment → List Observation
success_observations from to [] = []
success_observations from to (dep ∷ deps) =
    let rest = success_observations from to deps in
    if succeeded from to dep
    then record { key = dep.id; at = finish_time dep; value = 100 } ∷ rest
    else rest

unfoldable pub calculate_deployment_frequency :
    ℕ → ℕ → Text → List Deployment → MetricSnapshotResult (List Observation)
unfolding successful_count success_observations
calculate_deployment_frequency from to granularity deployments = record {
  metric_type = codes "DEPLOYMENT_FREQUENCY";
  granularity = upper granularity;
  period_start = from;
  period_end = to;
  value = 100 * successful_count from to deployments;
  unit = frequency_unit (upper granularity);
  sample_size = successful_count from to deployments;
  calculation_version = calculation_version;
  dimensions = success_observations from to deployments;
}

-- The percentiles of the dimensions stand beside the observations they are of.
pub record TimeDimensions : Type 0 where
  pub percentiles : Option Percentiles
  pub observations : List Observation

abbrev pub p50_of : Option Percentiles → ℕ
p50_of none = 0
p50_of (some p) = p.p50

-- The result of the two calculations that take a median of hours. With no observation the
-- percentiles are empty and the value 0.0, as the early return writes out.
unfoldable pub time_snapshot :
    Text → ℕ → ℕ → Text → List Observation → MetricSnapshotResult TimeDimensions
unfolding compute_percentiles
time_snapshot metric_type from to granularity observations = record {
  metric_type = metric_type;
  granularity = upper granularity;
  period_start = from;
  period_end = to;
  value = p50_of (compute_percentiles hour (values observations));
  unit = codes "hours";
  sample_size = length (values observations);
  calculation_version = calculation_version;
  dimensions = record {
    percentiles = compute_percentiles hour (values observations);
    observations = observations;
  };
}

-- The row of a pull request linked to a deployment.
pub record PrDeployment : Type 0 where
  pub deployment_id : Text
  pub pr_id : Text
  pub deployment_finished_at : Option ℕ
  pub is_production : Bool
  pub deployment_status : Option Text
  pub first_commit_at : Option ℕ

-- An observation of the time from `begin` to `end`, if `end` lies in the period and is not before
-- `begin`.
abbrev pub elapsed : ℕ → ℕ → Text → Option ℕ → Option ℕ → Option Observation
elapsed from to key none end = none
elapsed from to key (some begin) none = none
elapsed from to key (some begin) (some end) =
    if in_period from to end && leb begin end
    then some (record { key = key; at = end; value = end - begin })
    else none

abbrev pub cons_some : Option Observation → List Observation → List Observation
cons_some none rest = rest
cons_some (some o) rest = o ∷ rest

abbrev pub lead_time : ℕ → ℕ → PrDeployment → Option Observation
lead_time from to item =
    if item.is_production && is_status item.deployment_status success
    then elapsed from to (item.deployment_id ++ codes ":" ++ item.pr_id) item.first_commit_at
        item.deployment_finished_at
    else none

unfoldable pub lead_times : ℕ → ℕ → List PrDeployment → List Observation
lead_times from to [] = []
lead_times from to (item ∷ items) = cons_some (lead_time from to item) (lead_times from to items)

unfoldable pub calculate_change_lead_time :
    ℕ → ℕ → Text → List PrDeployment → MetricSnapshotResult TimeDimensions
unfolding time_snapshot lead_times
calculate_change_lead_time from to granularity pr_deployments =
    time_snapshot (codes "CHANGE_LEAD_TIME_HOURS") from to granularity
      (lead_times from to pr_deployments)

-- The row of an incident.
pub record Incident : Type 0 where
  pub id : Text
  pub recovery_finished_at : Option ℕ
  pub resolved_at : Option ℕ
  pub detected_at : Option ℕ
  pub created_at : Option ℕ

abbrev pub recovery : ℕ → ℕ → Incident → Option Observation
recovery from to inc =
    elapsed from to inc.id (or_option inc.detected_at inc.created_at)
      (or_option inc.recovery_finished_at inc.resolved_at)

unfoldable pub recoveries : ℕ → ℕ → List Incident → List Observation
recoveries from to [] = []
recoveries from to (inc ∷ incs) = cons_some (recovery from to inc) (recoveries from to incs)

unfoldable pub calculate_recovery_time :
    ℕ → ℕ → Text → List Incident → MetricSnapshotResult TimeDimensions
unfolding time_snapshot recoveries
calculate_recovery_time from to granularity incidents =
    time_snapshot (codes "FAILED_DEPLOYMENT_RECOVERY_TIME_HOURS") from to granularity
      (recoveries from to incidents)

pub record FailureDimensions : Type 0 where
  pub total_deployments : ℕ
  pub failed_deployments : ℕ
  pub observations : List Observation

-- A production deployment of the period.
abbrev pub counted : ℕ → ℕ → Deployment → Bool
counted from to dep = elim dep.finished_at [
  | none ↦ false
  | some at ↦ dep.is_production && in_period from to at
]

abbrev pub failed : Deployment → Bool
failed dep = is_status dep.status failure || dep.has_incident

-- `total_prod += 1` and `failed_prod += 1` of the loop.
unfoldable pub total_prod : ℕ → ℕ → List Deployment → ℕ
total_prod from to [] = 0
total_prod from to (dep ∷ deps) =
    let rest = total_prod from to deps in if counted from to dep then 1 + rest else rest

unfoldable pub failed_prod : ℕ → ℕ → List Deployment → ℕ
failed_prod from to [] = 0
failed_prod from to (dep ∷ deps) =
    let rest = failed_prod from to deps in
    if counted from to dep && failed dep then 1 + rest else rest

unfoldable pub failure_observations : ℕ → ℕ → List Deployment → List Observation
failure_observations from to [] = []
failure_observations from to (dep ∷ deps) =
    let rest = failure_observations from to deps in
    if counted from to dep
    then record { key = dep.id; at = finish_time dep; value = if failed dep then 100 else 0 } ∷ rest
    else rest

-- `round((failed_prod / total_prod) * 100.0, 2)`, and 0.0 of no deployments.
abbrev pub failure_rate : ℕ → ℕ → ℕ
failure_rate failed total = if total == 0 then 0 else round_div (failed * 10_000) total

unfoldable pub calculate_change_failure_rate :
    ℕ → ℕ → Text → List Deployment → MetricSnapshotResult FailureDimensions
unfolding total_prod failed_prod failure_observations round_div
calculate_change_failure_rate from to granularity deployments = record {
  metric_type = codes "CHANGE_FAILURE_RATE_PERCENT";
  granularity = upper granularity;
  period_start = from;
  period_end = to;
  value = failure_rate (failed_prod from to deployments) (total_prod from to deployments);
  unit = codes "percent";
  sample_size = total_prod from to deployments;
  calculation_version = calculation_version;
  dimensions = record {
    total_deployments = total_prod from to deployments;
    failed_deployments = failed_prod from to deployments;
    observations = failure_observations from to deployments;
  };
}
