-- ===== src/Metrics/CycleTime.antt =====
-- app/metrics/cycle_time.py: the stages of a merged pull request's life, and their weekly snapshots.
-- Instants are microseconds; a stage is in ten-thousandths of an hour, as `round(_, 4)` leaves it.
pub mod Stages
pub mod Cohort
use adept_engine.Base.{
  ℕ, ◌+◌, ◌-◌, ◌*◌, ◌≡◌, refl, Bool, true, false, ◌&&◌, Option, none, some, List, [], ◌∷◌, ◌++◌,
  map, Text, codes, leb, ltb, if◌then◌else◌, length, is_some,
}
use adept_engine.Metrics.Rounding.{round_div}
use adept_engine.Metrics.Percentiles.{Percentiles, compute_percentiles}
use adept_engine.Metrics.Snapshot.{MetricSnapshotResult, upper, in_period, hour}
use adept_engine.Metrics.Dora.{p50_of}

-- The row of a pull request.
pub record PullRequest : Type 0 where
  pub id : Text
  pub opened_at : Option ℕ
  pub ready_for_review_at : Option ℕ
  pub first_review_at : Option ℕ
  pub first_commit_at : Option ℕ
  pub merged_at : Option ℕ
  pub deployed_at : Option ℕ

-- `first_review_at is None or ready_at <= first_review_at`
abbrev pub not_after : ℕ → Option ℕ → Bool
not_after ready none = true
not_after ready (some review) = leb ready review

-- The body of `pickup_start` on the three instants it reads.
abbrev pub start_of : Option ℕ → Option ℕ → Option ℕ → Option ℕ
start_of none ready review = none
start_of (some opened) none review = some opened
start_of (some opened) (some ready) review =
    if ltb opened ready && not_after ready review then some ready else some opened

unfoldable pub pickup_start : PullRequest → Option ℕ
pickup_start pr = start_of pr.opened_at pr.ready_for_review_at pr.first_review_at

pub data Stage : Type 0 where
  coding : Stage
  pickup : Stage
  review : Stage
  deploy : Stage

abbrev pub stages : List Stage
stages = Stage.coding ∷ Stage.pickup ∷ Stage.review ∷ Stage.deploy ∷ []

-- `STAGE_METRIC_TYPES`
abbrev pub metric_type_of : Stage → Text
metric_type_of Stage.coding = codes "PR_CODING_TIME_HOURS"
metric_type_of Stage.pickup = codes "PR_PICKUP_TIME_HOURS"
metric_type_of Stage.review = codes "PR_REVIEW_TIME_HOURS"
metric_type_of Stage.deploy = codes "PR_DEPLOY_TIME_HOURS"

-- The two boundaries of a stage.
abbrev pub begin_of : PullRequest → Stage → Option ℕ
begin_of pr Stage.coding = pr.first_commit_at
begin_of pr Stage.pickup = pickup_start pr
begin_of pr Stage.review = pr.first_review_at
begin_of pr Stage.deploy = pr.merged_at

abbrev pub end_of : PullRequest → Stage → Option ℕ
end_of pr Stage.coding = pickup_start pr
end_of pr Stage.pickup = pr.first_review_at
end_of pr Stage.review = pr.merged_at
end_of pr Stage.deploy = pr.deployed_at

-- The time between two boundaries, unless one is unknown or they are out of order.
abbrev pub between : Option ℕ → Option ℕ → Option ℕ
between none end = none
between (some begin) none = none
between (some begin) (some end) = if leb begin end then some (end - begin) else none

-- `round(seconds / 3600.0, 4)` of a duration.
abbrev pub hours : ℕ → ℕ
hours duration = round_div (10_000 * duration) hour

abbrev pub hours_of : Option ℕ → Option ℕ
hours_of none = none
hours_of (some duration) = some (hours duration)

-- `pull_request_stage_hours(pull_request).get(stage)`
unfoldable pub pull_request_stage_hours : PullRequest → Stage → Option ℕ
unfolding pickup_start round_div
pull_request_stage_hours pr stage = hours_of (between (begin_of pr stage) (end_of pr stage))

pub record StageObservation : Type 0 where
  pub key : Text
  pub at : ℕ
  pub value : ℕ
  pub reviewed : Bool

-- What one pull request adds to the observations of a stage.
abbrev pub observed : PullRequest → ℕ → Option ℕ → List StageObservation → List StageObservation
observed pr merged none rest = rest
observed pr merged (some hours) rest =
    record { key = pr.id; at = merged; value = hours; reviewed = is_some pr.first_review_at } ∷ rest

-- The body of the loop over pull requests, for one stage.
abbrev pub observe :
    ℕ → ℕ → Stage → PullRequest → Option ℕ → List StageObservation → List StageObservation
observe from to stage pr none rest = rest
observe from to stage pr (some merged) rest =
    if in_period from to merged
    then observed pr merged (pull_request_stage_hours pr stage) rest
    else rest

-- `observations[stage]` after the loop.
unfoldable pub observations : ℕ → ℕ → Stage → List PullRequest → List StageObservation
unfolding pull_request_stage_hours
observations from to stage [] = []
observations from to stage (pr ∷ prs) =
    observe from to stage pr pr.merged_at (observations from to stage prs)

pub record StageDimensions : Type 0 where
  pub percentiles : Option Percentiles
  pub observations : List StageObservation

abbrev pub stage_values : List StageObservation → List ℕ
stage_values os = map (λ (o : StageObservation). o.value) os

unfoldable pub stage_snapshot :
    ℕ → ℕ → Text → List PullRequest → Stage → MetricSnapshotResult StageDimensions
unfolding observations compute_percentiles
stage_snapshot from to granularity prs stage =
    let os = observations from to stage prs in
    record {
      metric_type = metric_type_of stage;
      granularity = upper granularity;
      period_start = from;
      period_end = to;
      value = p50_of (compute_percentiles 10_000 (stage_values os));
      unit = codes "hours";
      sample_size = length os;
      calculation_version = codes "cycle-time-v2";
      dimensions = record {
        percentiles = compute_percentiles 10_000 (stage_values os);
        observations = os;
      };
    }

unfoldable pub calculate_cycle_time_stages :
    ℕ → ℕ → Text → List PullRequest → List (MetricSnapshotResult StageDimensions)
unfolding stage_snapshot
calculate_cycle_time_stages from to granularity prs =
    map (stage_snapshot from to granularity prs) stages
