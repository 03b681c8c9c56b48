-- ===== src/Metrics/Service/Recalculate.antt =====
-- `recalculate_repository_metrics` and `_cycle_time_snapshots` of app/metrics/service.py. An instant is a
-- number of microseconds since 0001-01-01, of which the present is more than 90 days.
pub mod Specified
pub mod Stored
pub mod Returns
pub mod Refines
use adept_engine.Base.{
  ℕ, ◌+◌, ◌-◌, ◌*◌, ◌≡◌, refl, Bool, true, false, ◌&&◌, Option, none, some, List, [], ◌∷◌, ◌++◌,
  map, Text, codes, ltb, min, max, if◌then◌else◌,
}
use adept_engine.Jobs.Errors.{Result, ok, err, other, ◌>>=◌}
use adept_engine.Store.{DeploymentRow, LinkRow, PullRequestRow}
use adept_engine.Metrics.Buckets.{Bucket, day_length, get_period_buckets, get_recalculation_buckets}
use adept_engine.Metrics.Dora.{
  Deployment, PrDeployment, Incident, calculate_deployment_frequency, calculate_change_lead_time,
  calculate_recovery_time, calculate_change_failure_rate,
}
use adept_engine.Metrics.CycleTime.{PullRequest, calculate_cycle_time_stages}
use adept_engine.Metrics.Service.Incidents.{reconcile_github_incidents}
use adept_engine.Metrics.Service.Links.{link_deployments_to_pull_requests}
use adept_engine.Metrics.Service.Snapshots.{
  Dimensions, counts, times, failures, stages, Snapshot, with_dimensions, upsert_snapshots,
}
use adept_engine.Metrics.Service.Queries.{
  deployments_of, pr_deployments_of, incidents_of, merged_pull_requests, earliest_merge,
}
use adept_engine.Metrics.Service.Database.{Database, Environment}
use adept_engine.Alerts.Enqueue.{enqueue_evaluate_alerts_job}

abbrev pub or_default : Option ℕ → ℕ → ℕ
or_default none b = b
or_default (some a) b = a

-- The buckets of one granularity.
abbrev pub buckets_of :
    Environment → Text → Option ℕ → Option ℕ → ℕ → ℕ → Text → Result (List Bucket)
buckets_of env timezone none affected_to from to granularity =
    get_period_buckets env.zones from to granularity timezone
buckets_of env timezone (some at) affected_to from to granularity =
    get_recalculation_buckets env.zones at (or_default affected_to at) granularity timezone

-- What is read from the tables for the four metrics.
pub record Inputs : Type 0 where
  pub deployments : List Deployment
  pub pr_deployments : List PrDeployment
  pub incidents : List Incident

-- The body of the loop over buckets.
abbrev pub bucket_snapshots : Inputs → Text → Bucket → List Snapshot
bucket_snapshots i granularity (start, end) =
    with_dimensions counts (calculate_deployment_frequency start end granularity i.deployments)
    ∷ with_dimensions times (calculate_change_lead_time start end granularity i.pr_deployments)
    ∷ with_dimensions times (calculate_recovery_time start end granularity i.incidents)
    ∷ with_dimensions failures (calculate_change_failure_rate start end granularity i.deployments)
    ∷ []

unfoldable pub all_buckets : (Bucket → List Snapshot) → List Bucket → List Snapshot
all_buckets f [] = []
all_buckets f (b ∷ bs) = f b ++ all_buckets f bs

abbrev pub append : List Snapshot → Result (List Snapshot) → Result (List Snapshot)
append xs r = r >>= (λ ys. ok (xs ++ ys))

-- `for granularity in (...)`
unfoldable pub all_granularities :
    (Text → Result (List Bucket)) → Inputs → List Text → Result (List Snapshot)
unfolding all_buckets
all_granularities buckets i [] = ok []
all_granularities buckets i (g ∷ gs) =
    let rest = all_granularities buckets i gs in
    buckets g >>= (λ bs. append (all_buckets (bucket_snapshots i g) bs) rest)

abbrev pub granularities : List Text
granularities = codes "DAY" ∷ codes "WEEK" ∷ codes "MONTH" ∷ []

-- `cycle_affected_from`: no later than the first merge that the affected deployments deployed.
abbrev pub no_later : ℕ → Option ℕ → ℕ
no_later at none = at
no_later at (some merge) = if ltb merge at then merge else at

abbrev pub cycle_affected_from : ℕ → Database → Option ℕ → Option ℕ → Option ℕ
cycle_affected_from repository db none affected_to = none
cycle_affected_from repository db (some at) affected_to = some (
    no_later at (
      earliest_merge repository at (or_default affected_to at) db.deployments db.links
        db.pull_requests))

abbrev pub cycle_buckets :
    Environment → Text → Option ℕ → Option ℕ → Option ℕ → ℕ → ℕ → Result (List Bucket)
cycle_buckets env timezone none affected_from affected_to from to =
    get_period_buckets env.zones from to (codes "DAY") timezone
cycle_buckets env timezone (some at) affected_from affected_to from to =
    get_recalculation_buckets env.zones at (or_default affected_to (or_default affected_from at))
      (codes "DAY") timezone

-- `min(start for ...)` and `max(end for ...)` of buckets that are not empty
abbrev pub window_start : Bucket → List Bucket → ℕ
window_start (start, end) [] = start
window_start (start, end) (b ∷ bs) = min start (window_start b bs)

abbrev pub window_end : Bucket → List Bucket → ℕ
window_end (start, end) [] = end
window_end (start, end) (b ∷ bs) = max end (window_end b bs)

abbrev pub cycle_bucket : List PullRequest → Bucket → List Snapshot
cycle_bucket prs (start, end) =
    map (with_dimensions stages) (calculate_cycle_time_stages start end (codes "DAY") prs)

abbrev pub cycle_of : ℕ → Database → List Bucket → List Snapshot
cycle_of repository db [] = []
cycle_of repository db (b ∷ bs) =
    all_buckets
      (cycle_bucket (
        merged_pull_requests repository (window_start b bs) (window_end b bs) db.deployments
          db.links db.reviews db.pull_requests))
      (b ∷ bs)

module _ (env : Environment) (workspace repository : ℕ) where
  unfoldable pub cycle_time_snapshots :
      Database → Text → ℕ → ℕ → Option ℕ → Option ℕ → Result (List Snapshot)
  unfolding all_buckets
  cycle_time_snapshots db timezone from to affected_from affected_to =
      cycle_buckets env timezone (cycle_affected_from repository db affected_from affected_to)
        affected_from affected_to from to
      >>= (λ bs. ok (cycle_of repository db bs))

  -- The first step: links and incidents, each in its own transaction.
  unfoldable pub rebuild : Database → Database
  rebuild db =
      let (links, _) =
        link_deployments_to_pull_requests env.now repository (db.default_branch repository)
          db.deployments db.pull_requests db.commits db.links in
      record db {
        links = links;
        incidents =
            reconcile_github_incidents env.now env.incident_id repository db.deployments
              db.incidents;
      }

  unfoldable pub inputs_of : Database → Inputs
  inputs_of db = record {
    deployments = deployments_of repository db.deployments db.incidents;
    pr_deployments = pr_deployments_of repository db.deployments db.links db.pull_requests;
    incidents = incidents_of repository db.deployments db.incidents;
  }

  -- The second and the third step, in a timezone.
  unfoldable pub calculated : Database → Text → ℕ → ℕ → Option ℕ → Option ℕ → Result (List Snapshot)
  unfolding all_granularities cycle_time_snapshots inputs_of
  calculated db timezone from to affected_from affected_to =
      all_granularities (buckets_of env timezone affected_from affected_to from to) (inputs_of db)
        granularities
      >>= (λ dora. append dora (cycle_time_snapshots db timezone from to affected_from affected_to))

  abbrev pub enqueue_alerts : ℕ → Database → Database
  enqueue_alerts count db =
      let (_, jobs) =
        enqueue_evaluate_alerts_job env.now env.job_id env.max_attempts workspace repository
          (codes "METRIC_SNAPSHOT") db.jobs in
      if ltb 0 count then record db { jobs = jobs } else db

  -- The fourth step.
  abbrev pub store : Database → Result (List Snapshot) → Result ℕ × Database
  store db (err e) = (err e, db)
  store db (ok snapshots) =
      let (count, rows) =
        upsert_snapshots env.now env.snapshot_id workspace repository snapshots db.snapshots in
      (ok count, enqueue_alerts count (record db { snapshots = rows }))

  abbrev pub in_timezone :
      Database → Option Text → ℕ → ℕ → Option ℕ → Option ℕ → Result ℕ × Database
  in_timezone db none from to affected_from affected_to =
      (err (other (codes "No row was found when one was required")), db)
  in_timezone db (some timezone) from to affected_from affected_to =
      store db (calculated db timezone from to affected_from affected_to)

  -- The number of snapshots, or the exception, and what has been committed.
  unfoldable pub recalculate_repository_metrics :
      Option ℕ → Option ℕ → Option ℕ → Option ℕ → Database → Result ℕ × Database
  unfolding rebuild calculated
  recalculate_repository_metrics from_date to_date affected_from affected_to db =
      let rebuilt = rebuild db in
      in_timezone rebuilt (rebuilt.timezone workspace)
        (or_default from_date (env.now - 90 * day_length))
        (or_default to_date (env.now + day_length)) affected_from affected_to
