-- ===== src/Metrics/Service/Recalculate/Specified.antt =====
-- The snapshots that `recalculate_repository_metrics` of app/metrics/service.py calculates are a function
-- of their keys.
use adept_engine.Base.{
  ℕ, ◌≡◌, refl, Option, List, [], ◌∷◌, Text, codes, same, if◌then◌else◌, All, All-append,
}
use adept_engine.Jobs.Errors.{Result, ok, err, ◌>>=◌}
use adept_engine.Metrics.Snapshot.{upper}
use adept_engine.Metrics.Buckets.{Bucket}
use adept_engine.Metrics.Dora.{
  calculate_deployment_frequency, calculate_change_lead_time, calculate_recovery_time,
  calculate_change_failure_rate, time_snapshot,
}
use adept_engine.Metrics.CycleTime.{PullRequest, Stage, stage_snapshot, calculate_cycle_time_stages}
use adept_engine.Metrics.Service.Snapshots.{
  counts, times, failures, stages, Snapshot, with_dimensions,
}
use adept_engine.Metrics.Service.Recalculate.{
  Inputs, bucket_snapshots, all_buckets, append, all_granularities, granularities, cycle_bucket,
  cycle_of, cycle_time_snapshots, calculated, window_start, window_end, cycle_buckets,
  cycle_affected_from, buckets_of, inputs_of,
}
use adept_engine.Metrics.Service.Queries.{merged_pull_requests}
use adept_engine.Metrics.Service.Database.{Database, Environment}

-- All of a successful result.
abbrev pub AllOk : (Snapshot → Type 0) → Result (List Snapshot) → Type 0
AllOk P (ok ss) = All P ss
AllOk P (err e) = Unit

module _ (i : Inputs) (prs : List PullRequest) where
  -- The snapshot of a metric for a period.
  unfoldable pub specified : Text → Text → ℕ → ℕ → Snapshot
  specified type granularity start end =
      if same type (codes "DEPLOYMENT_FREQUENCY")
      then with_dimensions counts
          (calculate_deployment_frequency start end granularity i.deployments)
      else if same type (codes "CHANGE_LEAD_TIME_HOURS")
      then with_dimensions times (calculate_change_lead_time start end granularity i.pr_deployments)
      else if same type (codes "FAILED_DEPLOYMENT_RECOVERY_TIME_HOURS")
      then with_dimensions times (calculate_recovery_time start end granularity i.incidents)
      else if same type (codes "CHANGE_FAILURE_RATE_PERCENT")
      then with_dimensions failures
          (calculate_change_failure_rate start end granularity i.deployments)
      else if same type (codes "PR_CODING_TIME_HOURS")
      then with_dimensions stages (stage_snapshot start end granularity prs Stage.coding)
      else if same type (codes "PR_PICKUP_TIME_HOURS")
      then with_dimensions stages (stage_snapshot start end granularity prs Stage.pickup)
      else if same type (codes "PR_REVIEW_TIME_HOURS")
      then with_dimensions stages (stage_snapshot start end granularity prs Stage.review)
      else with_dimensions stages (stage_snapshot start end granularity prs Stage.deploy)

  abbrev pub IsSpecified : Snapshot → Type 0
  IsSpecified s = s ≡ specified s.metric_type s.granularity s.period_start s.period_end

  bucket-IsSpecified :
      (g : Text) (b : Bucket) → upper g ≡ g → All IsSpecified (bucket_snapshots i g b)
  unfolding same specified calculate_deployment_frequency calculate_change_lead_time
      calculate_recovery_time calculate_change_failure_rate time_snapshot
  bucket-IsSpecified g (start, end) h =
      (rw (h, h) refl, (rw (h, h) refl, (rw (h, h) refl, (rw (h, h) refl, tt))))

  cycle-IsSpecified : (b : Bucket) → All IsSpecified (cycle_bucket prs b)
  unfolding same specified stage_snapshot calculate_cycle_time_stages
  cycle-IsSpecified (start, end) = (refl, (refl, (refl, (refl, tt))))

  all_buckets-IsSpecified :
      (f : Bucket → List Snapshot) (bs : List Bucket)
      → ((b : Bucket) → All IsSpecified (f b))
      → All IsSpecified (all_buckets f bs)
  unfolding all_buckets
  all_buckets-IsSpecified f [] h = tt
  all_buckets-IsSpecified f (b ∷ bs) h =
      All-append IsSpecified (f b) (all_buckets f bs) (h b) (all_buckets-IsSpecified f bs h)

  append-AllOk :
      (xs : List Snapshot) (r : Result (List Snapshot))
      → All IsSpecified xs
      → AllOk IsSpecified r
      → AllOk IsSpecified (append xs r)
  append-AllOk xs (err e) h k = tt
  append-AllOk xs (ok ys) h k = All-append IsSpecified xs ys h k

  granularity-AllOk :
      (g : Text) (r : Result (List Bucket)) (rest : Result (List Snapshot))
      → upper g ≡ g
      → AllOk IsSpecified rest
      → AllOk IsSpecified (r >>= (λ bs. append (all_buckets (bucket_snapshots i g) bs) rest))
  granularity-AllOk g (err e) rest u h = tt
  granularity-AllOk g (ok bs) rest u h =
      append-AllOk (all_buckets (bucket_snapshots i g) bs) rest
        (all_buckets-IsSpecified (bucket_snapshots i g) bs (λ b. bucket-IsSpecified g b u)) h

  pub all_granularities-AllOk :
      (buckets : Text → Result (List Bucket)) (gs : List Text)
      → All (λ g. upper g ≡ g) gs
      → AllOk IsSpecified (all_granularities buckets i gs)
  unfolding all_granularities
  all_granularities-AllOk buckets [] u = tt
  all_granularities-AllOk buckets (g ∷ gs) u =
      granularity-AllOk g (buckets g) (all_granularities buckets i gs) u.0
        (all_granularities-AllOk buckets gs u.1)

-- The pull requests of the cycle-time window.
abbrev pub window_of : ℕ → Database → Result (List Bucket) → List PullRequest
window_of repository db (err e) = []
window_of repository db (ok []) = []
window_of repository db (ok (b ∷ bs)) =
    merged_pull_requests repository (window_start b bs) (window_end b bs) db.deployments db.links
      db.reviews db.pull_requests

cycle_of-AllOk :
    (i : Inputs) (repository : ℕ) (db : Database) (r : Result (List Bucket))
    → AllOk
        (IsSpecified i (window_of repository db r))
        (r >>= (λ bs. ok (cycle_of repository db bs)))
cycle_of-AllOk i repository db (err e) = tt
cycle_of-AllOk i repository db (ok []) = tt
cycle_of-AllOk i repository db (ok (b ∷ bs)) =
    let prs = window_of repository db (ok (b ∷ bs)) in
    all_buckets-IsSpecified i prs (cycle_bucket prs) (b ∷ bs) (cycle-IsSpecified i prs)

joined-AllOk :
    (P : Snapshot → Type 0) (r q : Result (List Snapshot))
    → AllOk P r
    → AllOk P q
    → AllOk P (r >>= (λ xs. append xs q))
joined-AllOk P (err e) q h k = tt
joined-AllOk P (ok xs) (err e) h k = tt
joined-AllOk P (ok xs) (ok ys) h k = All-append P xs ys h k

module _ (env : Environment) (workspace repository : ℕ) (db : Database) (timezone : Text) where
  -- The pull requests that a run takes the stages of.
  abbrev pub window : ℕ → ℕ → Option ℕ → Option ℕ → List PullRequest
  window from to affected_from affected_to = window_of repository db (
      cycle_buckets env timezone (cycle_affected_from repository db affected_from affected_to)
        affected_from affected_to from to)

  pub calculated-AllOk :
      (from to : ℕ) (affected_from affected_to : Option ℕ)
      → AllOk
          (IsSpecified
            (inputs_of env workspace repository db)
            (window from to affected_from affected_to))
          (calculated env workspace repository db timezone from to affected_from affected_to)
  unfolding calculated cycle_time_snapshots
  calculated-AllOk from to affected_from affected_to =
      let i = inputs_of env workspace repository db in
      let prs = window from to affected_from affected_to in
      joined-AllOk (IsSpecified i prs)
        (all_granularities (buckets_of env timezone affected_from affected_to from to) i
          granularities)
        _
        (all_granularities-AllOk i prs (buckets_of env timezone affected_from affected_to from to)
          granularities (refl, (refl, (refl, tt))))
        (cycle_of-AllOk i repository db _)
