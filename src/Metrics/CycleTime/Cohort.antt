-- ===== src/Metrics/CycleTime/Cohort.antt =====
-- Which pull requests the stages of app/metrics/cycle_time.py are of.
use adept_engine.Base.{
  leb, count_if, if◌then◌else◌, All-imp, ℕ, ◌+◌, ◌≡◌, ◌≤◌, ◌<◌, refl, Bool, true, false, ◌&&◌,
  Option, none, some, List, [], ◌∷◌, Text, arith, ltb, length, All, Option-cases, inl, inr,
  Bool-cases, is_some, not,
}
use adept_engine.Metrics.Snapshot.{MetricSnapshotResult, in_period}
use adept_engine.Metrics.CycleTime.{
  PullRequest, Stage, pull_request_stage_hours, StageObservation, observed, observe, observations,
  metric_type_of, StageDimensions, stage_snapshot, calculate_cycle_time_stages,
}
use adept_engine.Base.Among.{Among}
use adept_engine.Metrics.CycleTime.Stages.{needs_review, unreviewed}

-- Merged in `[from, to)`.
abbrev pub is_merged_in : ℕ → ℕ → Option ℕ → Bool
is_merged_in from to none = false
is_merged_in from to (some merged) = leb from merged && ltb merged to

-- The pull request that an observation is of: it is among those given, was merged in `[from, to)` at the
-- time of the observation, and has the stage, of the value that is observed; the observation says whether
-- it was reviewed, and of the two stages that a review bounds it was.
abbrev pub IsSource : ℕ → ℕ → Stage → List PullRequest → StageObservation → Type 0
IsSource from to stage prs o =
    (pr : PullRequest) × Among pr prs
    × (pr.merged_at ≡ some o.at)
    × (from ≤ o.at)
    × (o.at < to)
    × (o.key ≡ pr.id)
    × (pull_request_stage_hours pr stage ≡ some o.value)
    × (o.reviewed ≡ is_some pr.first_review_at)
    × ((needs_review stage && not (is_some pr.first_review_at)) ≡ false)

module _ (from to : ℕ) (stage : Stage) where
  -- A pull request that was merged in the period and has the stage.
  abbrev pub is_counted : PullRequest → Bool
  is_counted pr = is_merged_in from to pr.merged_at && is_some (pull_request_stage_hours pr stage)

  reviewed_lem :
      (pr : PullRequest) (h : ℕ)
      → pull_request_stage_hours pr stage ≡ some h
      → (needs_review stage && not (is_some pr.first_review_at)) ≡ false
  reviewed_lem pr h e = elim (Bool-cases (needs_review stage)) [
    | inr n ↦ rw n refl
    | inl n ↦ elim (Option-cases pr.first_review_at) [
      | inl k ↦ absurd (ground (arith, unreviewed pr stage n k))
      | inr k ↦ rw (n, k.1) refl
    ]
  ]

  IsSource-more :
      (pr : PullRequest) (prs : List PullRequest) (o : StageObservation)
      → IsSource from to stage prs o
      → IsSource from to stage (pr ∷ prs) o
  IsSource-more pr prs o (q, m, a, b, c, d, e, f, g) = (q, inr m, a, b, c, d, e, f, g)

  observed-IsSource :
      (pr : PullRequest) (prs : List PullRequest) (at : ℕ) (h : Option ℕ)
      (rest : List StageObservation)
      → pr.merged_at ≡ some at
      → pull_request_stage_hours pr stage ≡ h
      → in_period from to at ≡ true
      → All (IsSource from to stage (pr ∷ prs)) rest
      → All (IsSource from to stage (pr ∷ prs)) (observed pr at h rest)
  observed-IsSource pr prs at none rest m e p k = k
  observed-IsSource pr prs at (some h) rest m e p k = (
    (pr, inl refl, m, ground (arith, p), ground (arith, p), refl, e, refl, reviewed_lem pr h e),
    k,
  )

  observe-IsSource :
      (pr : PullRequest) (prs : List PullRequest) (merged : Option ℕ) (rest : List StageObservation)
      → pr.merged_at ≡ merged
      → All (IsSource from to stage (pr ∷ prs)) rest
      → All (IsSource from to stage (pr ∷ prs)) (observe from to stage pr merged rest)
  observe-IsSource pr prs none rest m k = k
  observe-IsSource pr prs (some at) rest m k = elim (Bool-cases (in_period from to at)) [
    | inl e ↦ rw e (observed-IsSource pr prs at (pull_request_stage_hours pr stage) rest m refl e k)
    | inr e ↦ rw e k
  ]

  observations-IsSource :
      (prs : List PullRequest) → All (IsSource from to stage prs) (observations from to stage prs)
  unfolding observations
  observations-IsSource [] = tt
  observations-IsSource (pr ∷ prs) =
      observe-IsSource pr prs pr.merged_at (observations from to stage prs) refl (
        All-imp (IsSource-more pr prs) (observations from to stage prs) (observations-IsSource prs))

  length-observed :
      (pr : PullRequest) (at : ℕ) (h : Option ℕ) (rest : List StageObservation)
      → length (observed pr at h rest) ≡ (if is_some h then 1 else 0) + length rest
  length-observed pr at none rest = omega arith
  length-observed pr at (some h) rest = omega arith

  length-observe :
      (pr : PullRequest) (merged : Option ℕ) (rest : List StageObservation)
      → length (observe from to stage pr merged rest)
        ≡ (if is_merged_in from to merged && is_some (pull_request_stage_hours pr stage)
            then 1
            else 0)
          + length rest
  length-observe pr none rest = omega arith
  length-observe pr (some at) rest =
      ground (arith, length-observed pr at (pull_request_stage_hours pr stage) rest)

  length-observations :
      (prs : List PullRequest) → length (observations from to stage prs) ≡ count_if is_counted prs
  unfolding observations
  length-observations [] = refl
  length-observations (pr ∷ prs) = omega (
    arith,
    length-observe pr pr.merged_at (observations from to stage prs),
    length-observations prs,
  )

-- A snapshot of a stage that counts its observations, one for each pull request that was merged in the
-- period and has the stage.
abbrev pub IsCohort :
    ℕ → ℕ → Stage → List PullRequest → MetricSnapshotResult StageDimensions → Type 0
IsCohort from to stage prs r =
    (r.metric_type ≡ metric_type_of stage)
    × (r.sample_size ≡ count_if (is_counted from to stage) prs)
    × (length r.dimensions.observations ≡ count_if (is_counted from to stage) prs)
    × All (IsSource from to stage prs) r.dimensions.observations

stage_snapshot-IsCohort :
    (from to : ℕ) (g : Text) (prs : List PullRequest) (stage : Stage)
    → IsCohort from to stage prs (stage_snapshot from to g prs stage)
unfolding stage_snapshot
stage_snapshot-IsCohort from to g prs stage =
    let n = length-observations from to stage prs in
    (refl, n, n, observations-IsSource from to stage prs)

-- There is one snapshot for each of coding, pickup, review and deploy, in this order, named for the
-- stage. Its observations are as many as the pull requests given that were merged in `[from, to)` and
-- have the stage, and so many it reports; each is of such a pull request, under its id, at its merge,
-- with its hours of the stage and whether it was reviewed, and those of pickup and review are of
-- reviewed ones.
pub calculate_cycle_time_stages-IsCohort :
    (from to : ℕ) (g : Text) (prs : List PullRequest)
    → (coding pickup review deploy : MetricSnapshotResult StageDimensions)
      × (calculate_cycle_time_stages from to g prs ≡ coding ∷ pickup ∷ review ∷ deploy ∷ [])
      × IsCohort from to Stage.coding prs coding
      × IsCohort from to Stage.pickup prs pickup
      × IsCohort from to Stage.review prs review
      × IsCohort from to Stage.deploy prs deploy
unfolding calculate_cycle_time_stages
calculate_cycle_time_stages-IsCohort from to g prs =
    let snapshot = stage_snapshot from to g prs in
    let cohort = stage_snapshot-IsCohort from to g prs in
    (
      snapshot Stage.coding,
      snapshot Stage.pickup,
      snapshot Stage.review,
      snapshot Stage.deploy,
      refl,
      cohort Stage.coding,
      cohort Stage.pickup,
      cohort Stage.review,
      cohort Stage.deploy,
    )
