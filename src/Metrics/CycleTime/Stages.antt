-- ===== src/Metrics/CycleTime/Stages.antt =====
-- The stages of app/metrics/cycle_time.py: where pickup starts, how they follow one another, and
-- which pull requests they are of.
use adept_engine.Base.{
  ℕ, ◌+◌, ◌-◌, ◌≡◌, ◌≤◌, refl, Bool, true, false, ◌&&◌, Option, none, some, arith, ltb, ap, inl,
  inr, Bool-cases, some_inj, ◌⊎◌,
}
use adept_engine.Metrics.CycleTime.{
  PullRequest, not_after, start_of, pickup_start, Stage, begin_of, end_of, between, hours, hours_of,
  pull_request_stage_hours,
}

-- `s` is a start of the pickup of a pull request opened at `opened`.
start_of_lem :
    (opened : ℕ) (ready review : Option ℕ)
    → (s : ℕ) × (start_of (some opened) ready review ≡ some s)
      × (opened ≤ s)
      × ((s ≡ opened) ⊎ (ready ≡ some s))
start_of_lem opened none review = (opened, refl, omega arith, inl refl)
start_of_lem opened (some ready) review =
    elim (Bool-cases (ltb opened ready && not_after ready review)) [
      | inl e ↦ (ready, rw e refl, ground arith, inr refl)
      | inr e ↦ (opened, rw e refl, omega arith, inl refl)
    ]

-- No later than a review that is not before the opening.
start_of-le :
    (opened r s : ℕ) (ready : Option ℕ)
    → opened ≤ r
    → start_of (some opened) ready (some r) ≡ some s
    → s ≤ r
start_of-le opened r s none h e = omega (arith, h, some_inj e)
start_of-le opened r s (some ready) h e = ground (arith, e)

between-some : (a b : ℕ) → a ≤ b → between (some a) (some b) ≡ some (b - a)
between-some a b h = ground arith

-- Of a pull request that was not reviewed before its opening, pickup starts between these two.
pub pickup_start_bounds :
    (pr : PullRequest) (opened r : ℕ)
    → pr.opened_at ≡ some opened
    → pr.first_review_at ≡ some r
    → opened ≤ r
    → (s : ℕ) × (pickup_start pr ≡ some s) × (opened ≤ s) × (s ≤ r)
unfolding pickup_start
pickup_start_bounds pr opened r o f h =
    let s = start_of_lem opened pr.ready_for_review_at (some r) in
    rw (o, f) (s.0, s.1, s.2, start_of-le opened r s.0 pr.ready_for_review_at h s.1)

-- A pull request whose five instants are known and in order.
pub record IsComplete (pr : PullRequest) : Type 0 where
  pub commit : ℕ
  pub opened : ℕ
  pub review : ℕ
  pub merge : ℕ
  pub deployment : ℕ
  pub commit_known : pr.first_commit_at ≡ some commit
  pub opened_known : pr.opened_at ≡ some opened
  pub review_known : pr.first_review_at ≡ some review
  pub merge_known : pr.merged_at ≡ some merge
  pub deployment_known : pr.deployed_at ≡ some deployment
  pub commit_first : commit ≤ opened
  pub opened_before : opened ≤ review
  pub review_before : review ≤ merge
  pub deployed_last : merge ≤ deployment

-- `d` is the duration of the stage, and what is reported is `d` in hours.
abbrev pub IsMeasured : PullRequest → Stage → ℕ → Type 0
IsMeasured pr stage d =
    (between (begin_of pr stage) (end_of pr stage) ≡ some d)
    × (pull_request_stage_hours pr stage ≡ some (hours d))

stage-IsMeasured :
    (pr : PullRequest) (stage : Stage) (a b : ℕ)
    → begin_of pr stage ≡ some a
    → end_of pr stage ≡ some b
    → a ≤ b
    → IsMeasured pr stage (b - a)
unfolding pull_request_stage_hours
stage-IsMeasured pr stage a b f g h =
    let e : between (begin_of pr stage) (end_of pr stage) ≡ some (b - a) =
      rw (f, g) (between-some a b h) in
    (e, ap hours_of e)

-- The stages are contiguous: of a pull request whose first commit, opening, first review, merge and
-- deployment are known and in this order, whatever its ready_for_review transition, every stage is
-- measured, and the four durations add up to the time from the first commit to the deployment.
pub pull_request_stage_hours_contiguous :
    (pr : PullRequest) (c : IsComplete pr)
    → (coding pickup review deploy : ℕ) × IsMeasured pr Stage.coding coding
      × IsMeasured pr Stage.pickup pickup
      × IsMeasured pr Stage.review review
      × IsMeasured pr Stage.deploy deploy
      × (coding + pickup + review + deploy ≡ c.deployment - c.commit)
pull_request_stage_hours_contiguous pr c =
    let s =
      pickup_start_bounds pr c.opened c.review c.opened_known c.review_known c.opened_before in
    (
      s.0 - c.commit,
      c.review - s.0,
      c.merge - c.review,
      c.deployment - c.merge,
      stage-IsMeasured pr Stage.coding c.commit s.0 c.commit_known s.1
          (omega (arith, c.commit_first, s.2)),
      stage-IsMeasured pr Stage.pickup s.0 c.review s.1 c.review_known s.3,
      stage-IsMeasured pr Stage.review c.review c.merge c.review_known c.merge_known
          c.review_before,
      stage-IsMeasured pr Stage.deploy c.merge c.deployment c.merge_known c.deployment_known
          c.deployed_last,
      omega (arith, s.2, s.3, c.commit_first, c.review_before, c.deployed_last),
    )

-- The stages that a review bounds.
abbrev pub needs_review : Stage → Bool
needs_review Stage.pickup = true
needs_review Stage.review = true
needs_review _ = false

between-none : (a : Option ℕ) → between a none ≡ none
between-none none = refl
between-none (some a) = refl

between_unknown : (a b : Option ℕ) → b ≡ none → between a b ≡ none
between_unknown a b h = rw h (between-none a)

pub unreviewed :
    (pr : PullRequest) (stage : Stage)
    → needs_review stage ≡ true
    → pr.first_review_at ≡ none
    → pull_request_stage_hours pr stage ≡ none
unfolding pull_request_stage_hours
unreviewed pr Stage.coding n k = absurd (ground arith)
unreviewed pr Stage.pickup n k =
    ap hours_of (between_unknown (pickup_start pr) pr.first_review_at k)
unreviewed pr Stage.review n k = rw k refl
unreviewed pr Stage.deploy n k = absurd (ground arith)
