-- ===== src/Jobs/Dispatcher.antt =====
-- app/jobs/dispatcher.py: one claimed job runs through its handler, and the dispatcher records how
-- the attempt ended. A handler is any function of the job, the worker and the table; `now` is the
-- time of the statement that follows it, and `draw` what `uniform` gives there.
pub mod Outcomes
pub mod Keeps
use adept_engine.Base.{
  ℕ, Bool, true, false, Option, none, some, List, [], ◌∷◌, ◌++◌, Text, codes, same, if◌then◌else◌,
  ℤ, pos,
}
use adept_engine.Jobs.Row.{ClaimedJob}
use adept_engine.Jobs.Table.{Table}
use adept_engine.Jobs.Errors.{
  JobError, Result, ok, err, permanent_job, provider, other, message, ◌>>=◌, value_error,
  overflow_error, job_ownership, scope_busy,
}
use adept_engine.Jobs.Errors.{requeue_with_payload as requeued}
use adept_engine.Jobs.Retry.{FailureOptions, mark_failed, mark_succeeded}

abbrev pub Handler : Type 0 → Type 0
Handler J = ClaimedJob J → Text → Table J → Result (Unit {0}) × Table J

-- The functions that `HANDLERS` names.
pub record Handlers (J : Type 0) : Type 0 where
  pub process_github_event : Handler J
  pub process_jira_event : Handler J
  pub backfill_repository : Handler J
  pub sync_github_repositories : Handler J
  pub sync_jira_projects : Handler J
  pub renew_jira_webhook : Handler J
  pub delete_workspace : Handler J
  pub recalculate_metrics : Handler J
  pub evaluate_alerts : Handler J

pub data JobDispatchOutcome : Type 0 where
  succeeded retry_scheduled dead_lettered continuation_requeued : JobDispatchOutcome

module _ {J : Type 0} where
  -- `HANDLERS.get(job_type)`
  unfoldable pub get_handler : Handlers J → Text → Option (Handler J)
  get_handler h job_type =
      if same job_type (codes "PROCESS_GITHUB_EVENT")
      then some h.process_github_event
      else if same job_type (codes "PROCESS_JIRA_EVENT")
      then some h.process_jira_event
      else if same job_type (codes "BACKFILL_REPOSITORY")
      then some h.backfill_repository
      else if same job_type (codes "SYNC_GITHUB_REPOSITORIES")
      then some h.sync_github_repositories
      else if same job_type (codes "SYNC_JIRA_PROJECTS")
      then some h.sync_jira_projects
      else if same job_type (codes "RENEW_JIRA_WEBHOOK")
      then some h.renew_jira_webhook
      else if same job_type (codes "DELETE_WORKSPACE")
      then some h.delete_workspace
      else if same job_type (codes "RECALCULATE_METRICS")
      then some h.recalculate_metrics
      else if same job_type (codes "EVALUATE_ALERTS")
      then some h.evaluate_alerts
      else none

-- `_failure_outcome`
unfoldable pub failure_outcome : Text → Result JobDispatchOutcome
failure_outcome status =
    if same status (codes "FAILED")
    then ok JobDispatchOutcome.retry_scheduled
    else if same status (codes "DEAD")
    then ok JobDispatchOutcome.dead_lettered
    else err (other (codes "unexpected durable job failure status: " ++ status))

-- The arguments that the four calls of `mark_failed` leave at their defaults.
abbrev pub plain : ℕ → FailureOptions
plain draw = record {
  permanent = false;
  jitter_seconds = none;
  retry_after_seconds = none;
  draw = draw;
}

abbrev pub permanently : ℕ → FailureOptions
permanently draw = record (plain draw) { permanent = true }

abbrev pub seconds_of : Option ℕ → Option ℤ
seconds_of none = none
seconds_of (some n) = some (pos n)

abbrev pub after_provider : Option ℕ → ℕ → FailureOptions
after_provider retry_after draw = record (plain draw) {
  retry_after_seconds = seconds_of retry_after;
}

module _ {J : Type 0} (now draw : ℕ) (job : ClaimedJob J) (worker_id : Text) where
  -- `_failure_outcome(mark_failed(...))`
  abbrev pub fail : Text → FailureOptions → Table J → Result JobDispatchOutcome × Table J
  fail error o t =
      let (result, t') = mark_failed now job.id worker_id error o t in
      (result >>= failure_outcome, t')

  abbrev pub succeed : Table J → Result JobDispatchOutcome × Table J
  succeed t =
      let (result, t') = mark_succeeded now job.id worker_id t in
      (result >>= (λ _. ok JobDispatchOutcome.succeeded), t')

  -- The `except` clauses, in their order, and what follows the `try`.
  abbrev pub settle : Result (Unit {0}) → Table J → Result JobDispatchOutcome × Table J
  settle (ok _) t = succeed t
  settle (err requeued) t = (ok JobDispatchOutcome.continuation_requeued, t)
  settle (err (permanent_job m)) t = fail m (permanently draw) t
  settle (err (provider m retry_after)) t = fail m (after_provider retry_after draw) t
  settle (err (value_error m)) t = fail m (plain draw) t
  settle (err (overflow_error m)) t = fail m (plain draw) t
  settle (err (job_ownership m)) t = fail m (plain draw) t
  settle (err (scope_busy m)) t = fail m (plain draw) t
  settle (err (other m)) t = fail m (plain draw) t

  abbrev pub run_handler : Option (Handler J) → Table J → Result JobDispatchOutcome × Table J
  run_handler none t = fail (codes "UNSUPPORTED_JOB_TYPE: " ++ job.job_type) (permanently draw) t
  run_handler (some handler) t = let (result, t') = handler job worker_id t in settle result t'

unfoldable pub dispatch_job :
    {J : Type 0}
    → Handlers J
    → ℕ
    → ℕ
    → ClaimedJob J
    → Text
    → Table J
    → Result JobDispatchOutcome × Table J
dispatch_job handlers now draw job worker_id t =
    run_handler now draw job worker_id (get_handler handlers job.job_type) t
