-- ===== src/Normalization/Deliveries.antt =====
-- `upsert_deployment_from_workflow_run` and `upsert_deployment_from_deployment_status` of
-- app/normalization/deployments.py. A timestamp of an event is a `Stamp`, as `_parse_ts` finds it.
pub mod Outcomes
use adept_engine.Base.{
  ℕ, ◌+◌, ◌≡◌, refl, Bool, true, false, ◌&&◌, ◌||◌, not, Option, none, some, List, [], ◌∷◌, Text,
  codes, same, if◌then◌else◌,
}
use adept_engine.Values.Json.{Fields}
use adept_engine.Risk.Stamp.{Stamp, missing, malformed, instant, or_stamp}
use adept_engine.Jobs.Errors.{JobError, Result, ok, err, ◌>>=◌}
use adept_engine.Store.{DeploymentRow, IncidentRow}
use adept_engine.Metrics.Service.Incidents.{update_github_incident_lifecycle}
use adept_engine.Metrics.Service.Links.{link_deployments_to_pull_requests}
use adept_engine.Metrics.Service.Enqueue.{enqueue_recalculate_metrics_job}
use adept_engine.Metrics.Service.Database.{Database, Environment}
use adept_engine.Normalization.Patterns.{
  Settings, lower, patterns, is_nonempty, is_configured, is_production_workflow,
  is_production_environment,
}
use adept_engine.Normalization.Deployments.{run_upsert}

-- `d.get(key, default)` of a text: a missing key, a JSON null, or a text.
pub data Value : Type 0 where
  absent null : Value
  text : Text → Value

abbrev pub with_default : Text → Value → Option Text
with_default d absent = some d
with_default d null = none
with_default d (text s) = some s

abbrev is_null : Value → Bool
is_null absent = false
is_null null = true
is_null (text s) = false

-- `value or ""`, where the program has `None` and goes on as with an empty text
abbrev pub or_empty : Option Text → Text
or_empty none = []
or_empty (some s) = s

-- `_parse_ts`
abbrev pub parse_ts : Stamp → Option ℕ
parse_ts missing = none
parse_ts malformed = none
parse_ts (instant t) = some t

-- `workflow_run` and `repository` of the event, and the event itself.
pub record WorkflowRun : Type 0 where
  pub run_id : Text
  pub conclusion : Value
  pub name : Value
  pub default_branch : Value
  pub head_branch : Value
  pub head_sha : Value
  pub run_started_at : Stamp
  pub created_at : Stamp
  pub updated_at : Stamp
  pub raw : Fields

-- `deployment_status` and `deployment` of the event, and the event itself.
pub record DeploymentStatus : Type 0 where
  pub deployment_id : Text
  pub state : Value
  pub environment : Value
  pub sha : Value
  pub created_at : Stamp
  pub updated_at : Stamp
  pub raw : Fields

-- `(value or "").lower()`
unfoldable pub outcome : Value → Text
unfolding lower
outcome v = lower (or_empty (with_default [] v))

-- `in ("success", "failure")`
abbrev pub is_terminal : Text → Bool
is_terminal s = same s (codes "success") || same s (codes "failure")

abbrev pub status_of : Text → Text
status_of s = if same s (codes "success") then codes "SUCCESS" else codes "FAILURE"

-- The head branch is matched with the default branch, which is null: `None.lower()` raises.
unfoldable pub lacks_branch : Settings → WorkflowRun → Bool
unfolding is_nonempty is_configured patterns
lacks_branch settings run =
    is_null run.default_branch
    && is_nonempty (or_empty (with_default [] run.head_branch))
    && not (is_configured (patterns settings.production_branch_patterns))

abbrev pub no_branch : JobError
no_branch = JobError.other (codes "'NoneType' object has no attribute 'lower'")

module _ (env : Environment) (new_id workspace repository : ℕ) where
  abbrev pub row_with :
      Text
      → Text
      → Option Text
      → Bool
      → Text
      → Option Text
      → Option ℕ
      → Option ℕ
      → Fields
      → DeploymentRow
  row_with source external_id environment is_production status commit_sha started finished raw =
      record {
        id = new_id;
        workspace_id = workspace;
        repository_id = repository;
        source = source;
        external_deployment_id = external_id;
        environment = environment;
        is_production = is_production;
        status = status;
        commit_sha = commit_sha;
        started_at = started;
        finished_at = finished;
        raw_data = raw;
        updated_at = env.now;
        version = 0;
      }

  unfoldable pub workflow_row : Settings → WorkflowRun → DeploymentRow
  unfolding outcome is_production_workflow
  workflow_row settings run =
      row_with (codes "GITHUB_WORKFLOW") run.run_id (with_default (codes "unknown") run.name)
        (is_production_workflow (or_empty (with_default (codes "unknown") run.name))
          (or_empty (with_default [] run.head_branch))
          (or_empty (with_default (codes "main") run.default_branch)) settings)
        (status_of (outcome run.conclusion)) (with_default [] run.head_sha)
        (parse_ts (or_stamp run.run_started_at run.created_at)) (parse_ts run.updated_at) run.raw

  unfoldable pub status_row : Settings → DeploymentStatus → DeploymentRow
  unfolding outcome is_production_environment
  status_row settings event =
      row_with (codes "GITHUB_DEPLOYMENT") event.deployment_id
        (with_default (codes "unknown") event.environment)
        (is_production_environment (or_empty (with_default (codes "unknown") event.environment))
          settings)
        (status_of (outcome event.state)) (with_default [] event.sha) (parse_ts event.created_at)
        (parse_ts event.updated_at) event.raw

  abbrev pub linked : Database → Database
  linked db =
      let (links, _) =
        link_deployments_to_pull_requests env.now repository (db.default_branch repository)
          db.deployments db.pull_requests db.commits db.links in
      record db { links = links }

  abbrev pub enqueued : Option ℕ → Database → Database
  enqueued finished db =
      let (_, jobs) =
        enqueue_recalculate_metrics_job env.now env.job_id env.max_attempts workspace repository
          finished none db.jobs in
      record db { jobs = jobs }

  abbrev pub with_incidents :
      ℕ → Option ℕ → Database → Result (List IncidentRow) → Result (Option ℕ) × Database
  with_incidents id finished db (err e) = (err e, db)
  with_incidents id finished db (ok incidents) =
      (ok (some id), enqueued finished (record db { incidents = incidents }))

  -- What follows the upsert of a production deployment.
  abbrev pub follow_up : ℕ → Option ℕ → Database → Result (Option ℕ) × Database
  follow_up id finished db =
      with_incidents id finished (linked db)
        (update_github_incident_lifecycle env.now env.incident_id id db.deployments db.incidents)

  unfoldable pub normalize : DeploymentRow → Database → Result (Option ℕ) × Database
  unfolding run_upsert
  normalize row db =
      let (id, deployments) = run_upsert row db.deployments in
      let stored = record db { deployments = deployments } in
      if row.is_production then follow_up id row.finished_at stored else (ok (some id), stored)

  unfoldable pub upsert_deployment_from_workflow_run :
      WorkflowRun → Database → Result (Option ℕ) × Database
  unfolding normalize workflow_row outcome lacks_branch
  upsert_deployment_from_workflow_run run db =
      if is_terminal (outcome run.conclusion)
      then if lacks_branch (db.settings repository) run
        then (err no_branch, db)
        else normalize (workflow_row (db.settings repository) run) db
      else (ok none, db)

  unfoldable pub upsert_deployment_from_deployment_status :
      DeploymentStatus → Database → Result (Option ℕ) × Database
  unfolding normalize status_row outcome
  upsert_deployment_from_deployment_status event db =
      if is_terminal (outcome event.state)
      then normalize (status_row (db.settings repository) event) db
      else (ok none, db)
