-- ===== src/Normalization/Tests.antt =====
-- A deployment that is told of twice, and the events of GitHub that tell of it, for the theorems on
-- app/normalization/deployments.py.
use adept_engine.Base.{
  ℕ, ◌≡◌, ◌≢◌, ◌<◌, refl, true, false, none, some, List, [], ◌∷◌, Text, codes, same, arith, ◌↔◌,
  if◌then◌else◌, inl,
}
use adept_engine.Base.Upsert.{first, upsert}
use adept_engine.Values.Json.{end_fields, get}
use adept_engine.Risk.Stamp.{instant}
use adept_engine.Jobs.Errors.{ok, err}
use adept_engine.Store.{DeploymentRow}
use adept_engine.Metrics.Calendar.{month_of}
use adept_engine.Metrics.Service.Database.{Database, Environment}
use adept_engine.Metrics.Service.Enqueue.Widens.{asked, IsDatedRange}
use adept_engine.Normalization.Patterns.{
  Settings, no_settings, is_production_workflow, lower, is_production_environment, is_excluded,
  matches, patterns, is_nonempty, is_configured,
}
use adept_engine.Normalization.Fnmatch.{fnmatch}
use adept_engine.Normalization.Patterns.Defaults.{NamesDeployment, is_production_workflow_default}
use adept_engine.Normalization.Fnmatch.Words.{IsPlain}
use adept_engine.Normalization.Deployments.{same_deployment, merge_deployment}
use adept_engine.Normalization.Deployments.Newest.{IsNewestOption, upsert_newest}
use adept_engine.Normalization.Deliveries.{
  WorkflowRun, lacks_branch, no_branch, Value, outcome, is_terminal, workflow_row,
  upsert_deployment_from_workflow_run,
}
use adept_engine.Normalization.Deliveries.Outcomes.{IsDelivered, workflow_run_outcome}
use adept_engine.Normalization.Reclassify.Settles.{AllReclassified, reclassify_settles}
use adept_engine.Normalization.Reclassify.{classify, reclassify_repository_deployments}

abbrev deployment : ℕ → Text → ℕ → DeploymentRow
deployment i status finished = record {
  id = i;
  workspace_id = 1;
  repository_id = 7;
  source = codes "GITHUB_DEPLOYMENT";
  external_deployment_id = codes "e";
  environment = some (codes "production");
  is_production = false;
  status = status;
  commit_sha = none;
  started_at = none;
  finished_at = some finished;
  raw_data = end_fields;
  updated_at = finished;
  version = 0;
}

abbrev failure : DeploymentRow
failure = deployment 1 (codes "FAILURE") 30

abbrev success : DeploymentRow
success = deployment 2 (codes "SUCCESS") 20

-- The older delivery comes last.
abbrev deliveries : List DeploymentRow
deliveries = failure ∷ success ∷ []

one_key : same_deployment success failure ≡ true
unfolding same
one_key = refl

upsert_newest_example :
    IsNewestOption success deliveries
      (first (same_deployment success) (upsert same_deployment merge_deployment deliveries []))
upsert_newest_example =
    upsert_newest success deliveries [] failure refl (λ h. refl, (λ h. refl, tt)) (inl refl) one_key

-- The repository's deployments count, not its workflow runs.
abbrev by_environment : Settings
by_environment = record no_settings { deployment_signal = some (codes "DEPLOYMENT") }

reclassify_settles_example :
    AllReclassified 40 7
      (codes "main")
      by_environment
      deliveries
      (reclassify_repository_deployments 40 7 (codes "main") by_environment deliveries).1
    × (reclassify_repository_deployments 50 7
          (codes "main")
          by_environment
          (reclassify_repository_deployments 40 7 (codes "main") by_environment deliveries).1
        ≡ (0, (reclassify_repository_deployments 40 7 (codes "main") by_environment deliveries).1))
reclassify_settles_example = reclassify_settles 40 7 (codes "main") by_environment 50 deliveries

-- Both are production deployments by their environment.
both_reclassified :
    (reclassify_repository_deployments 40 7 (codes "main") by_environment deliveries).0 ≡ 2
unfolding reclassify_repository_deployments classify is_production_environment is_excluded matches
    fnmatch patterns lower same get
both_reclassified = refl

plain : IsPlain (lower (codes "main"))
unfolding lower
plain = ((refl, refl, refl), ((refl, refl, refl), ((refl, refl, refl), ((refl, refl, refl), tt))))

is_production_workflow_default_example :
    (is_production_workflow (codes "Deploy it") (codes "Main") (codes "main") no_settings ≡ true)
    ↔ (((codes "Main" ≢ []) × (lower (codes "Main") ≡ lower (codes "main")))
        × NamesDeployment (lower (codes "Deploy it")))
is_production_workflow_default_example =
    is_production_workflow_default (codes "Deploy it") (codes "Main") (codes "main") plain

abbrev run : WorkflowRun
run = record {
  run_id = codes "12";
  conclusion = Value.text (codes "success");
  name = Value.text (codes "Deploy it");
  default_branch = Value.text (codes "main");
  head_branch = Value.text (codes "main");
  head_sha = Value.text (codes "aa");
  run_started_at = instant 3;
  created_at = instant 2;
  updated_at = instant 4;
  raw = end_fields;
}

abbrev env : Environment
env = record {
  zones = λ name. none;
  now = 5;
  incident_id = λ i. i;
  snapshot_id = λ i. i;
  job_id = 50;
  max_attempts = 5;
}

abbrev db : Database
db = record {
  deployments = [];
  links = [];
  pull_requests = [];
  commits = [];
  reviews = [];
  incidents = [];
  snapshots = [];
  jobs = [];
  timezone = λ i. none;
  default_branch = λ i. codes "main";
  settings = λ i. no_settings;
}

dated : (month_of 0 < 119_988) × (month_of 0 < 119_988)
unfolding month_of
dated = (omega arith, omega arith)

row_dated : IsDatedRange (asked (workflow_row env 3 1 7 no_settings run).finished_at none)
unfolding workflow_row
row_dated = dated

null_branch :
    upsert_deployment_from_workflow_run env 3 1 7 (record run { default_branch = Value.null }) db
    ≡ (err no_branch, db)
unfolding upsert_deployment_from_workflow_run lacks_branch outcome lower patterns is_nonempty
    is_configured same
null_branch = refl

workflow_run_outcome_example :
    if is_terminal (outcome run.conclusion)
    then if lacks_branch no_settings run
      then upsert_deployment_from_workflow_run env 3 1 7 run db ≡ (err no_branch, db)
      else IsDelivered env 3 1 7
          (workflow_row env 3 1 7 no_settings run)
          none
          db
          (upsert_deployment_from_workflow_run env 3 1 7 run db)
    else upsert_deployment_from_workflow_run env 3 1 7 run db ≡ (ok none, db)
workflow_run_outcome_example = workflow_run_outcome env 3 1 7 run none db tt row_dated refl
