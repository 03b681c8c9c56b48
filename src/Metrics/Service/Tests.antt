-- ===== src/Metrics/Service/Tests.antt =====
-- A failed deployment, its recovery, and the pull request that the recovery shipped, for the theorems
-- on app/metrics/service.py.
use adept_engine.Base.{
  ℕ, ◌*◌, ◌/◌, ◌+◌, ◌≡◌, refl, true, none, some, List, [], ◌∷◌, Text, codes, same, is_some, All,
  inl, inr,
}
use adept_engine.Base.Among.{Among}
use adept_engine.Base.Upsert.{first}
use adept_engine.Values.Json.{end_fields}
use adept_engine.Store.{DeploymentRow, LinkRow, PullRequestRow, IncidentRow}
use adept_engine.Normalization.Patterns.{no_settings}
use adept_engine.Metrics.Buckets.{Zone, Bucket, day_length}
use adept_engine.Metrics.Service.Snapshots.{Snapshot, counts, with_dimensions}
use adept_engine.Metrics.Service.Database.{Database, Environment}
use adept_engine.Metrics.Service.Incidents.{
  is_failed, reconcile_github_incidents, incident_for, recovery,
}
use adept_engine.Metrics.Service.Incidents.Exact.{IsDescribed, DistinctIds}
use adept_engine.Metrics.Service.Incidents.Reconcile.{
  incident_of, IsFailure, reconcile_describes, reconcile_grounded,
}
use adept_engine.Metrics.Service.Links.{
  is_exact, link, same_link, link_deployments_to_pull_requests,
}
use adept_engine.Metrics.Service.Links.Justified.{IsJustified, links-IsJustified}
use adept_engine.Metrics.Service.Links.Complete.{links_complete, manual_links_stay}
use adept_engine.Metrics.Dora.{calculate_deployment_frequency}
use adept_engine.Metrics.Service.Recalculate.Refines.{derived_incidents}
use adept_engine.Metrics.Service.Queries.{deployments_of}

abbrev deployment : ℕ → Text → Text → ℕ → DeploymentRow
deployment i status sha finished = record {
  id = i;
  workspace_id = 1;
  repository_id = 7;
  source = codes "GITHUB_ACTIONS";
  external_deployment_id = codes "e";
  environment = some (codes "production");
  is_production = true;
  status = status;
  commit_sha = some sha;
  started_at = none;
  finished_at = some finished;
  raw_data = end_fields;
  updated_at = finished;
  version = 0;
}

abbrev failure : DeploymentRow
failure = deployment 1 (codes "FAILURE") (codes "aa") (18 * day_length)

abbrev success : DeploymentRow
success = deployment 2 (codes "SUCCESS") (codes "bb") (19 * day_length)

abbrev deployments : List DeploymentRow
deployments = failure ∷ success ∷ []

abbrev pull_request : PullRequestRow
pull_request = record {
  id = 5;
  repository_id = 7;
  state = codes "MERGED";
  author_login = none;
  base_ref = codes "main";
  head_sha = none;
  merge_commit_sha = some (codes "bb");
  opened_at = some (17 * day_length);
  first_commit_at = some (17 * day_length);
  merged_at = some (18 * day_length + 5);
  ready_for_review_at = none;
}

abbrev manual : LinkRow
manual = record {
  deployment_id = 1;
  pull_request_id = 9;
  link_method = codes "MANUAL";
  created_at = 0;
}

abbrev incident_id : ℕ → ℕ
incident_id i = i + 100

distinct : DistinctIds deployments
distinct = ((refl, tt), (tt, tt))

has_failed : is_failed 7 failure ≡ true
unfolding same
has_failed = refl

abbrev reconciled : List IncidentRow
reconciled = reconcile_github_incidents (20 * day_length) incident_id 7 deployments []

reconcile_describes_example : IsDescribed deployments failure (incident_of 1 reconciled)
reconcile_describes_example =
    reconcile_describes (20 * day_length) incident_id 7 deployments [] failure distinct (inl refl)
      has_failed

abbrev opened : IncidentRow
opened = incident_for (20 * day_length) incident_id deployments failure

stands : Among opened reconciled
unfolding reconcile_github_incidents incident_for recovery same
stands = inl refl

reconcile_grounded_example :
    (f : DeploymentRow) × Among f deployments
    × (opened.failed_deployment_id ≡ some f.id)
    × IsFailure 7 f
unfolding incident_for
reconcile_grounded_example =
    reconcile_grounded (20 * day_length) incident_id 7 deployments [] opened stands refl refl

links-IsJustified_example :
    All
      (IsJustified 7 (codes "main") deployments (pull_request ∷ []) [])
      (link_deployments_to_pull_requests
        (20 * day_length)
        7
        (codes "main")
        deployments
        (pull_request ∷ [])
        []
        (manual ∷ [])).0
links-IsJustified_example =
    links-IsJustified 7 (codes "main") deployments (pull_request ∷ []) [] (20 * day_length)
      (manual ∷ [])

is_manual : same manual.link_method (codes "MANUAL") ≡ true
unfolding same
is_manual = refl

is_shipped : is_exact [] success pull_request ≡ true
unfolding is_exact same
is_shipped = refl

links_complete_example :
    is_some (
      first
        (same_link (link (20 * day_length) (codes "") success pull_request))
        (link_deployments_to_pull_requests
          (20 * day_length)
          7
          (codes "main")
          deployments
          (pull_request ∷ [])
          []
          []).0)
    ≡ true
links_complete_example =
    links_complete (20 * day_length) 7 (codes "main") deployments (pull_request ∷ []) [] [] success
      pull_request (inr (inl refl)) (inl refl) (inl is_shipped)

manual_links_stay_example :
    Among manual
      (link_deployments_to_pull_requests
        (20 * day_length)
        7
        (codes "main")
        deployments
        (pull_request ∷ [])
        []
        (manual ∷ [])).0
manual_links_stay_example =
    manual_links_stay (20 * day_length) 7 (codes "main") deployments (pull_request ∷ []) []
      (manual ∷ []) manual (inl refl) is_manual

abbrev utc : Zone
utc = record { day_of = λ at. at / day_length; midnight = λ date. date * day_length }

abbrev env : Environment
env = record {
  zones = λ name. some utc;
  now = 20 * day_length;
  incident_id = incident_id;
  snapshot_id = incident_id;
  job_id = 50;
  max_attempts = 5;
}

abbrev db : Database
db = record {
  deployments = deployments;
  links = manual ∷ [];
  pull_requests = pull_request ∷ [];
  commits = [];
  reviews = [];
  incidents = [];
  snapshots = [];
  jobs = [];
  timezone = λ i. some (codes "UTC");
  default_branch = λ i. codes "main";
  settings = λ i. no_settings;
}

-- The first bucket of the weeks.
abbrev week : Bucket
week = (14 * day_length, 21 * day_length)

-- The deployments of a week.
abbrev frequency : Snapshot
frequency = with_dimensions counts (
    calculate_deployment_frequency (14 * day_length) (21 * day_length) (codes "WEEK")
      (deployments_of 7 deployments (derived_incidents env 1 7 db)))
