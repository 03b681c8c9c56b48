-- ===== src/Metrics/Service/Incidents.antt =====
-- `reconcile_github_incidents` and `update_github_incident_lifecycle` of app/metrics/service.py.
pub mod Exact
pub mod Reconcile
use adept_engine.Base.{
  ℕ, ◌+◌, ◌≡◌, refl, ap, Bool, true, false, ◌&&◌, ◌||◌, not, Option, none, some, List, [], ◌∷◌,
  ◌++◌, map, Text, codes, ◌==◌, ltb, if◌then◌else◌, keep, same, is_some, arith,
}
use adept_engine.Base.Upsert.{first, upsert}
use adept_engine.Jobs.Errors.{Result, ok, err, other}
use adept_engine.Store.{DeploymentRow, IncidentRow}

-- `is_production = true AND status = :status AND finished_at IS NOT NULL` in one repository
abbrev pub is_finished : ℕ → Text → DeploymentRow → Bool
is_finished repository status d =
    d.repository_id == repository
    && (d.is_production && (same d.status status && is_some d.finished_at))

abbrev pub is_failed : ℕ → DeploymentRow → Bool
is_failed repository d = is_finished repository (codes "FAILURE") d

abbrev pub time_or_zero : Option ℕ → ℕ
time_or_zero none = 0
time_or_zero (some at) = at

abbrev pub finish : DeploymentRow → ℕ
finish d = time_or_zero d.finished_at

-- A successful production deployment that finished after an instant.
abbrev pub is_recovery : ℕ → ℕ → DeploymentRow → Bool
is_recovery repository at d = is_finished repository (codes "SUCCESS") d && ltb at (finish d)

-- `ORDER BY finished_at, id`
abbrev pub before : DeploymentRow → DeploymentRow → Bool
before a b = ltb (finish a) (finish b) || (finish a == finish b && ltb a.id b.id)

abbrev pub earlier : DeploymentRow → Option DeploymentRow → DeploymentRow
earlier a none = a
earlier a (some b) = if before b a then b else a

-- The lateral join: the earliest success after an instant.
unfoldable pub recovery : ℕ → ℕ → List DeploymentRow → Option DeploymentRow
recovery repository at [] = none
recovery repository at (d ∷ ds) =
    let rest = recovery repository at ds in
    if is_recovery repository at d then some (earlier d rest) else rest

abbrev pub id_of : Option DeploymentRow → Option ℕ
id_of none = none
id_of (some d) = some d.id

abbrev pub finish_of : Option DeploymentRow → Option ℕ
finish_of none = none
finish_of (some d) = d.finished_at

abbrev pub title_for : Option Text → Option Text
title_for none = none
title_for (some environment) = some (codes "Failed production deployment to " ++ environment)

abbrev pub status_for : Option DeploymentRow → Text
status_for none = codes "OPEN"
status_for (some d) = codes "RESOLVED"

-- A row of the `SELECT`; `new_id` gives the id of the row that it becomes where it is inserted.
unfoldable pub incident_for : ℕ → (ℕ → ℕ) → List DeploymentRow → DeploymentRow → IncidentRow
incident_for now new_id deployments failed =
    let recovered = recovery failed.repository_id (finish failed) deployments in
    record {
      id = new_id failed.id;
      workspace_id = failed.workspace_id;
      repository_id = failed.repository_id;
      source = codes "GITHUB";
      title = title_for failed.environment;
      status = status_for recovered;
      failed_deployment_id = some failed.id;
      recovery_deployment_id = id_of recovered;
      detected_at = finish failed;
      resolved_at = finish_of recovered;
      updated_at = now;
      version = 0;
    }

abbrev pub is_id : Option ℕ → ℕ → Bool
is_id none i = false
is_id (some j) i = j == i

abbrev pub same_id : Option ℕ → Option ℕ → Bool
same_id a none = false
same_id a (some i) = is_id a i

-- The unique index on `failed_deployment_id` where it is not NULL.
abbrev pub same_failure : IncidentRow → IncidentRow → Bool
same_failure a b = same_id a.failed_deployment_id b.failed_deployment_id

-- The `DO UPDATE`.
abbrev pub update_incident : IncidentRow → IncidentRow → IncidentRow
update_incident old excluded = record excluded {
  id = old.id;
  failed_deployment_id = old.failed_deployment_id;
  version = old.version + 1;
}

-- `NOT EXISTS (...)`: the failed deployments have another id.
abbrev pub has_failure : ℕ → Option ℕ → List DeploymentRow → Bool
has_failure repository i [] = false
has_failure repository i (d ∷ ds) =
    (is_id i d.id && is_failed repository d) || has_failure repository i ds

-- The `WHERE` of the `DELETE`; `has_failure` of a NULL id is false.
abbrev pub is_orphan : ℕ → List DeploymentRow → IncidentRow → Bool
is_orphan repository deployments i =
    i.repository_id == repository
    && (same i.source (codes "GITHUB")
        && not (has_failure repository i.failed_deployment_id deployments))

unfoldable pub reconcile_github_incidents :
    ℕ → (ℕ → ℕ) → ℕ → List DeploymentRow → List IncidentRow → List IncidentRow
reconcile_github_incidents now new_id repository deployments incidents =
    upsert same_failure update_incident
      (map (incident_for now new_id deployments) (keep (is_failed repository) deployments))
      (keep (λ i. not (is_orphan repository deployments i)) incidents)

-- `scalar_one` of the repository of a deployment
abbrev pub reconcile_for :
    ℕ
    → (ℕ → ℕ)
    → Option DeploymentRow
    → List DeploymentRow
    → List IncidentRow
    → Result (List IncidentRow)
reconcile_for now new_id none deployments incidents = err (other (codes "No row was found"))
reconcile_for now new_id (some d) deployments incidents =
    ok (reconcile_github_incidents now new_id d.repository_id deployments incidents)

unfoldable pub update_github_incident_lifecycle :
    ℕ → (ℕ → ℕ) → ℕ → List DeploymentRow → List IncidentRow → Result (List IncidentRow)
update_github_incident_lifecycle now new_id deployment_id deployments incidents =
    reconcile_for now new_id (first (λ d. d.id == deployment_id) deployments) deployments incidents
