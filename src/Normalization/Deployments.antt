-- ===== src/Normalization/Deployments.antt =====
-- `_run_upsert` of app/normalization/deployments.py: repeated and late deliveries of one deployment.
pub mod Keys
pub mod Newest
use adept_engine.Base.{
  ℕ, ◌+◌, ◌≡◌, refl, Bool, true, false, ◌&&◌, Option, none, some, List, [], ◌∷◌, Text, ◌==◌, leb,
  same, if◌then◌else◌,
}
use adept_engine.Base.Upsert.{first, upsert_one}
use adept_engine.Metrics.Snapshot.{or_option}
use adept_engine.Store.{DeploymentRow}

-- The unique key `(repository_id, source, external_deployment_id)`.
abbrev pub same_deployment : DeploymentRow → DeploymentRow → Bool
same_deployment a b =
    a.repository_id == b.repository_id
    && (same a.source b.source && same a.external_deployment_id b.external_deployment_id)

-- The `WHERE` of the `DO UPDATE`: an older delivery changes nothing.
abbrev pub is_no_older : Option ℕ → Option ℕ → Bool
is_no_older none new = true
is_no_older (some old) none = false
is_no_older (some old) (some new) = leb old new

abbrev pub update_deployment : DeploymentRow → DeploymentRow → DeploymentRow
update_deployment old excluded = record old {
  environment = excluded.environment;
  is_production = excluded.is_production;
  status = excluded.status;
  commit_sha = excluded.commit_sha;
  started_at = or_option old.started_at excluded.started_at;
  finished_at = excluded.finished_at;
  raw_data = excluded.raw_data;
  updated_at = excluded.updated_at;
  version = old.version + 1;
}

unfoldable pub merge_deployment : DeploymentRow → DeploymentRow → DeploymentRow
merge_deployment old excluded =
    if is_no_older old.finished_at excluded.finished_at then update_deployment old excluded else old

abbrev pub id_or_zero : Option DeploymentRow → ℕ
id_or_zero none = 0
id_or_zero (some d) = d.id

-- The id of the row of the key, which the upsert returns or the `SELECT` finds, and the table. The
-- `id` of `row` is the one that the database gives a new row.
unfoldable pub run_upsert : DeploymentRow → List DeploymentRow → ℕ × List DeploymentRow
unfolding merge_deployment
run_upsert row t =
    let stored = upsert_one same_deployment merge_deployment row t in
    (id_or_zero (first (same_deployment row) stored), stored)
