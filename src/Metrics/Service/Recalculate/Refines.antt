-- ===== src/Metrics/Service/Recalculate/Refines.antt =====
-- `recalculate_repository_metrics` of app/metrics/service.py against the calculations of
-- app/metrics/calculator.py.
use adept_engine.Base.{ℕ, ◌≡◌, Option, none, some, List, [], ◌∷◌, Text, codes}
use adept_engine.Base.Among.{Among}
use adept_engine.Jobs.Errors.{Result, ok}
use adept_engine.Store.{LinkRow, IncidentRow}
use adept_engine.Metrics.Buckets.{Bucket, get_period_buckets, get_recalculation_buckets}
use adept_engine.Metrics.Dora.{
  calculate_deployment_frequency, calculate_change_lead_time, calculate_recovery_time,
  calculate_change_failure_rate,
}
use adept_engine.Metrics.Service.Links.{link_deployments_to_pull_requests}
use adept_engine.Metrics.Service.Incidents.{reconcile_github_incidents}
use adept_engine.Metrics.Service.Queries.{deployments_of, pr_deployments_of, incidents_of}
use adept_engine.Metrics.Service.Snapshots.{Snapshot, with_dimensions, counts, times, failures}
use adept_engine.Metrics.Service.Database.{Database, Environment}

-- The calendar periods that a run is about: those of the affected range, or of the whole one.
abbrev pub asked_buckets :
    Environment → Text → Option ℕ → Option ℕ → ℕ → ℕ → Text → Result (List Bucket)
asked_buckets env timezone none affected_to from to g =
    get_period_buckets env.zones from to g timezone
asked_buckets env timezone (some at) none from to g =
    get_recalculation_buckets env.zones at at g timezone
asked_buckets env timezone (some at) (some last) from to g =
    get_recalculation_buckets env.zones at last g timezone

module _ (env : Environment) (workspace repository : ℕ) (db : Database) where
  -- The links and incidents that the deployments of the repository give.
  abbrev pub derived_links : List LinkRow
  derived_links =
      (link_deployments_to_pull_requests env.now repository (db.default_branch repository)
        db.deployments db.pull_requests db.commits db.links).0

  abbrev pub derived_incidents : List IncidentRow
  derived_incidents =
      reconcile_github_incidents env.now env.incident_id repository db.deployments db.incidents

  abbrev pub derived : Database
  derived = record db { links = derived_links; incidents = derived_incidents }

  -- The four metrics of a period, from the deployments, the links and the incidents so derived.
  abbrev pub metrics_of : Text → ℕ → ℕ → List Snapshot
  metrics_of g start end =
      let deployments = deployments_of repository db.deployments derived_incidents in
      let shipped = pr_deployments_of repository db.deployments derived_links db.pull_requests in
      let incidents = incidents_of repository db.deployments derived_incidents in
      with_dimensions counts (calculate_deployment_frequency start end g deployments)
      ∷ with_dimensions times (calculate_change_lead_time start end g shipped)
      ∷ with_dimensions times (calculate_recovery_time start end g incidents)
      ∷ with_dimensions failures (calculate_change_failure_rate start end g deployments)
      ∷ []

  -- One of the metrics of a day, a week or a month that the run is about.
  abbrev pub IsWanted : (Text → Result (List Bucket)) → Snapshot → Type 0
  IsWanted buckets x =
      (g : Text) × (bs : List Bucket) × (b : Bucket) × Among g
        (codes "DAY" ∷ codes "WEEK" ∷ codes "MONTH" ∷ [])
      × (buckets g ≡ ok bs)
      × Among b bs
      × Among x (metrics_of g b.0 b.1)

  abbrev pub HasDerived : Result ℕ × Database → Type 0
  HasDerived (result, d) = (d.links ≡ derived_links) × (d.incidents ≡ derived_incidents)
