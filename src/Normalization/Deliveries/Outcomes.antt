-- ===== src/Normalization/Deliveries/Outcomes.antt =====
-- What a delivery of app/normalization/deployments.py leaves, whatever it is.
use adept_engine.Base.{
  ℕ, ◌≡◌, refl, ap, sym, ◌∙◌, subst, Bool, true, false, Option, none, some, List, [], ◌∷◌, ◌==◌,
  if◌then◌else◌, arith, Bool-cases, inl, inr, same_refl, ==_iff, some_inj,
}
use adept_engine.Base.Among.{true≢false_of}
use adept_engine.Base.Upsert.{first, upsert_one, first-upsert_one, merged}
use adept_engine.Jobs.Errors.{Result, ok, err}
use adept_engine.Store.{DeploymentRow}
use adept_engine.Metrics.Service.Incidents.{update_github_incident_lifecycle}
use adept_engine.Metrics.Service.Enqueue.Widens.{
  Range, asked, join, IsDatedRange, Waits, waiting_job, IsReady, enqueue_widens,
}
use adept_engine.Metrics.Service.Database.{Database, Environment}
use adept_engine.Normalization.Deployments.{
  same_deployment, merge_deployment, id_or_zero, run_upsert,
}
use adept_engine.Normalization.Deployments.Keys.{deployments_are_keys}
use adept_engine.Normalization.Deliveries.{
  WorkflowRun, lacks_branch, no_branch, outcome, is_terminal, workflow_row, enqueued, follow_up,
  normalize, upsert_deployment_from_workflow_run, DeploymentStatus, status_row,
  upsert_deployment_from_deployment_status,
}

found_by_id :
    (p : DeploymentRow → Bool) (t : List DeploymentRow) (r : DeploymentRow)
    → first p t ≡ some r
    → (d : DeploymentRow) × (first (λ d. d.id == r.id) t ≡ some d)
found_by_id p [] r h = absurd (ground arith)
found_by_id p (x ∷ t) r h = elim (Bool-cases (x.id == r.id)) [
  | inl e ↦ (x, rw e refl)
  | inr e ↦ elim (Bool-cases (p x)) [
    | inl s ↦
        let same_id : (x.id == r.id) ≡ true =
          (==_iff x.id r.id).1 (ap (λ (d : DeploymentRow). d.id) (some_inj (rw s at h))) in
        absurd (true≢false_of same_id e)
    | inr s ↦ let (d, f) = found_by_id p t r (rw s at h) in (d, rw e f)
  ]
]

-- The upsert leaves a row of its key.
run_upsert_found :
    (row : DeploymentRow) (t : List DeploymentRow)
    → (r : DeploymentRow) × (first (same_deployment row) (run_upsert row t).1 ≡ some r)
      × ((run_upsert row t).0 ≡ r.id)
unfolding run_upsert
run_upsert_found row t =
    let self : same_deployment row row ≡ true =
      rw (same_refl row.source, same_refl row.external_deployment_id) (ground arith) in
    let r = merged same_deployment merge_deployment (first (same_deployment row) t) row in
    let e : first (same_deployment row) (upsert_one same_deployment merge_deployment row t)
        ≡ some r =
      first-upsert_one deployments_are_keys row row t ∙ rw self refl in
    (r, e, ap id_or_zero e)

module _ (env : Environment) (new_id workspace repository : ℕ) where
  -- The request that a production deployment makes, on the waiting range `o`; no request otherwise.
  abbrev pub IsRequested : Bool → Range → Option ℕ → Database → Database → Type 0
  IsRequested false o finished db db' = db'.jobs ≡ db.jobs
  IsRequested true o finished db db' =
      (i : ℕ) × IsReady i env.now (join o (asked finished none)) (waiting_job repository db'.jobs)

  -- The row of the delivery's key exists, its id is returned, and a production deployment asks for a
  -- recalculation of its finish time.
  abbrev pub IsDeliveredAs :
      Bool → DeploymentRow → Range → Database → Result (Option ℕ) × Database → Type 0
  IsDeliveredAs production row o db (result, db') =
      (r : DeploymentRow) × (first (same_deployment row) db'.deployments ≡ some r)
      × (result ≡ ok (some r.id))
      × IsRequested production o row.finished_at db db'

  abbrev pub IsDelivered : DeploymentRow → Range → Database → Result (Option ℕ) × Database → Type 0
  IsDelivered row o db r = IsDeliveredAs row.is_production row o db r

  stored : Database → List DeploymentRow → Database
  stored db deployments = record db { deployments = deployments }

  enqueue-IsRequested :
      (row : DeploymentRow) (o : Range) (db : Database)
      → IsDatedRange o
      → IsDatedRange (asked row.finished_at none)
      → Waits (waiting_job repository db.jobs) o
      → IsRequested true o row.finished_at db
          (enqueued env new_id workspace repository row.finished_at db)
  enqueue-IsRequested row o db d e w = (
    _,
    enqueue_widens env.now env.job_id env.max_attempts workspace repository row.finished_at none o
        db.jobs d e w,
  )

  branch :
      (b : Bool) (row : DeploymentRow) (o : Range) (db : Database)
      (deployments : List DeploymentRow) (r : DeploymentRow)
      → IsDatedRange o
      → IsDatedRange (asked row.finished_at none)
      → Waits (waiting_job repository db.jobs) o
      → first (same_deployment row) deployments ≡ some r
      → IsDeliveredAs b row o db (
          if b
          then follow_up env new_id workspace repository r.id row.finished_at
              (stored db deployments)
          else (ok (some r.id), stored db deployments))
  unfolding stored update_github_incident_lifecycle
  branch false row o db deployments r d e w found = (r, found, refl, refl)
  branch true row o db deployments r d e w found =
      let (by_id, f) = found_by_id (same_deployment row) deployments r found in
      rw f (r, found, refl, enqueue-IsRequested row o db d e w)

  normalize-IsDelivered :
      (row : DeploymentRow) (o : Range) (db : Database)
      → IsDatedRange o
      → IsDatedRange (asked row.finished_at none)
      → Waits (waiting_job repository db.jobs) o
      → IsDelivered row o db (normalize env new_id workspace repository row db)
  unfolding normalize stored
  normalize-IsDelivered row o db d e w =
      let (r, found, id) = run_upsert_found row db.deployments in
      let deployments = (run_upsert row db.deployments).1 in
      subst
        (λ k. IsDeliveredAs row.is_production row o db (
          if row.is_production
          then follow_up env new_id workspace repository k row.finished_at (stored db deployments)
          else (ok (some k), stored db deployments)))
        (sym id) (branch row.is_production row o db deployments r d e w found)

  -- A completed workflow run with another conclusion than success or failure changes nothing. One
  -- with such a conclusion whose default branch is null, where no branch patterns are configured and
  -- there is a head branch, raises and changes nothing. Any other one returns the id of the row of its key, and if it counts as production a job
  -- waits to recalculate the time that waited already (before the year 10000) widened by its finish
  -- time; otherwise the jobs are as they were.
  pub workflow_run_outcome :
      (run : WorkflowRun) (o : Range) (db : Database)
      → IsDatedRange o
      → IsDatedRange (
          asked
            (workflow_row env new_id workspace repository (db.settings repository) run).finished_at
            none)
      → Waits (waiting_job repository db.jobs) o
      → (if is_terminal (outcome run.conclusion)
          then if lacks_branch (db.settings repository) run
            then upsert_deployment_from_workflow_run env new_id workspace repository run db
              ≡ (err no_branch, db)
            else IsDelivered
                (workflow_row env new_id workspace repository (db.settings repository) run)
                o
                db
                (upsert_deployment_from_workflow_run env new_id workspace repository run db)
          else upsert_deployment_from_workflow_run env new_id workspace repository run db
            ≡ (ok none, db))
  unfolding upsert_deployment_from_workflow_run
  workflow_run_outcome run o db d e w = elim (Bool-cases (is_terminal (outcome run.conclusion))) [
    | inl t ↦ elim (Bool-cases (lacks_branch (db.settings repository) run)) [
      | inl n ↦ rw t (rw n refl)
      | inr n ↦ rw t (
          rw n (
            normalize-IsDelivered
              (workflow_row env new_id workspace repository (db.settings repository) run) o db d e
              w))
    ]
    | inr t ↦ rw t refl
  ]

  -- The same for a deployment status.
  pub deployment_status_outcome :
      (event : DeploymentStatus) (o : Range) (db : Database)
      → IsDatedRange o
      → IsDatedRange (
          asked
            (status_row env new_id workspace repository (db.settings repository) event).finished_at
            none)
      → Waits (waiting_job repository db.jobs) o
      → (if is_terminal (outcome event.state)
          then IsDelivered
              (status_row env new_id workspace repository (db.settings repository) event)
              o
              db
              (upsert_deployment_from_deployment_status env new_id workspace repository event db)
          else upsert_deployment_from_deployment_status env new_id workspace repository event db
            ≡ (ok none, db))
  unfolding upsert_deployment_from_deployment_status
  deployment_status_outcome event o db d e w =
      elim (Bool-cases (is_terminal (outcome event.state))) [
        | inl t ↦ rw t (
            normalize-IsDelivered
              (status_row env new_id workspace repository (db.settings repository) event) o db d e
              w)
        | inr t ↦ rw t refl
      ]
