-- ===== src/Metrics/Service/Recalculate/Stored.antt =====
-- What a run of `recalculate_repository_metrics` of app/metrics/service.py leaves in the tables.
use adept_engine.Base.{
  ℕ, suc, ◌+◌, ◌-◌, ◌*◌, ◌≡◌, refl, ap, sym, subst, ◌∙◌, true, Option, none, some, List, [], ◌∷◌,
  Text, codes, same, is_some, ltb, length, arith, All, All-imp, ◌==◌, Bool-cases, inl, inr,
}
use adept_engine.Base.Among.{Among, All-Among}
use adept_engine.Base.Upsert.{first, IsHeld}
use adept_engine.Values.Json.{Fields}
use adept_engine.Jobs.Errors.{Result, ok}
use adept_engine.Jobs.Row.{Row}
use adept_engine.Jobs.Table.{Table}
use adept_engine.Metrics.Buckets.{day_length}
use adept_engine.Metrics.CycleTime.{PullRequest}
use adept_engine.Alerts.Enqueue.{
  awaits_evaluation, evaluation_job, add_unless, enqueue_evaluate_alerts_job,
}
use adept_engine.Metrics.Service.Snapshots.{
  Snapshot, SnapshotRow, same_snapshot, update_snapshot, row_of, rows_from, upsert_snapshots,
}
use adept_engine.Metrics.Service.Snapshots.Stored.{
  HasValues, IsConsistent, same_period_sound, upsert_snapshots_stored,
}
use adept_engine.Metrics.Service.Database.{Database, Environment}
use adept_engine.Metrics.Service.Recalculate.{
  Inputs, or_default, inputs_of, rebuild, calculated, enqueue_alerts, store, in_timezone,
  recalculate_repository_metrics,
}
use adept_engine.Metrics.Service.Recalculate.Specified.{
  specified, IsSpecified, AllOk, window, calculated-AllOk,
}

module _ (i : Inputs) (prs : List PullRequest) where
  -- Two specified snapshots with one key are one.
  specified-IsConsistent :
      (x e : Snapshot) → IsSpecified i prs x → IsSpecified i prs e → IsConsistent x e
  specified-IsConsistent x e p q = λ h.
      let (t, g, s, f, _) = same_period_sound x e h in
      p
      ∙ ap (λ a. specified i prs a x.granularity x.period_start x.period_end) t
      ∙ ap (λ a. specified i prs e.metric_type a x.period_start x.period_end) g
      ∙ ap (λ a. specified i prs e.metric_type e.granularity a x.period_end) s
      ∙ ap (λ a. specified i prs e.metric_type e.granularity e.period_start a) f
      ∙ sym q

length-rows_from :
    (now : ℕ) (new_id : ℕ → ℕ) (workspace repository i : ℕ) (ss : List Snapshot)
    → length (rows_from now new_id workspace repository i ss) ≡ length ss
length-rows_from now new_id workspace repository i [] = refl
length-rows_from now new_id workspace repository i (s ∷ ss) =
    omega (arith, length-rows_from now new_id workspace repository (suc i) ss)

upsert_snapshots-length :
    (now : ℕ) (new_id : ℕ → ℕ) (workspace repository : ℕ) (ss : List Snapshot)
    (t : List SnapshotRow)
    → (upsert_snapshots now new_id workspace repository ss t).0 ≡ length ss
unfolding upsert_snapshots
upsert_snapshots-length now new_id workspace repository [] t = refl
upsert_snapshots-length now new_id workspace repository (s ∷ ss) t =
    length-rows_from now new_id workspace repository 0 (s ∷ ss)

module _ (now new_id max_attempts workspace repository : ℕ) (trigger : Text) where
  awaits_added :
      (t : Table Fields) (o : Option (Row Fields))
      → first (awaits_evaluation repository) t ≡ o
      → is_some (
          first
            (awaits_evaluation repository)
            (add_unless o
              (evaluation_job now new_id max_attempts workspace repository trigger)
              t).1)
        ≡ true
  unfolding evaluation_job same
  awaits_added t none e = let k : (repository == repository) ≡ true = ground arith in rw k refl
  awaits_added t (some r) e = rw e refl

  -- After a request a job waits to evaluate the alerts of the repository.
  pub enqueue_evaluate_alerts_job_waits :
      (t : Table Fields)
      → is_some (
          first
            (awaits_evaluation repository)
            (enqueue_evaluate_alerts_job now new_id max_attempts workspace repository trigger t).1)
        ≡ true
  unfolding enqueue_evaluate_alerts_job
  enqueue_evaluate_alerts_job_waits t = awaits_added t (first (awaits_evaluation repository) t) refl

-- What the fourth step has done with a list of snapshots, as to one of them: a job waits to evaluate
-- alerts, and the snapshot stands in the table with its values.
abbrev pub IsStored : Environment → ℕ → ℕ → List Snapshot → Snapshot → Result ℕ × Database → Type 0
IsStored env workspace repository snapshots x (result, db) =
    (result ≡ ok (length snapshots))
    × ((is_some (first (awaits_evaluation repository) db.jobs) ≡ true)
        × IsHeld same_snapshot update_snapshot
            (row_of env.now env.snapshot_id workspace repository 0 x) (HasValues x)
            (first (same_snapshot (row_of env.now env.snapshot_id workspace repository 0 x))
              db.snapshots))

length-Among : (x : Snapshot) (ss : List Snapshot) → Among x ss → ltb 0 (length ss) ≡ true
length-Among x [] m = absurd m
length-Among x (s ∷ ss) m = ground arith

module _ (env : Environment) (workspace repository : ℕ) where
  enqueue_alerts-snapshots :
      (count : ℕ) (db : Database)
      → (enqueue_alerts env workspace repository count db).snapshots ≡ db.snapshots
  enqueue_alerts-snapshots count db = elim (Bool-cases (ltb 0 count)) [
    | inl e ↦ rw e refl
    | inr e ↦ rw e refl
  ]

  enqueue_alerts-waits :
      (count : ℕ) (db : Database)
      → ltb 0 count ≡ true
      → is_some (
          first
            (awaits_evaluation repository)
            (enqueue_alerts env workspace repository count db).jobs)
        ≡ true
  enqueue_alerts-waits count db e = rw e (
      enqueue_evaluate_alerts_job_waits env.now env.job_id env.max_attempts workspace repository
        (codes "METRIC_SNAPSHOT") db.jobs)

  pub store-IsStored :
      (i : Inputs) (prs : List PullRequest) (db : Database) (snapshots : List Snapshot)
      (x : Snapshot)
      → All (IsSpecified i prs) snapshots
      → Among x snapshots
      → IsStored env workspace repository snapshots x
          (store env workspace repository db (ok snapshots))
  store-IsStored i prs db snapshots x h m =
      let rows =
        upsert_snapshots env.now env.snapshot_id workspace repository snapshots db.snapshots in
      let n =
        upsert_snapshots-length env.now env.snapshot_id workspace repository snapshots
          db.snapshots in
      let p = All-Among (IsSpecified i prs) x snapshots h m in
      let stored = record db { snapshots = rows.1 } in
      (
        ap ok n,
        (
          enqueue_alerts-waits rows.0 stored (ap (ltb 0) n ∙ length-Among x snapshots m),
          rw (enqueue_alerts-snapshots rows.0 stored) (
              upsert_snapshots_stored env.now env.snapshot_id workspace repository x snapshots
                db.snapshots (All-imp (λ e q. specified-IsConsistent i prs x e p q) snapshots h) m),
        ),
      )

  -- If the workspace has a timezone and the calculation of its periods succeeds, a recalculation
  -- returns the number of snapshots that it calculated on the rebuilt links and incidents, leaves a
  -- job that waits to evaluate the repository's alerts, and every snapshot that it calculated stands
  -- under its key with its values.
  pub recalculate_stores :
      (from_date to_date affected_from affected_to : Option ℕ) (db : Database) (timezone : Text)
      (snapshots : List Snapshot) (x : Snapshot)
      → db.timezone workspace ≡ some timezone
      → calculated env workspace repository
          (rebuild env workspace repository db)
          timezone
          (or_default from_date (env.now - 90 * day_length))
          (or_default to_date (env.now + day_length))
          affected_from
          affected_to
        ≡ ok snapshots
      → Among x snapshots
      → IsStored env workspace repository snapshots x (
          recalculate_repository_metrics env workspace repository from_date to_date affected_from
            affected_to db)
  unfolding recalculate_repository_metrics rebuild
  recalculate_stores from_date to_date affected_from affected_to db timezone snapshots x z c m =
      let r = rebuild env workspace repository db in
      let from = or_default from_date (env.now - 90 * day_length) in
      let to = or_default to_date (env.now + day_length) in
      let i = inputs_of env workspace repository r in
      let prs = window env workspace repository r timezone from to affected_from affected_to in
      let all : All (IsSpecified i prs) snapshots =
        subst (AllOk (IsSpecified i prs)) c (
          calculated-AllOk env workspace repository r timezone from to affected_from affected_to) in
      subst
        (λ o.
          IsStored env workspace repository snapshots x
            (in_timezone env workspace repository r o from to affected_from affected_to))
        (sym z)
        (subst
          (λ k. IsStored env workspace repository snapshots x (store env workspace repository r k))
          (sym c) (store-IsStored i prs r snapshots x all m))
