-- ===== src/Metrics/Service/Incidents/Reconcile.antt =====
-- What `reconcile_github_incidents` of app/metrics/service.py leaves in the table.
use adept_engine.Base.{
  ap, &&-true, same_iff, is_some, ==_iff, Bool, Bool-cases, ℕ, ◌≡◌, refl, sym, subst, true, false,
  ◌&&◌, not, Option, none, some, List, [], ◌∷◌, map, codes, ◌==◌, keep, same, arith, All, All-imp,
  All-map, All-both, inl, inr, not-true,
}
use adept_engine.Base.Among.{
  All-Among, Among, All-keep, All-keep_test, Among-keep, Among-map, Among-self,
}
use adept_engine.Base.Upsert.{first, first-true, first-upsert, All-upsert}
use adept_engine.Store.{DeploymentRow, IncidentRow}
use adept_engine.Metrics.Service.Incidents.{
  is_id, is_failed, incident_for, same_id, same_failure, update_incident, has_failure, is_orphan,
  reconcile_github_incidents,
}
use adept_engine.Metrics.Service.Incidents.Exact.{
  DistinctIds, only_one, Describes, IsDescribed, incident_for-Describes, same_id_sound,
  failures_are_keys, Fits, IsAbout, absorb_hits,
}

-- A failure in production, finished at some time.
abbrev pub IsFailure : ℕ → DeploymentRow → Type 0
IsFailure repository f =
    (f.repository_id ≡ repository)
    × ((f.is_production ≡ true) × ((f.status ≡ codes "FAILURE") × (is_some f.finished_at ≡ true)))

failed_sound :
    (repository : ℕ) (f : DeploymentRow) → is_failed repository f ≡ true → IsFailure repository f
failed_sound repository f h =
    let (r, q) = &&-true (f.repository_id == repository) _ h in
    let (p, s) = &&-true f.is_production _ q in
    let (k, o) = &&-true (same f.status (codes "FAILURE")) _ s in
    ((==_iff f.repository_id repository).0 r, (p, ((same_iff f.status (codes "FAILURE")).0 k, o)))

is_id_sound : (i : Option ℕ) (j : ℕ) → is_id i j ≡ true → i ≡ some j
is_id_sound none j h = absurd (ground arith)
is_id_sound (some i) j h = ap some ((==_iff i j).0 h)

-- The incident about a deployment.
abbrev pub incident_of : ℕ → List IncidentRow → Option IncidentRow
incident_of i t = first (λ x. same_id (some i) x.failed_deployment_id) t

module _ (now : ℕ) (new_id : ℕ → ℕ) (repository : ℕ) (ds : List DeploymentRow) where
  abbrev excluded : List IncidentRow
  excluded = map (incident_for now new_id ds) (keep (is_failed repository) ds)

  excluded_fit :
      (f : DeploymentRow)
      → DistinctIds ds
      → Among f ds
      → All (Fits ds f (incident_for now new_id ds f)) excluded
  unfolding incident_for
  excluded_fit f u m =
      All-map (Fits ds f (incident_for now new_id ds f)) (incident_for now new_id ds) _ (
        All-imp
          (λ d one s.
            subst (λ g. Describes ds g (incident_for now new_id ds d)) (one (flipped d s))
              (incident_for-Describes now new_id ds d))
          _ (All-keep _ (is_failed repository) ds (only_one ds f u m)))
    where
      flipped : (d : DeploymentRow) → (f.id == d.id) ≡ true → (d.id == f.id) ≡ true
      flipped d s = ground arith

  IsAbout-found :
      (f : DeploymentRow) (t : List IncidentRow) (o : Option IncidentRow)
      → incident_of f.id t ≡ o
      → IsAbout f o
  IsAbout-found f t none e = tt
  IsAbout-found f t (some i) e = sym (
      same_id_sound (some f.id) i.failed_deployment_id
        (first-true (λ x. same_id (some f.id) x.failed_deployment_id) t i e))

  -- Once incidents are reconciled with deployments, no two of which have one id, every deployment of
  -- the repository that failed in production has an incident of the provider, opened when it finished
  -- and resolved by the earliest recovery after it, if there is one.
  pub reconcile_describes :
      (incidents : List IncidentRow) (f : DeploymentRow)
      → DistinctIds ds
      → Among f ds
      → is_failed repository f ≡ true
      → IsDescribed ds f
          (incident_of f.id (reconcile_github_incidents now new_id repository ds incidents))
  unfolding reconcile_github_incidents incident_for
  reconcile_describes incidents f u m h =
      let t = keep (λ i. not (is_orphan repository ds i)) incidents in
      let x = incident_for now new_id ds f in
      rw (first-upsert failures_are_keys x excluded t) (
        absorb_hits ds f x excluded (incident_of f.id t) x (excluded_fit f u m)
          (IsAbout-found f t (incident_of f.id t) refl)
          (Among-map (incident_for now new_id ds) f _ (Among-keep (is_failed repository) f ds m h))
          (ground arith))

  has_failure-true :
      (f : DeploymentRow) (es : List DeploymentRow)
      → Among f es
      → is_failed repository f ≡ true
      → has_failure repository (some f.id) es ≡ true
  has_failure-true f [] m h = absurd m
  has_failure-true f (e ∷ es) (inl q) h = rw q (rw h (ground arith))
  has_failure-true f (e ∷ es) (inr m) h = rw (has_failure-true f es m h) (ground arith)

  abbrev IsGrounded : IncidentRow → Type 0
  IsGrounded i = is_orphan repository ds i ≡ false

  excluded-IsGrounded : All IsGrounded excluded
  unfolding incident_for
  excluded-IsGrounded = All-map IsGrounded (incident_for now new_id ds) _ (
      All-imp (λ f h. ground (arith, has_failure-true f ds h.0 h.1)) _
        (All-both (λ d. Among d ds) (λ d. is_failed repository d ≡ true) _
          (All-keep (λ d. Among d ds) (is_failed repository) ds (Among-self ds))
          (All-keep_test (is_failed repository) ds)))

  merge-IsGrounded :
      (old e : IncidentRow)
      → IsGrounded old
      → IsGrounded e
      → same_failure e old ≡ true
      → IsGrounded (update_incident old e)
  merge-IsGrounded old e o p s =
      subst
        (λ i.
          (e.repository_id == repository
            && (same e.source (codes "GITHUB") && not (has_failure repository i ds)))
          ≡ false)
        (same_id_sound e.failed_deployment_id old.failed_deployment_id s) p

  reconcile-IsGrounded :
      (incidents : List IncidentRow)
      → All IsGrounded (reconcile_github_incidents now new_id repository ds incidents)
  unfolding reconcile_github_incidents
  reconcile-IsGrounded incidents =
      All-upsert same_failure update_incident IsGrounded merge-IsGrounded excluded _
        excluded-IsGrounded
        (All-imp (λ i h. not-true _ h) _
          (All-keep_test (λ i. not (is_orphan repository ds i)) incidents))

  grounded_sound :
      (i : Option ℕ) (es : List DeploymentRow)
      → has_failure repository i es ≡ true
      → (f : DeploymentRow) × Among f es × (i ≡ some f.id) × IsFailure repository f
  grounded_sound i [] h = absurd (ground arith)
  grounded_sound i (e ∷ es) h = elim (Bool-cases (is_id i e.id && is_failed repository e)) [
    | inl k ↦
        let (s, f) = &&-true (is_id i e.id) _ k in
        (e, inl refl, is_id_sound i e.id s, failed_sound repository e f)
    | inr k ↦ let (f, m, s, failed) = grounded_sound i es (rw k at h) in (f, inr m, s, failed)
  ]

  -- Every incident of the provider that is left in the repository, whatever incidents there were and
  -- whether or not any deployment failed, is about a deployment that stands in the table as a finished
  -- failure in production of this repository.
  pub reconcile_grounded :
      (incidents : List IncidentRow) (i : IncidentRow)
      → Among i (reconcile_github_incidents now new_id repository ds incidents)
      → i.repository_id ≡ repository
      → i.source ≡ codes "GITHUB"
      → (f : DeploymentRow) × Among f ds
        × (i.failed_deployment_id ≡ some f.id)
        × IsFailure repository f
  reconcile_grounded incidents i m own github =
      let grounded : IsGrounded i = All-Among IsGrounded i _ (reconcile-IsGrounded incidents) m in
      grounded_sound i.failed_deployment_id ds
        (found i own github (has_failure repository i.failed_deployment_id ds) grounded)
    where
      found :
          (i : IncidentRow)
          → i.repository_id ≡ repository
          → i.source ≡ codes "GITHUB"
          → (b : Bool)
          → (i.repository_id == repository && (same i.source (codes "GITHUB") && not b)) ≡ false
          → b ≡ true
      found i own github true h = refl
      found i own github false h =
          absurd (ground (arith, own, (same_iff i.source (codes "GITHUB")).1 github, h))
