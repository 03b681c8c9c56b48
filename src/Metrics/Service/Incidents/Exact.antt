-- ===== src/Metrics/Service/Incidents/Exact.antt =====
-- The incidents of a repository after `reconcile_github_incidents` of app/metrics/service.py.
use adept_engine.Base.{
  ℕ, ◌≡◌, ◌≤◌, refl, ap, Bool, true, false, Option, none, some, List, [], ◌∷◌, codes, ◌==◌,
  if◌then◌else◌, arith, All, All-imp, Bool-cases, inl, inr, ==_iff,
}
use adept_engine.Base.Among.{true≢false_of, Among, All-Among}
use adept_engine.Base.Upsert.{absorb, merged, IsKey}
use adept_engine.Store.{DeploymentRow, IncidentRow}
use adept_engine.Metrics.Service.Incidents.{
  finish, is_recovery, before, earlier, recovery, id_of, finish_of, status_for, incident_for,
  same_id, same_failure, update_incident,
}

-- No deployment has the id of another.
abbrev pub DistinctIds : List DeploymentRow → Type 0
DistinctIds [] = Unit
DistinctIds (d ∷ ds) = All (λ e. (e.id == d.id) ≡ false) ds × DistinctIds ds

-- What the lateral join finds: nothing where no success came later, or the earliest that did.
abbrev pub IsEarliest : ℕ → ℕ → List DeploymentRow → Option DeploymentRow → Type 0
IsEarliest repository at ds none = All (λ d. is_recovery repository at d ≡ false) ds
IsEarliest repository at ds (some r) =
    (Among r ds × (is_recovery repository at r ≡ true))
    × All (λ d. is_recovery repository at d ≡ true → finish r ≤ finish d) ds

before-true : (a b : DeploymentRow) → before a b ≡ true → finish a ≤ finish b
before-true a b h = ground arith

before-false : (a b : DeploymentRow) → before a b ≡ false → finish b ≤ finish a
before-false a b h = ground arith

module _ (repository at : ℕ) where
  choose :
      (d r : DeploymentRow) (ds : List DeploymentRow) (b : Bool)
      → before r d ≡ b
      → is_recovery repository at d ≡ true
      → IsEarliest repository at ds (some r)
      → IsEarliest repository at (d ∷ ds) (some (if b then r else d))
  choose d r ds true s e h = ((inr h.0.0, h.0.1), (λ _. before-true r d s, h.1))
  choose d r ds false s e h =
      let le = before-false r d s in
      (
        (inl refl, e),
        (λ _. omega arith, All-imp (λ x bound yes. omega (arith, bound yes, le)) ds h.1),
      )

  add_earliest :
      (d : DeploymentRow) (ds : List DeploymentRow) (o : Option DeploymentRow)
      → is_recovery repository at d ≡ true
      → IsEarliest repository at ds o
      → IsEarliest repository at (d ∷ ds) (some (earlier d o))
  add_earliest d ds none e h =
      ((inl refl, e), (λ _. omega arith, All-imp (λ x no yes. absurd (true≢false_of yes no)) ds h))
  add_earliest d ds (some r) e h = choose d r ds (before r d) refl e h

  skip_earliest :
      (d : DeploymentRow) (ds : List DeploymentRow) (o : Option DeploymentRow)
      → is_recovery repository at d ≡ false
      → IsEarliest repository at ds o
      → IsEarliest repository at (d ∷ ds) o
  skip_earliest d ds none e h = (e, h)
  skip_earliest d ds (some r) e h = ((inr h.0.0, h.0.1), (λ yes. absurd (true≢false_of yes e), h.1))

  pub recovery-IsEarliest :
      (ds : List DeploymentRow) → IsEarliest repository at ds (recovery repository at ds)
  unfolding recovery
  recovery-IsEarliest [] = tt
  recovery-IsEarliest (d ∷ ds) = elim (Bool-cases (is_recovery repository at d)) [
    | inl e ↦ rw e (add_earliest d ds (recovery repository at ds) e (recovery-IsEarliest ds))
    | inr e ↦ rw e (skip_earliest d ds (recovery repository at ds) e (recovery-IsEarliest ds))
  ]

-- What a row about a failed deployment says, its id and its bookkeeping apart.
abbrev pub Describes : List DeploymentRow → DeploymentRow → IncidentRow → Type 0
Describes ds f i =
    (((i.workspace_id ≡ f.workspace_id) × (i.repository_id ≡ f.repository_id))
      × ((i.source ≡ codes "GITHUB") × (i.failed_deployment_id ≡ some f.id)))
    × ((i.detected_at ≡ finish f)
        × ((r : Option DeploymentRow) × IsEarliest f.repository_id (finish f) ds r
            × (i.status ≡ status_for r)
            × (i.recovery_deployment_id ≡ id_of r)
            × (i.resolved_at ≡ finish_of r)))

abbrev pub IsDescribed : List DeploymentRow → DeploymentRow → Option IncidentRow → Type 0
IsDescribed ds f none = ⊥
IsDescribed ds f (some i) = Describes ds f i

module _ (now : ℕ) (new_id : ℕ → ℕ) (ds : List DeploymentRow) where
  pub incident_for-Describes : (f : DeploymentRow) → Describes ds f (incident_for now new_id ds f)
  unfolding incident_for
  incident_for-Describes f =
      let r = recovery f.repository_id (finish f) ds in
      (
        ((refl, refl), (refl, refl)),
        (refl, (r, recovery-IsEarliest f.repository_id (finish f) ds, refl, refl, refl)),
      )

  update-Describes :
      (f : DeploymentRow) (old e : IncidentRow)
      → Describes ds f e
      → old.failed_deployment_id ≡ some f.id
      → Describes ds f (update_incident old e)
  update-Describes f old e h k = (((h.0.0.0, h.0.0.1), (h.0.1.0, k)), h.1)

pub same_id_sound : (a b : Option ℕ) → same_id a b ≡ true → a ≡ b
same_id_sound a none h = absurd (ground arith)
same_id_sound none (some j) h = absurd (ground arith)
same_id_sound (some i) (some j) h = ap some ((==_iff i j).0 h)

same_id_flip : (a b : Option ℕ) → same_id a b ≡ true → same_id b a ≡ true
same_id_flip a none h = absurd (ground arith)
same_id_flip none (some j) h = absurd (ground arith)
same_id_flip (some i) (some j) h = ground arith

pub failures_are_keys : IsKey same_failure update_incident
failures_are_keys = record {
  flip = λ a b h. same_id_flip a.failed_deployment_id b.failed_deployment_id h;
  agree = λ a b c h.
      ap (λ i. same_id i c.failed_deployment_id)
        (same_id_sound a.failed_deployment_id b.failed_deployment_id h);
  kept = λ x old e h. refl;
}

abbrev pub IsAbout : DeploymentRow → Option IncidentRow → Type 0
IsAbout f none = Unit
IsAbout f (some i) = i.failed_deployment_id ≡ some f.id

module _ (ds : List DeploymentRow) (f : DeploymentRow) (x : IncidentRow) where
  abbrev pub Fits : IncidentRow → Type 0
  Fits e = same_failure x e ≡ true → Describes ds f e

  merged-IsDescribed :
      (o : Option IncidentRow) (e : IncidentRow)
      → IsAbout f o
      → Describes ds f e
      → IsDescribed ds f (some (merged same_failure update_incident o e))
  merged-IsDescribed none e a h = h
  merged-IsDescribed (some old) e a h = update-Describes 0 (λ i. i) ds f old e h a

  about : (o : Option IncidentRow) → IsDescribed ds f o → IsAbout f o
  about none h = tt
  about (some i) h = h.0.1.1

  absorb_keeps :
      (es : List IncidentRow) (o : Option IncidentRow)
      → All Fits es
      → IsDescribed ds f o
      → IsDescribed ds f (absorb same_failure update_incident x es o)
  absorb_keeps [] o h d = d
  absorb_keeps (e ∷ es) o h d = elim (Bool-cases (same_failure x e)) [
    | inl s ↦ rw s (absorb_keeps es _ h.1 (merged-IsDescribed o e (about o d) (h.0 s)))
    | inr s ↦ rw s (absorb_keeps es o h.1 d)
  ]

  pub absorb_hits :
      (es : List IncidentRow) (o : Option IncidentRow) (e : IncidentRow)
      → All Fits es
      → IsAbout f o
      → Among e es
      → same_failure x e ≡ true
      → IsDescribed ds f (absorb same_failure update_incident x es o)
  absorb_hits [] o e h a m t = absurd m
  absorb_hits (e' ∷ es) o e h a m t = elim (Bool-cases (same_failure x e')) [
    | inl s ↦ rw s (absorb_keeps es _ h.1 (merged-IsDescribed o e' a (h.0 s)))
    | inr s ↦ rw s (absorb_hits es o e h.1 a (later m s) t)
  ]
    where
      later : Among e (e' ∷ es) → same_failure x e' ≡ false → Among e es
      later (inl q) s = absurd (true≢false_of t (rw (← q) s))
      later (inr n) s = n

pub only_one :
    (ds : List DeploymentRow) (f : DeploymentRow)
    → DistinctIds ds
    → Among f ds
    → All (λ d. (d.id == f.id) ≡ true → d ≡ f) ds
only_one [] f u m = tt
only_one (d ∷ ds) f u (inl q) =
    (λ _. q, All-imp (λ e no yes. absurd (true≢false_of yes (rw (← q) no))) ds u.0)
only_one (d ∷ ds) f u (inr m) = (
  λ yes.
      absurd
        (true≢false_of yes (ground (arith, All-Among (λ e. (e.id == d.id) ≡ false) f ds u.0 m))),
  only_one ds f u.1 m,
)
