-- ===== src/Risk/Outcomes/Evidence.antt =====
-- The outcomes of app/risk/outcomes.py against the evidence of each row by itself.
use adept_engine.Base.{
  ℕ, ◌≡◌, refl, Bool, true, false, ◌&&◌, ◌||◌, Option, none, some, List, [], ◌∷◌, arith, All,
  is_some, subst, sym, ◌∙◌,
}
use adept_engine.Jobs.Errors.{Result, ok}
use adept_engine.Risk.Stamp.{Stamp}
use adept_engine.Risk.Outcomes.{
  LaterPr, Deployment, Incident, Reason, Outcome, is_revert, is_hotfix, is_failure, observed,
  later_reason, deployment_reason, incident_reason, or_next, at_stamp, first_reason, or_check,
  conclude, observed_until, checks, evaluate_pr_outcome,
}

abbrev pub is_readable : Stamp → Bool
is_readable Stamp.malformed = false
is_readable _ = true

-- The stamp is an instant that passes the test.
abbrev pub holds_at : (ℕ → Bool) → Stamp → Bool
holds_at p Stamp.missing = false
holds_at p Stamp.malformed = false
holds_at p (Stamp.instant at) = p at

abbrev pub any : {A : Type 0} → (A → Bool) → List A → Bool
any p [] = false
any p (x ∷ xs) = p x || any p xs

module _ (number merged until : ℕ) where
  -- The evidence of a later pull request, a deployment and an incident, on its own.
  abbrev pub later_evidence : LaterPr → Bool
  later_evidence pr =
      holds_at
        (λ at. observed number merged until at && (is_revert number pr || is_hotfix number pr))
        pr.opened_at

  abbrev pub deployment_evidence : Deployment → Bool
  deployment_evidence dep =
      holds_at (λ at. observed number merged until at && is_failure dep) dep.finished_at

  abbrev pub incident_evidence : Incident → Bool
  incident_evidence inc = holds_at (observed number merged until) inc.detected_at

-- A loop ends with a reason exactly where some row is evidence.
abbrev Finds : Bool → Result (Option Reason) → Type 0
Finds b r = (o : Option Reason) × (r ≡ ok o) × (is_some o ≡ b)

or_next-Finds :
    (o : Option Reason) (b : Bool) (rest : Result (Option Reason))
    → Finds b rest
    → Finds (is_some o || b) (or_next o rest)
or_next-Finds none b rest h = h
or_next-Finds (some r) b rest h = (some r, refl, refl)

module _ {A : Type 0} (stamp : A → Stamp) (reason : A → ℕ → Option Reason) where
  at_stamp-Finds :
      (s : Stamp) (x : A) (b : Bool) (rest : Result (Option Reason))
      → is_readable s ≡ true
      → Finds b rest
      → Finds (holds_at (λ at. is_some (reason x at)) s || b) (at_stamp stamp reason s x rest)
  at_stamp-Finds Stamp.missing x b rest r h = h
  at_stamp-Finds Stamp.malformed x b rest r h = absurd (ground arith)
  at_stamp-Finds (Stamp.instant at) x b rest r h = or_next-Finds (reason x at) b rest h

  first_reason-Finds :
      (xs : List A)
      → All (λ x. is_readable (stamp x) ≡ true) xs
      → Finds
          (any (λ x. holds_at (λ at. is_some (reason x at)) (stamp x)) xs)
          (first_reason stamp reason xs)
  first_reason-Finds [] h = (none, refl, refl)
  first_reason-Finds (x ∷ xs) h =
      at_stamp-Finds (stamp x) x (any (λ x. holds_at (λ at. is_some (reason x at)) (stamp x)) xs)
        (first_reason stamp reason xs) h.0 (first_reason-Finds xs h.1)

any-cong :
    {A : Type 0} (p q : A → Bool) → ((x : A) → p x ≡ q x) → (xs : List A) → any p xs ≡ any q xs
any-cong p q h [] = refl
any-cong p q h (x ∷ xs) = ground (arith, h x, any-cong p q h xs)

or_check-Finds :
    (b c : Bool) (r s : Result (Option Reason))
    → Finds b r
    → Finds c s
    → Finds (b || c) (or_check r s)
or_check-Finds b c r s (o, e, f) h =
    subst (λ x. Finds (x || c) (or_check r s)) f
      (subst (λ x. Finds (is_some o || c) (or_check x s)) (sym e) (or_next-Finds o c s h))

Finds-cong : (b c : Bool) (r : Result (Option Reason)) → b ≡ c → Finds b r → Finds c r
Finds-cong b c r e h = subst (λ x. Finds x r) e h

module _ (number merged until : ℕ) where
  later_same :
      (pr : LaterPr)
      → holds_at (λ at. is_some (later_reason number merged until pr at)) pr.opened_at
        ≡ later_evidence number merged until pr
  later_same pr = go pr.opened_at
    where
      go :
          (s : Stamp)
          → holds_at (λ at. is_some (later_reason number merged until pr at)) s
            ≡ holds_at
                (λ at.
                  observed number merged until at && (is_revert number pr || is_hotfix number pr))
                s
      go Stamp.missing = refl
      go Stamp.malformed = refl
      go (Stamp.instant at) = ground arith

  deployment_same :
      (dep : Deployment)
      → holds_at (λ at. is_some (deployment_reason number merged until dep at)) dep.finished_at
        ≡ deployment_evidence number merged until dep
  deployment_same dep = go dep.finished_at
    where
      go :
          (s : Stamp)
          → holds_at (λ at. is_some (deployment_reason number merged until dep at)) s
            ≡ holds_at (λ at. observed number merged until at && is_failure dep) s
      go Stamp.missing = refl
      go Stamp.malformed = refl
      go (Stamp.instant at) = ground arith

  incident_same :
      (inc : Incident)
      → holds_at (λ at. is_some (incident_reason number merged until inc at)) inc.detected_at
        ≡ incident_evidence number merged until inc
  incident_same inc = go inc.detected_at
    where
      go :
          (s : Stamp)
          → holds_at (λ at. is_some (incident_reason number merged until inc at)) s
            ≡ holds_at (observed number merged until) s
      go Stamp.missing = refl
      go Stamp.malformed = refl
      go (Stamp.instant at) = ground arith

  module _ (prs : List LaterPr) (deps : List Deployment) (incs : List Incident) where
    -- Some row is evidence.
    abbrev pub any_evidence : Bool
    any_evidence =
        any (later_evidence number merged until) prs
        || (any (deployment_evidence number merged until) deps
            || any (incident_evidence number merged until) incs)

    checks-Finds :
        All (λ (p : LaterPr). is_readable p.opened_at ≡ true) prs
        → All (λ (d : Deployment). is_readable d.finished_at ≡ true) deps
        → All (λ (i : Incident). is_readable i.detected_at ≡ true) incs
        → Finds any_evidence (checks number merged until prs deps incs)
    checks-Finds h k l =
        let later = λ (p : LaterPr).
          holds_at (λ at. is_some (later_reason number merged until p at)) p.opened_at in
        let failed = λ (d : Deployment).
          holds_at (λ at. is_some (deployment_reason number merged until d at)) d.finished_at in
        let broken = λ (i : Incident).
          holds_at (λ at. is_some (incident_reason number merged until i at)) i.detected_at in
        let found =
          first_reason (λ (p : LaterPr). p.opened_at) (later_reason number merged until) prs in
        let found' =
          first_reason (λ (d : Deployment). d.finished_at) (deployment_reason number merged until)
            deps in
        let found'' =
          first_reason (λ (i : Incident). i.detected_at) (incident_reason number merged until)
            incs in
        or_check-Finds (any (later_evidence number merged until) prs)
          (any (deployment_evidence number merged until) deps
            || any (incident_evidence number merged until) incs)
          found (or_check found' found'')
          (Finds-cong (any later prs) (any (later_evidence number merged until) prs) found
            (any-cong later (later_evidence number merged until) later_same prs)
            (first_reason-Finds (λ (p : LaterPr). p.opened_at) (later_reason number merged until)
              prs h))
          (or_check-Finds (any (deployment_evidence number merged until) deps)
            (any (incident_evidence number merged until) incs) found' found''
            (Finds-cong (any failed deps) (any (deployment_evidence number merged until) deps)
              found'
              (any-cong failed (deployment_evidence number merged until) deployment_same deps)
              (first_reason-Finds (λ (d : Deployment). d.finished_at)
                (deployment_reason number merged until) deps k))
            (Finds-cong (any broken incs) (any (incident_evidence number merged until) incs) found''
              (any-cong broken (incident_evidence number merged until) incident_same incs)
              (first_reason-Finds (λ (i : Incident). i.detected_at)
                (incident_reason number merged until) incs l)))

conclude-is_risky :
    (merged until : ℕ) (o : Option Reason) → (conclude merged until o).is_risky ≡ is_some o
conclude-is_risky merged until none = refl
conclude-is_risky merged until (some r) = refl

conclude-merged_at :
    (merged until : ℕ) (o : Option Reason) → (conclude merged until o).merged_at ≡ some merged
conclude-merged_at merged until none = refl
conclude-merged_at merged until (some r) = refl

pub evaluate_pr_outcome_any :
    (number merged now window_days : ℕ) (prs : List LaterPr) (deps : List Deployment)
    (incs : List Incident)
    → All (λ (p : LaterPr). is_readable p.opened_at ≡ true) prs
    → All (λ (d : Deployment). is_readable d.finished_at ≡ true) deps
    → All (λ (i : Incident). is_readable i.detected_at ≡ true) incs
    → (o : Outcome) × (evaluate_pr_outcome number
          (Stamp.instant merged)
          now
          prs
          deps
          incs
          window_days
        ≡ ok o)
      × (o.is_risky ≡ any_evidence number merged (observed_until merged window_days) prs deps incs)
      × (o.merged_at ≡ some merged)
unfolding evaluate_pr_outcome
evaluate_pr_outcome_any number merged now window_days prs deps incs h k l =
    let until = observed_until merged window_days in
    let (r, e, f) = checks-Finds number merged until prs deps incs h k l in
    (
      conclude merged until r,
      rw e refl,
      conclude-is_risky merged until r ∙ f,
      conclude-merged_at merged until r,
    )
