-- ===== src/Risk/Outcomes/Risky.antt =====
-- Which pull requests app/risk/outcomes.py labels risky.
use adept_engine.Base.{
  ℕ, ◌≡◌, ◌≤◌, refl, ap, sym, ◌∙◌, subst, Bool, true, Option, none, some, List, [], ◌∷◌, Text,
  codes, same, arith, All, ◌⊎◌, inl, inr, ◌↔◌, ==_iff, ||-iff, &&-iff, same_iff, some_inj,
}
use adept_engine.Base.Among.{Among}
use adept_engine.Jobs.Errors.{ok}
use adept_engine.Metrics.Snapshot.{upper}
use adept_engine.Risk.Stamp.{Stamp}
use adept_engine.Risk.Matching.{Cursor, search_revert, search_hotfix, is_part, decimal}
use adept_engine.Risk.Outcomes.{
  LaterPr, Deployment, Incident, Outcome, is_revert, is_hotfix, is_revert_match, is_hotfix_match,
  refers_to, is_failure, upper_status, observed, observed_until, evaluate_pr_outcome,
}
use adept_engine.Risk.Outcomes.Evidence.{
  is_readable, holds_at, any, later_evidence, deployment_evidence, incident_evidence, any_evidence,
  evaluate_pr_outcome_any,
}

module _ {A : Type 0} (p : A → Bool) (P : A → Type 0) (iff : (x : A) → (p x ≡ true) ↔ P x) where
  any_sound : (xs : List A) → any p xs ≡ true → (x : A) × Among x xs × P x
  any_sound [] h = absurd (ground arith)
  any_sound (y ∷ xs) h = elim ((||-iff (p y) (any p xs) (iff y) (λ e. e, λ e. e)).0 h) [
    | inl k ↦ (y, inl refl, k)
    | inr k ↦ let (x, m, q) = any_sound xs k in (x, inr m, q)
  ]

  any_complete : (x : A) (xs : List A) → Among x xs → P x → any p xs ≡ true
  any_complete x [] m q = absurd m
  any_complete x (y ∷ xs) (inl e) q =
      (||-iff (p y) (any p xs) (iff y) (λ k. k, λ k. k)).1 (inl (subst P (sym e) q))
  any_complete x (y ∷ xs) (inr m) q =
      (||-iff (p y) (any p xs) (iff y) (λ k. k, λ k. k)).1 (inr (any_complete x xs m q))

  any_iff : (xs : List A) → (any p xs ≡ true) ↔ ((x : A) × Among x xs × P x)
  any_iff xs = (any_sound xs, λ (x, m, q). any_complete x xs m q)

instant_inj : (a b : ℕ) → Stamp.instant a ≡ Stamp.instant b → a ≡ b
instant_inj a b h = cc

holds_iff :
    (p : ℕ → Bool) (P : ℕ → Type 0)
    → ((at : ℕ) → (p at ≡ true) ↔ P at)
    → (s : Stamp) → (holds_at p s ≡ true) ↔ ((at : ℕ) × (s ≡ Stamp.instant at) × P at)
holds_iff p P iff Stamp.missing = (λ h. absurd (ground arith), λ (at, e, q). absurd (ground arith))
holds_iff p P iff Stamp.malformed =
    (λ h. absurd (ground arith), λ (at, e, q). absurd (ground arith))
holds_iff p P iff (Stamp.instant t) =
    (λ h. (t, refl, (iff t).0 h), λ (at, e, q). (iff t).1 (subst P (sym (instant_inj t at e)) q))

module _ (number : ℕ) where
  -- The title matches the revert pattern, which captures the number as its reference, or the digits of
  -- the number occur somewhere in the title, within a greater number too.
  abbrev pub IsTakenForRevert : Text → Type 0
  IsTakenForRevert title =
      (c : Cursor) × (search_revert title ≡ some c)
      × ((c.group ≡ some number) ⊎ (is_part (decimal number) title ≡ true))

  -- The title matches the hotfix pattern, which captures the number as its reference.
  abbrev pub IsTakenForHotfix : Text → Type 0
  IsTakenForHotfix title = (c : Cursor) × (search_hotfix title ≡ some c) × (c.group ≡ some number)

  refers_iff : (o : Option ℕ) → (refers_to number o ≡ true) ↔ (o ≡ some number)
  refers_iff none = (λ h. absurd (ground arith), λ e. absurd (ground arith))
  refers_iff (some n) =
      (λ h. ap some ((==_iff n number).0 h), λ e. (==_iff n number).1 (some_inj e))

  revert_match_iff :
      (title : Text) (o : Option Cursor)
      → (is_revert_match number title o ≡ true) ↔ (
          (c : Cursor) × (o ≡ some c)
          × ((c.group ≡ some number) ⊎ (is_part (decimal number) title ≡ true)))
  revert_match_iff title none = (λ h. absurd (ground arith), λ (c, e, q). absurd (ground arith))
  revert_match_iff title (some c) =
      let iff =
        ||-iff (refers_to number c.group) (is_part (decimal number) title) (refers_iff c.group)
          (λ e. e, λ e. e) in
      (
        λ h. (c, refl, iff.0 h),
        λ (d, e, q). iff.1 (
            subst (λ x. (x.group ≡ some number) ⊎ (is_part (decimal number) title ≡ true))
              (sym (some_inj e)) q),
      )

  hotfix_match_iff :
      (o : Option Cursor)
      → (is_hotfix_match number o ≡ true) ↔ ((c : Cursor) × (o ≡ some c) × (c.group ≡ some number))
  hotfix_match_iff none = (λ h. absurd (ground arith), λ (c, e, q). absurd (ground arith))
  hotfix_match_iff (some c) = (
    λ h. (c, refl, (refers_iff c.group).0 h),
    λ (d, e, q).
        (refers_iff c.group).1 (subst (λ (x : Cursor). x.group ≡ some number) (sym (some_inj e)) q),
  )

  revert_iff : (pr : LaterPr) → (is_revert number pr ≡ true) ↔ IsTakenForRevert pr.title
  unfolding is_revert
  revert_iff pr = revert_match_iff pr.title (search_revert pr.title)

  hotfix_iff : (pr : LaterPr) → (is_hotfix number pr ≡ true) ↔ IsTakenForHotfix pr.title
  unfolding is_hotfix
  hotfix_iff pr = hotfix_match_iff (search_hotfix pr.title)

-- A deployment to production with the status FAILURE, in any case of letters.
abbrev pub HasFailed : Deployment → Type 0
HasFailed dep =
    (dep.is_production ≡ true) × ((s : Text) × (dep.status ≡ some s) × (upper s ≡ codes "FAILURE"))

status_iff :
    (o : Option Text)
    → (same (upper_status o) (codes "FAILURE") ≡ true)
      ↔ ((s : Text) × (o ≡ some s) × (upper s ≡ codes "FAILURE"))
unfolding same
status_iff none = (λ h. absurd (ground arith), λ (s, e, q). absurd (ground arith))
status_iff (some t) = (
  λ h. (t, refl, (same_iff (upper t) (codes "FAILURE")).0 h),
  λ (s, e, q).
      (same_iff (upper t) (codes "FAILURE")).1
        (subst (λ x. upper x ≡ codes "FAILURE") (sym (some_inj e)) q),
)

failure_iff : (dep : Deployment) → (is_failure dep ≡ true) ↔ HasFailed dep
failure_iff dep =
    &&-iff dep.is_production (same (upper_status dep.status) (codes "FAILURE")) (λ e. e, λ e. e)
      (status_iff dep.status)

module _ (number merged until : ℕ) where
  observed_iff :
      (at : ℕ) → (observed number merged until at ≡ true) ↔ ((merged ≤ at) × (at ≤ until))
  observed_iff at = ground arith

  abbrev pub IsObserved : Stamp → Type 0 → Type 0
  IsObserved s E = (at : ℕ) × (s ≡ Stamp.instant at) × (((merged ≤ at) × (at ≤ until)) × E)

  later_iff :
      (pr : LaterPr)
      → (later_evidence number merged until pr ≡ true)
        ↔ IsObserved pr.opened_at
            (IsTakenForRevert number pr.title ⊎ IsTakenForHotfix number pr.title)
  later_iff pr =
      holds_iff _ _
        (λ at. &&-iff (observed number merged until at) _ (observed_iff at) (
          ||-iff (is_revert number pr) (is_hotfix number pr) (revert_iff number pr)
            (hotfix_iff number pr)))
        pr.opened_at

  deployment_iff :
      (dep : Deployment)
      → (deployment_evidence number merged until dep ≡ true)
        ↔ IsObserved dep.finished_at (HasFailed dep)
  deployment_iff dep =
      holds_iff _ _
        (λ at. &&-iff (observed number merged until at) _ (observed_iff at) (failure_iff dep))
        dep.finished_at

  -- An incident says nothing more than when it was detected.
  incident_iff :
      (inc : Incident)
      → (incident_evidence number merged until inc ≡ true) ↔ IsObserved inc.detected_at Unit
  incident_iff inc =
      let iff =
        holds_iff (observed number merged until) (λ at. (merged ≤ at) × (at ≤ until)) observed_iff
          inc.detected_at in
      (λ h. let (at, e, q) = iff.0 h in (at, e, (q, tt)), λ (at, e, q). iff.1 (at, e, q.0))

  -- Some row is evidence.
  abbrev pub HasEvidence : List LaterPr → List Deployment → List Incident → Type 0
  HasEvidence prs deps incs =
      ((pr : LaterPr) × Among pr prs
        × IsObserved pr.opened_at
            (IsTakenForRevert number pr.title ⊎ IsTakenForHotfix number pr.title))
      ⊎ (((dep : Deployment) × Among dep deps × IsObserved dep.finished_at (HasFailed dep))
          ⊎ ((inc : Incident) × Among inc incs × IsObserved inc.detected_at Unit))

  evidence_iff :
      (prs : List LaterPr) (deps : List Deployment) (incs : List Incident)
      → (any_evidence number merged until prs deps incs ≡ true) ↔ HasEvidence prs deps incs
  evidence_iff prs deps incs =
      ||-iff (any (later_evidence number merged until) prs) _ (any_iff _ _ later_iff prs) (
        ||-iff (any (deployment_evidence number merged until) deps) _
          (any_iff _ _ deployment_iff deps) (any_iff _ _ incident_iff incs))

-- Where every timestamp can be read, the outcome of a merged pull request is risky if and only if, from
-- its merge to the end of the observation window, both included, a pull request was opened whose title
-- matches the revert pattern and either refers to its number or contains the digits of it anywhere
-- (within a greater number too), or whose title matches the hotfix pattern and refers to its number;
-- or a deployment to production finished with the status FAILURE; or an incident was detected.
pub evaluate_pr_outcome_risky :
    (number merged now window_days : ℕ) (prs : List LaterPr) (deps : List Deployment)
    (incs : List Incident)
    → All (λ (p : LaterPr). is_readable p.opened_at ≡ true) prs
    → All (λ (d : Deployment). is_readable d.finished_at ≡ true) deps
    → All (λ (i : Incident). is_readable i.detected_at ≡ true) incs
    → (o : Outcome) × (evaluate_pr_outcome number
          (Stamp.instant merged)
          now
          prs
          deps
          incs
          window_days
        ≡ ok o)
      × ((o.is_risky ≡ true)
          ↔ HasEvidence number merged (observed_until merged window_days) prs deps incs)
      × (o.merged_at ≡ some merged)
evaluate_pr_outcome_risky number merged now window_days prs deps incs h k l =
    let (o, e, r, m) = evaluate_pr_outcome_any number merged now window_days prs deps incs h k l in
    let iff = evidence_iff number merged (observed_until merged window_days) prs deps incs in
    (o, e, (λ t. iff.0 (sym r ∙ t), λ x. r ∙ iff.1 x), m)
