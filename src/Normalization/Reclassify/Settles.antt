-- ===== src/Normalization/Reclassify/Settles.antt =====
-- What a run of `reclassify_repository_deployments` of app/normalization/deployments.py decides.
use adept_engine.Base.{
  ℕ, ◌+◌, ◌≡◌, ◌≢◌, refl, Bool, true, false, ◌&&◌, List, [], ◌∷◌, map, Text, codes, ◌==◌, same,
  arith, Bool-cases, ◌⊎◌, inl, inr, ==_iff, &&-true, same_iff, subst, sym,
}
use adept_engine.Values.Json.{get}
use adept_engine.Store.{DeploymentRow}
use adept_engine.Normalization.Patterns.{
  Settings, is_production_workflow, is_production_environment,
}
use adept_engine.Normalization.Deliveries.{or_empty}
use adept_engine.Normalization.Reclassify.{
  text_or, selected_signal, workflow_data, classify, differ, differ-false, reclassified,
  reclassify_repository_deployments, settled, reclassify-not_stale,
}

module _ (default_branch : Text) (settings : Settings) (d : DeploymentRow) where
  -- The repository counts workflow runs, and the deployment is one; the same of deployment events.
  abbrev pub IsSelectedRun : Type 0
  IsSelectedRun =
      (selected_signal settings.deployment_signal ≡ codes "WORKFLOW_RUN")
      × (d.source ≡ codes "GITHUB_WORKFLOW")

  abbrev pub IsSelectedEvent : Type 0
  IsSelectedEvent =
      (selected_signal settings.deployment_signal ≡ codes "DEPLOYMENT")
      × (d.source ≡ codes "GITHUB_DEPLOYMENT")

  -- What the deployment counts as: a selected run by the patterns of branches and workflow names, a
  -- selected event by those of environments; a manual one as before; any other not as production.
  abbrev pub Counts : Bool → Type 0
  Counts production =
      (IsSelectedRun
        × (production
            ≡ is_production_workflow
                (text_or (get (codes "name") (workflow_data d)) (or_empty d.environment))
                (text_or (get (codes "head_branch") (workflow_data d)) []) default_branch settings))
      ⊎ ((IsSelectedEvent
            × (production ≡ is_production_environment (or_empty d.environment) settings))
          ⊎ (((d.source ≡ codes "MANUAL") × (production ≡ d.is_production))
              ⊎ ((¬ IsSelectedRun)
                  × (¬ IsSelectedEvent)
                  × (d.source ≢ codes "MANUAL")
                  × (production ≡ false))))

  both : (a b c e : Text) → (same a b && same c e) ≡ true → (a ≡ b) × (c ≡ e)
  both a b c e h =
      let (p, q) = &&-true (same a b) (same c e) h in ((same_iff a b).0 p, (same_iff c e).0 q)

  not_both : (a b c e : Text) → (same a b && same c e) ≡ false → ¬ ((a ≡ b) × (c ≡ e))
  not_both a b c e h (p, q) = absurd (ground (arith, h, (same_iff a b).1 p, (same_iff c e).1 q))

  not_same : (a b : Text) → same a b ≡ false → a ≢ b
  not_same a b h p = absurd (ground (arith, h, (same_iff a b).1 p))

  classify-Counts : Counts (classify default_branch settings d)
  unfolding classify
  classify-Counts =
      let signal = selected_signal settings.deployment_signal in
      elim (Bool-cases
        (same signal (codes "WORKFLOW_RUN") && same d.source (codes "GITHUB_WORKFLOW"))) [
          | inl a ↦
              rw a (
                inl (both signal (codes "WORKFLOW_RUN") d.source (codes "GITHUB_WORKFLOW") a, refl))
          | inr a ↦
              elim (Bool-cases
                (same signal (codes "DEPLOYMENT") && same d.source (codes "GITHUB_DEPLOYMENT"))) [
                  | inl b ↦
                      rw (a, b)
                        (inr (
                          inl (
                            both signal (codes "DEPLOYMENT") d.source (codes "GITHUB_DEPLOYMENT") b,
                            refl,
                          )))
                  | inr b ↦ elim (Bool-cases (same d.source (codes "MANUAL"))) [
                    | inl c ↦
                        rw (a, b, c)
                          (inr (inr (inl ((same_iff d.source (codes "MANUAL")).0 c, refl))))
                    | inr c ↦
                        rw (a, b, c)
                          (inr (
                            inr (
                              inr (
                                not_both signal (codes "WORKFLOW_RUN") d.source
                                    (codes "GITHUB_WORKFLOW") a,
                                not_both signal (codes "DEPLOYMENT") d.source
                                    (codes "GITHUB_DEPLOYMENT") b,
                                not_same d.source (codes "MANUAL") c,
                                refl,
                              ))))
                  ]
                ]
        ]

module _ (now repository : ℕ) (default_branch : Text) (settings : Settings) where
  -- The row that is written where the flag changes.
  abbrev pub flagged : Bool → DeploymentRow → DeploymentRow
  flagged production d = record d {
    is_production = production;
    updated_at = now;
    version = d.version + 1;
  }

  -- A row of another repository is as it was. One of this repository counts as it should, and it is as
  -- it was, or has another flag than before and is otherwise as it was, the bookkeeping apart.
  abbrev pub IsReclassified : DeploymentRow → DeploymentRow → Type 0
  IsReclassified d d' =
      ((d.repository_id ≢ repository) × (d' ≡ d))
      ⊎ ((d.repository_id ≡ repository)
          × Counts default_branch settings d d'.is_production
          × ((d' ≡ d) ⊎ ((d'.is_production ≢ d.is_production) × (d' ≡ flagged d'.is_production d))))

  abbrev pub AllReclassified : List DeploymentRow → List DeploymentRow → Type 0
  AllReclassified [] [] = Unit
  AllReclassified [] (d' ∷ t') = ⊥
  AllReclassified (d ∷ t) [] = ⊥
  AllReclassified (d ∷ t) (d' ∷ t') = IsReclassified d d' × AllReclassified t t'

  differ-true : (a b : Bool) → differ a b ≡ true → a ≢ b
  differ-true true true h = absurd (ground arith)
  differ-true true false h = λ e. absurd (ground arith)
  differ-true false true h = λ e. absurd (ground arith)
  differ-true false false h = absurd (ground arith)

  kept-IsReclassified :
      (d : DeploymentRow)
      → (d.repository_id ≡ repository)
      → differ (classify default_branch settings d) d.is_production ≡ false
      → IsReclassified d d
  kept-IsReclassified d own h = inr (
    own,
    subst (Counts default_branch settings d)
        (sym (differ-false (classify default_branch settings d) d.is_production h))
        (classify-Counts default_branch settings d),
    inl refl,
  )

  reclassified_lem :
      (d : DeploymentRow) → IsReclassified d (reclassified now repository default_branch settings d)
  reclassified_lem d = elim (Bool-cases (d.repository_id == repository)) [
    | inr o ↦ rw o (inl (other d o, refl))
    | inl o ↦ elim (Bool-cases (differ (classify default_branch settings d) d.is_production)) [
      | inl h ↦
          rw (o, h)
            (inr (
              (==_iff d.repository_id repository).0 o,
              classify-Counts default_branch settings d,
              inr (differ-true (classify default_branch settings d) d.is_production h, refl),
            ))
      | inr h ↦ rw (o, h) (kept-IsReclassified d ((==_iff d.repository_id repository).0 o) h)
    ]
  ]
    where
      other :
          (d : DeploymentRow)
          → (d.repository_id == repository) ≡ false
          → d.repository_id ≢ repository
      other d h e = absurd (ground (arith, h, (==_iff d.repository_id repository).1 e))

  all_reclassified :
      (t : List DeploymentRow)
      → AllReclassified t (map (reclassified now repository default_branch settings) t)
  all_reclassified [] = tt
  all_reclassified (d ∷ t) = (reclassified_lem d, all_reclassified t)

  -- A run leaves the rows of other repositories as they were. Of the repository, a workflow run counts
  -- as production if runs are the selected signal and the patterns of branches and names say so, a
  -- deployment event if events are selected and the patterns of environments say so, a manual
  -- deployment as it did before, and any other not; where that is another flag than before it is set,
  -- and the rest of the row is as it was. A second run, at any time, finds nothing to change.
  pub reclassify_settles :
      (later : ℕ) (t : List DeploymentRow)
      → AllReclassified t
          (reclassify_repository_deployments now repository default_branch settings t).1
        × (reclassify_repository_deployments later repository default_branch settings
              (reclassify_repository_deployments now repository default_branch settings t).1
            ≡ (0, (reclassify_repository_deployments now repository default_branch settings t).1))
  unfolding reclassify_repository_deployments
  reclassify_settles later t =
      let all = reclassify-not_stale now repository default_branch settings t in
      let (none_left, same_rest) =
        settled later repository default_branch settings
          (map (reclassified now repository default_branch settings) t) all in
      (all_reclassified t, rw (none_left, same_rest) refl)
