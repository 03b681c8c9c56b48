-- ===== src/Metrics/Service/Links/Justified.antt =====
-- Which links `link_deployments_to_pull_requests` of app/metrics/service.py leaves, and why.
use adept_engine.Base.{
  ℕ, ◌≡◌, refl, Bool, true, false, not, List, [], ◌∷◌, map, Text, codes, ◌==◌, keep, same, All,
  All-imp, All-map, All-append, All-both, ◌⊎◌, inl, inr, same_iff, subst, &&-true, not-true,
}
use adept_engine.Base.Among.{
  Among, All-keep, All-keep_test, Among-keep, Among-map, Among-self, Among-append_left,
  Among-append_right,
}
use adept_engine.Base.Upsert.{All-upsert_keep}
use adept_engine.Store.{DeploymentRow, LinkRow, PullRequestRow, CommitRow}
use adept_engine.Metrics.Service.Incidents.{finish}
use adept_engine.Metrics.Service.Links.{
  is_success, is_automatic, is_exact, exact_method, links_of, previous_boundary, is_fallback,
  same_link, in_window, deployed_branch, exact_links, fallback_links,
  link_deployments_to_pull_requests,
}
use adept_engine.Metrics.Service.Links.Windows.{
  IsInWindow, in_window_sound, previous_boundary-IsBounded,
}

module _ (p : DeploymentRow → PullRequestRow → Bool)
    (make : DeploymentRow → PullRequestRow → LinkRow) where
  All-links_of :
      (P : LinkRow → Type 0) (ds : List DeploymentRow) (prs : List PullRequestRow)
      → ((d : DeploymentRow) (pr : PullRequestRow)
          → Among d ds
          → Among pr prs
          → p d pr ≡ true
          → P (make d pr))
      → All P (links_of p make ds prs)
  unfolding links_of
  All-links_of P [] prs f = tt
  All-links_of P (d ∷ ds) prs f =
      All-append P _ _
        (All-map P (make d) _ (
          All-imp (λ pr h. f d pr (inl refl) h.0 h.1) _
            (All-both (λ pr. Among pr prs) (λ pr. p d pr ≡ true) _
              (All-keep (λ pr. Among pr prs) (p d) prs (Among-self prs))
              (All-keep_test (p d) prs))))
        (All-links_of P ds prs (λ e pr m. f e pr (inr m)))

  pub Among-links_of :
      (ds : List DeploymentRow) (prs : List PullRequestRow) (d : DeploymentRow)
      (pr : PullRequestRow)
      → Among d ds
      → Among pr prs
      → p d pr ≡ true
      → Among (make d pr) (links_of p make ds prs)
  unfolding links_of
  Among-links_of [] prs d pr m n h = absurd m
  Among-links_of (d' ∷ ds) prs d pr (inl q) n h = Among-append_left _ _ _ (
      subst (λ x. p x pr ≡ true → Among (make x pr) (map (make d') (keep (p d') prs))) q
        (λ k. Among-map (make d') pr _ (Among-keep (p d') pr prs n k)) h)
  Among-links_of (d' ∷ ds) prs d pr (inr m) n h =
      Among-append_right _ _ _ (Among-links_of ds prs d pr m n h)

module _ (repository : ℕ) (default_branch : Text) (ds : List DeploymentRow)
    (prs : List PullRequestRow) (commits : List CommitRow) where
  -- Why a deployment and a pull request are linked, by the method that the link names.
  abbrev pub IsReason : DeploymentRow → PullRequestRow → Text → Type 0
  IsReason d pr method =
      ((is_exact commits d pr ≡ true) × (method ≡ exact_method d pr))
      ⊎ ((method ≡ codes "MERGE_WINDOW")
          × ((is_success repository d ≡ true)
              × ((pr.base_ref ≡ deployed_branch default_branch d)
                  × IsInWindow repository ds (finish d) pr.merged_at)))

  abbrev pub IsJustified : LinkRow → Type 0
  IsJustified l =
      (is_automatic repository ds l ≡ false)
      ⊎ ((d : DeploymentRow) × (pr : PullRequestRow) × Among d ds
          × Among pr prs
          × (l.deployment_id ≡ d.id)
          × (l.pull_request_id ≡ pr.id)
          × IsReason d pr l.link_method)

  exact-IsJustified :
      (now : ℕ) → All IsJustified (exact_links now repository default_branch ds prs commits)
  unfolding exact_links
  exact-IsJustified now =
      All-links_of _ _ IsJustified ds prs
        (λ d pr m n h. inr (d, pr, m, n, refl, refl, inl ((&&-true _ _ h).1, refl)))

  fallback-IsReason :
      (d : DeploymentRow) (pr : PullRequestRow)
      → is_fallback default_branch repository ds d pr ≡ true
      → IsReason d pr (codes "MERGE_WINDOW")
  unfolding is_fallback
  fallback-IsReason d pr h =
      let branch = deployed_branch default_branch d in
      let within = in_window (previous_boundary repository (finish d) ds) pr.merged_at (finish d) in
      let (success, r1) = &&-true (is_success repository d) _ h in
      let (_, r2) = &&-true (pr.repository_id == d.repository_id) _ r1 in
      let (_, r3) = &&-true (same pr.state (codes "MERGED")) _ r2 in
      let (base, window) = &&-true (same pr.base_ref branch) within r3 in
      inr (
        refl,
        (
          success,
          (
            (same_iff pr.base_ref branch).0 base,
            in_window_sound repository ds (finish d) _ pr.merged_at
                (previous_boundary-IsBounded repository (finish d) ds) window,
          ),
        ),
      )

  fallback-IsJustified :
      (now : ℕ) → All IsJustified (fallback_links now repository default_branch ds prs commits)
  unfolding fallback_links
  fallback-IsJustified now =
      All-links_of _ _ IsJustified ds prs
        (λ d pr m n h. inr (d, pr, m, n, refl, refl, fallback-IsReason d pr h))

  -- Whatever links there were: each link that is left is manual or of another repository, or its two
  -- ends are linked by a commit, or the pull request merged into the deployed branch in the window
  -- between the last success before the deployment and the deployment's own success.
  pub links-IsJustified :
      (now : ℕ) (links : List LinkRow)
      → All IsJustified
          (link_deployments_to_pull_requests now repository default_branch ds prs commits links).0
  unfolding link_deployments_to_pull_requests
  links-IsJustified now links =
      All-upsert_keep same_link IsJustified _ _ (fallback-IsJustified now) (
        All-upsert_keep same_link IsJustified _ _ (exact-IsJustified now) (
          All-imp (λ l h. inl (not-true _ h)) _
            (All-keep_test (λ l. not (is_automatic repository ds l)) links)))
