-- ===== src/Metrics/Service/Links/Complete.antt =====
-- Which links `link_deployments_to_pull_requests` of app/metrics/service.py never misses.
use adept_engine.Base.{
  ℕ, ◌≡◌, refl, true, ◌&&◌, not, Option, List, [], ◌∷◌, Text, codes, ◌==◌, same, is_some, arith,
  Bool-cases, ◌⊎◌, inl, inr,
}
use adept_engine.Base.Among.{Among, Among-keep}
use adept_engine.Base.Upsert.{first, upsert, upsert_one, IsKey, first-upsert, absorb, keep_old}
use adept_engine.Store.{DeploymentRow, LinkRow, PullRequestRow, CommitRow}
use adept_engine.Metrics.Service.Links.{
  is_automatic, is_exact, link, is_fallback, same_link, exact_links, fallback_links, kept_links,
  insert_links, link_deployments_to_pull_requests, exact_method,
}
use adept_engine.Metrics.Service.Links.Justified.{Among-links_of}

links_are_keys : IsKey same_link keep_old
links_are_keys = record {
  flip = λ a b h. ground arith;
  agree = λ a b c h. ground arith;
  kept = λ x old e h. refl;
}

absorb_keeps_some :
    (x : LinkRow) (es : List LinkRow) (o : Option LinkRow)
    → is_some o ≡ true
    → is_some (absorb same_link keep_old x es o) ≡ true
absorb_keeps_some x [] o h = h
absorb_keeps_some x (e ∷ es) o h = elim (Bool-cases (same_link x e)) [
  | inl s ↦ rw s (absorb_keeps_some x es _ refl)
  | inr s ↦ rw s (absorb_keeps_some x es o h)
]

absorb_some :
    (x y : LinkRow) (es : List LinkRow) (o : Option LinkRow)
    → Among y es
    → same_link x y ≡ true
    → is_some (absorb same_link keep_old x es o) ≡ true
absorb_some x y [] o m r = absurd m
absorb_some x y (e ∷ es) o (inl q) r = rw q (rw r (absorb_keeps_some x es _ refl))
absorb_some x y (e ∷ es) o (inr m) r = absorb_some x y es _ m r

Among-upsert_one :
    (l e : LinkRow) (t : List LinkRow) → Among l t → Among l (upsert_one same_link keep_old e t)
Among-upsert_one l e [] m = absurd m
Among-upsert_one l e (r ∷ t) (inl q) = elim (Bool-cases (same_link e r)) [
  | inl s ↦ rw s (inl q)
  | inr s ↦ rw s (inl q)
]
Among-upsert_one l e (r ∷ t) (inr m) = elim (Bool-cases (same_link e r)) [
  | inl s ↦ rw s (inr m)
  | inr s ↦ rw s (inr (Among-upsert_one l e t m))
]

Among-upsert :
    (l : LinkRow) (es t : List LinkRow) → Among l t → Among l (upsert same_link keep_old es t)
Among-upsert l [] t m = m
Among-upsert l (e ∷ es) t m = Among-upsert l es _ (Among-upsert_one l e t m)

module _ (now repository : ℕ) (default_branch : Text) (ds : List DeploymentRow)
    (prs : List PullRequestRow) (commits : List CommitRow) where
  abbrev linked : List LinkRow → List LinkRow
  linked links =
      (link_deployments_to_pull_requests now repository default_branch ds prs commits links).0

  -- A deployment that is to be linked with a pull request, by a commit or by the window.
  abbrev pub IsDue : DeploymentRow → PullRequestRow → Type 0
  IsDue d pr =
      ((d.repository_id == repository && is_exact commits d pr) ≡ true)
      ⊎ (is_fallback default_branch repository ds d pr ≡ true)

  manual_not_automatic :
      (l : LinkRow)
      → same l.link_method (codes "MANUAL") ≡ true
      → not (is_automatic repository ds l) ≡ true
  manual_not_automatic l h = rw h (ground arith)

  module _ (links : List LinkRow) where
    abbrev exact : List LinkRow
    exact = exact_links now repository default_branch ds prs commits

    abbrev fallback : List LinkRow
    fallback = fallback_links now repository default_branch ds prs commits

    abbrev kept : List LinkRow
    kept = kept_links now repository default_branch ds prs commits links

    -- A run keeps every manual link.
    pub manual_links_stay :
        (l : LinkRow)
        → Among l links
        → same l.link_method (codes "MANUAL") ≡ true
        → Among l (linked links)
    unfolding link_deployments_to_pull_requests
    manual_links_stay l m h = Among-upsert l fallback (insert_links exact kept) (
        Among-upsert l exact kept (
          Among-keep (λ k. not (is_automatic repository ds k)) l links m
            (manual_not_automatic l h)))

    -- After a run every deployment of the repository is linked with each pull request of its repository
    -- whose merge, head or other commit is the deployment's, and every successful production
    -- deployment with each pull request that was merged into its branch after the success before it
    -- and no later than it finished.
    pub links_complete :
        (d : DeploymentRow) (pr : PullRequestRow)
        → Among d ds
        → Among pr prs
        → IsDue d pr
        → is_some (first (same_link (link now (codes "") d pr)) (linked links)) ≡ true
    unfolding link_deployments_to_pull_requests exact_links fallback_links
    links_complete d pr m n (inl e) =
        let x = link now (codes "") d pr in
        rw (first-upsert links_are_keys x fallback (insert_links exact kept)) (
          absorb_keeps_some x fallback _ (
            rw (first-upsert links_are_keys x exact kept) (
              absorb_some x (link now (exact_method d pr) d pr) exact _
                (Among-links_of _ _ ds prs d pr m n e) (ground arith))))
    links_complete d pr m n (inr f) =
        let x = link now (codes "") d pr in
        rw (first-upsert links_are_keys x fallback (insert_links exact kept)) (
          absorb_some x (link now (codes "MERGE_WINDOW") d pr) fallback _
            (Among-links_of _ _ ds prs d pr m n f) (ground arith))
