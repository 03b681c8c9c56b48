-- ===== src/Metrics/Service/Links.antt =====
-- `link_deployments_to_pull_requests` and `earliest_linked_production_deployment` of
-- app/metrics/service.py.
pub mod Windows
pub mod Justified
pub mod Complete
use adept_engine.Base.{
  ℕ, ◌+◌, ◌-◌, ◌≡◌, refl, Bool, true, false, ◌&&◌, ◌||◌, not, Option, none, some, List, [], ◌∷◌,
  ◌++◌, map, Text, codes, ◌==◌, ltb, leb, if◌then◌else◌, keep, same, is_some, arith, length, max,
  min,
}
use adept_engine.Base.Upsert.{upsert, keep_old}
use adept_engine.Values.Json.{Json, arrow, as_text}
use adept_engine.Store.{DeploymentRow, LinkRow, PullRequestRow, CommitRow}
use adept_engine.Metrics.Service.Incidents.{is_finished, finish}

abbrev pub is_success : ℕ → DeploymentRow → Bool
is_success repository d = is_finished repository (codes "SUCCESS") d

-- `dpr.deployment_id = d.id AND d.repository_id = :repository_id`
abbrev pub of_repository : ℕ → ℕ → List DeploymentRow → Bool
of_repository repository i [] = false
of_repository repository i (d ∷ ds) =
    (d.id == i && d.repository_id == repository) || of_repository repository i ds

-- The `WHERE` of the `DELETE`.
abbrev pub is_automatic : ℕ → List DeploymentRow → LinkRow → Bool
is_automatic repository deployments l =
    of_repository repository l.deployment_id deployments
    && not (same l.link_method (codes "MANUAL"))

-- `a = b` on columns that may be NULL
abbrev pub equals : Option Text → Option Text → Bool
equals none b = false
equals (some a) none = false
equals (some a) (some b) = same a b

abbrev pub is_sha : Option Text → Bool
is_sha none = false
is_sha (some s) = not (same s (codes ""))

abbrev pub is_tip : DeploymentRow → PullRequestRow → Bool
is_tip d pr = equals d.commit_sha pr.merge_commit_sha || equals d.commit_sha pr.head_sha

-- The `LEFT JOIN` finds a commit.
abbrev pub has_commit : ℕ → Option Text → List CommitRow → Bool
has_commit pull_request sha [] = false
has_commit pull_request sha (c ∷ cs) =
    (c.pull_request_id == pull_request && equals sha (some c.commit_sha))
    || has_commit pull_request sha cs

unfoldable pub is_exact : List CommitRow → DeploymentRow → PullRequestRow → Bool
is_exact commits d pr =
    pr.repository_id == d.repository_id
    && ((is_tip d pr || has_commit pr.id d.commit_sha commits) && is_sha d.commit_sha)

abbrev pub link : ℕ → Text → DeploymentRow → PullRequestRow → LinkRow
link now method d pr = record {
  deployment_id = d.id;
  pull_request_id = pr.id;
  link_method = method;
  created_at = now;
}

abbrev pub exact_method : DeploymentRow → PullRequestRow → Text
exact_method d pr = if is_tip d pr then codes "MERGE_SHA" else codes "COMMIT_GRAPH"

-- Every pair that passes a test, with its link.
unfoldable pub links_of :
    (DeploymentRow → PullRequestRow → Bool)
    → (DeploymentRow → PullRequestRow → LinkRow)
    → List DeploymentRow
    → List PullRequestRow
    → List LinkRow
links_of p make [] prs = []
links_of p make (d ∷ ds) prs = map (make d) (keep (p d) prs) ++ links_of p make ds prs

-- The later of two instants.
abbrev pub latest : ℕ → Option ℕ → Option ℕ
latest a none = some a
latest a (some b) = some (max a b)

-- `previous_boundary`: when the last success before an instant finished.
unfoldable pub previous_boundary : ℕ → ℕ → List DeploymentRow → Option ℕ
previous_boundary repository at [] = none
previous_boundary repository at (d ∷ ds) =
    let rest = previous_boundary repository at ds in
    if is_success repository d && ltb (finish d) at then latest (finish d) rest else rest

-- `NULLIF(value, '')`
abbrev pub nullif_empty : Option Text → Option Text
nullif_empty none = none
nullif_empty (some s) = if same s (codes "") then none else some s

abbrev pub coalesce : Option Text → Text → Text
coalesce none b = b
coalesce (some a) b = a

-- The branch that a deployment was made from.
unfoldable pub deployed_branch : Text → DeploymentRow → Text
deployed_branch default_branch d =
    let raw = Json.object d.raw_data in
    coalesce
      (nullif_empty (as_text (arrow (codes "head_branch") (arrow (codes "workflow_run") raw))))
      (coalesce (nullif_empty (as_text (arrow (codes "ref") (arrow (codes "deployment") raw))))
        default_branch)

abbrev pub in_window : Option ℕ → Option ℕ → ℕ → Bool
in_window boundary none finished = false
in_window none (some merged) finished = false
in_window (some boundary) (some merged) finished = leb merged finished && ltb boundary merged

unfoldable pub is_fallback : Text → ℕ → List DeploymentRow → DeploymentRow → PullRequestRow → Bool
is_fallback default_branch repository deployments d pr =
    is_success repository d
    && (pr.repository_id == d.repository_id
        && (same pr.state (codes "MERGED")
            && (same pr.base_ref (deployed_branch default_branch d)
                && in_window (previous_boundary repository (finish d) deployments) pr.merged_at
                    (finish d))))

abbrev pub same_link : LinkRow → LinkRow → Bool
same_link a b = a.deployment_id == b.deployment_id && a.pull_request_id == b.pull_request_id

-- `ON CONFLICT (deployment_id, pull_request_id) DO NOTHING`
abbrev pub insert_links : List LinkRow → List LinkRow → List LinkRow
insert_links = upsert same_link keep_old

module _ (now repository : ℕ) (default_branch : Text) where
  module _ (deployments : List DeploymentRow) (prs : List PullRequestRow)
      (commits : List CommitRow) where
    abbrev pub kept_links : List LinkRow → List LinkRow
    kept_links links = keep (λ l. not (is_automatic repository deployments l)) links

    unfoldable pub exact_links : List LinkRow
    unfolding links_of is_exact
    exact_links =
        links_of (λ d pr. d.repository_id == repository && is_exact commits d pr)
          (λ d pr. link now (exact_method d pr) d pr) deployments prs

    unfoldable pub fallback_links : List LinkRow
    unfolding links_of is_fallback
    fallback_links =
        links_of (is_fallback default_branch repository deployments)
          (link now (codes "MERGE_WINDOW")) deployments prs

    -- The links, and how many the two `INSERT`s added.
    unfoldable pub link_deployments_to_pull_requests : List LinkRow → List LinkRow × ℕ
    unfolding exact_links fallback_links
    link_deployments_to_pull_requests links =
        let kept = kept_links links in
        let linked = insert_links fallback_links (insert_links exact_links kept) in
        (linked, length linked - length kept)

abbrev pub earliest : ℕ → Option ℕ → Option ℕ
earliest a none = some a
earliest a (some b) = some (min a b)

-- The `JOIN` on the deployment of a link, where its success finished.
abbrev pub finish_of_link : ℕ → List DeploymentRow → Option ℕ
finish_of_link i [] = none
finish_of_link i (d ∷ ds) =
    if d.id == i && (d.is_production && same d.status (codes "SUCCESS"))
    then d.finished_at
    else finish_of_link i ds

abbrev pub earliest_of : Option ℕ → Option ℕ → Option ℕ
earliest_of none b = b
earliest_of (some a) b = earliest a b

unfoldable pub earliest_linked_production_deployment :
    ℕ → List DeploymentRow → List LinkRow → Option ℕ
earliest_linked_production_deployment pull_request deployments [] = none
earliest_linked_production_deployment pull_request deployments (l ∷ ls) =
    let rest = earliest_linked_production_deployment pull_request deployments ls in
    if l.pull_request_id == pull_request
    then earliest_of (finish_of_link l.deployment_id deployments) rest
    else rest
