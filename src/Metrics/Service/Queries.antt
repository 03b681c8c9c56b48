-- ===== src/Metrics/Service/Queries.antt =====
-- The rows that `recalculate_repository_metrics` and `_cycle_time_snapshots` of app/metrics/service.py
-- read from the normalized tables.
use adept_engine.Base.{
  ℕ, Bool, true, false, ◌&&◌, ◌||◌, not, Option, none, some, List, [], ◌∷◌, ◌++◌, map, Text, codes,
  ◌==◌, ltb, leb, if◌then◌else◌, keep, same, is_some,
}
use adept_engine.Base.Sorting.{sort_by}
use adept_engine.Base.Upsert.{first}
use adept_engine.Values.Uuid.{uuid_text}
use adept_engine.Store.{DeploymentRow, LinkRow, PullRequestRow, IncidentRow, ReviewRow}
use adept_engine.Metrics.Dora.{Deployment, PrDeployment, Incident}
use adept_engine.Metrics.CycleTime.{PullRequest}
use adept_engine.Metrics.Service.Incidents.{finish, is_id, finish_of}
use adept_engine.Metrics.Service.Links.{is_success, earliest, earliest_of}

-- `EXISTS (SELECT 1 FROM incidents ...)`
abbrev pub has_incident : ℕ → List IncidentRow → Bool
has_incident i [] = false
has_incident i (x ∷ xs) = is_id x.failed_deployment_id i || has_incident i xs

abbrev pub finished_first : DeploymentRow → DeploymentRow → Bool
finished_first a b = leb (finish a) (finish b)

-- `deployments`: the finished ones of the repository, the oldest first.
unfoldable pub deployments_of : ℕ → List DeploymentRow → List IncidentRow → List Deployment
unfolding uuid_text
deployments_of repository ds incidents =
    map
      (λ (d : DeploymentRow). record {
        id = uuid_text d.id;
        finished_at = d.finished_at;
        is_production = d.is_production;
        status = some d.status;
        has_incident = has_incident d.id incidents;
      })
      (sort_by finished_first
        (keep (λ d. d.repository_id == repository && is_some d.finished_at) ds))

-- The earliest of a pull request's links to a success; of two that finished at once the first.
abbrev pub sooner : DeploymentRow → Option DeploymentRow → DeploymentRow
sooner a none = a
sooner a (some b) = if ltb (finish b) (finish a) then b else a

abbrev pub linked_success : ℕ → ℕ → List DeploymentRow → Option DeploymentRow
linked_success repository i ds = first (λ d. d.id == i && is_success repository d) ds

abbrev pub sooner_of : Option DeploymentRow → Option DeploymentRow → Option DeploymentRow
sooner_of none rest = rest
sooner_of (some d) rest = some (sooner d rest)

unfoldable pub first_deployment : ℕ → ℕ → List DeploymentRow → List LinkRow → Option DeploymentRow
first_deployment repository pull_request ds [] = none
first_deployment repository pull_request ds (l ∷ ls) =
    let rest = first_deployment repository pull_request ds ls in
    if l.pull_request_id == pull_request
    then sooner_of (linked_success repository l.deployment_id ds) rest
    else rest

abbrev pub by_id : PullRequestRow → PullRequestRow → Bool
by_id a b = leb a.id b.id

abbrev pub pr_deployment : PullRequestRow → Option DeploymentRow → List PrDeployment
pr_deployment pr none = []
pr_deployment pr (some d) =
    record {
      deployment_id = uuid_text d.id;
      pr_id = uuid_text pr.id;
      deployment_finished_at = d.finished_at;
      is_production = d.is_production;
      deployment_status = some d.status;
      first_commit_at = pr.first_commit_at;
    }
    ∷ []

abbrev pub pr_deployments_from :
    ℕ → List DeploymentRow → List LinkRow → List PullRequestRow → List PrDeployment
pr_deployments_from repository ds links [] = []
pr_deployments_from repository ds links (pr ∷ prs) =
    pr_deployment pr (first_deployment repository pr.id ds links)
    ++ pr_deployments_from repository ds links prs

-- `pr_deployments`: each pull request with a first commit, with its first deployment (`DISTINCT ON`).
unfoldable pub pr_deployments_of :
    ℕ → List DeploymentRow → List LinkRow → List PullRequestRow → List PrDeployment
unfolding first_deployment uuid_text
pr_deployments_of repository ds links prs =
    pr_deployments_from repository ds links
      (sort_by by_id (keep (λ pr. is_some pr.first_commit_at) prs))

-- The `LEFT JOIN` on the recovery.
abbrev pub recovery_finish : Option ℕ → List DeploymentRow → Option ℕ
recovery_finish none ds = none
recovery_finish (some i) ds = finish_of (first (λ d. d.id == i) ds)

-- `incidents`: the resolved ones of the repository.
unfoldable pub incidents_of : ℕ → List DeploymentRow → List IncidentRow → List Incident
unfolding uuid_text
incidents_of repository ds incidents =
    map
      (λ (i : IncidentRow). record {
        id = uuid_text i.id;
        recovery_finished_at = recovery_finish i.recovery_deployment_id ds;
        resolved_at = i.resolved_at;
        detected_at = some i.detected_at;
        created_at = none;
      })
      (keep
        (λ i.
          i.repository_id == repository
          && (same i.status (codes "RESOLVED") && is_some i.resolved_at))
        incidents)

abbrev pub at_most : ℕ → Option ℕ → Bool
at_most a none = false
at_most a (some b) = leb a b

abbrev pub at_least : Option ℕ → Option ℕ → Bool
at_least none b = false
at_least (some a) none = false
at_least (some a) (some b) = leb b a

-- `IS DISTINCT FROM`
abbrev pub differs : Option Text → Option Text → Bool
differs none none = false
differs none (some b) = true
differs (some a) none = true
differs (some a) (some b) = not (same a b)

-- `reviews`: the first review by another person, up to the merge.
unfoldable pub first_review : PullRequestRow → List ReviewRow → Option ℕ
first_review pr [] = none
first_review pr (r ∷ rs) =
    let rest = first_review pr rs in
    if r.pull_request_id == pr.id
      && (not r.reviewer_is_bot
          && (differs r.reviewer_login pr.author_login && at_most r.submitted_at pr.merged_at))
    then earliest r.submitted_at rest
    else rest

-- When the deployment of a link finished, if it is a success no earlier than an instant.
abbrev pub deployed_since : Option ℕ → ℕ → List DeploymentRow → Option ℕ
deployed_since since i [] = none
deployed_since since i (d ∷ ds) =
    if d.id == i
      && (d.is_production && (same d.status (codes "SUCCESS") && at_least d.finished_at since))
    then d.finished_at
    else deployed_since since i ds

-- `deployed`
unfoldable pub deployed_at : PullRequestRow → List DeploymentRow → List LinkRow → Option ℕ
deployed_at pr ds [] = none
deployed_at pr ds (l ∷ ls) =
    let rest = deployed_at pr ds ls in
    if l.pull_request_id == pr.id
    then earliest_of (deployed_since pr.merged_at l.deployment_id ds) rest
    else rest

abbrev pub merged_in : ℕ → ℕ → Option ℕ → Bool
merged_in start end none = false
merged_in start end (some merged) = leb start merged && ltb merged end

-- The merged pull requests of a window.
unfoldable pub merged_pull_requests :
    ℕ
    → ℕ
    → ℕ
    → List DeploymentRow
    → List LinkRow
    → List ReviewRow
    → List PullRequestRow
    → List PullRequest
unfolding first_review deployed_at uuid_text
merged_pull_requests repository start end ds links reviews prs =
    map
      (λ (pr : PullRequestRow). record {
        id = uuid_text pr.id;
        opened_at = pr.opened_at;
        ready_for_review_at = pr.ready_for_review_at;
        first_review_at = first_review pr reviews;
        first_commit_at = pr.first_commit_at;
        merged_at = pr.merged_at;
        deployed_at = deployed_at pr ds links;
      })
      (keep
        (λ pr.
          pr.repository_id == repository
          && (same pr.state (codes "MERGED") && merged_in start end pr.merged_at))
        prs)

abbrev pub merge_of : ℕ → List PullRequestRow → Option ℕ
merge_of i [] = none
merge_of i (pr ∷ prs) = if pr.id == i then pr.merged_at else merge_of i prs

abbrev pub affects : ℕ → ℕ → ℕ → Option DeploymentRow → Bool
affects repository from to none = false
affects repository from to (some d) = leb from (finish d) && leb (finish d) to

-- `earliest_merge`: of the pull requests that the successes of the affected time deployed.
unfoldable pub earliest_merge :
    ℕ → ℕ → ℕ → List DeploymentRow → List LinkRow → List PullRequestRow → Option ℕ
earliest_merge repository from to ds [] prs = none
earliest_merge repository from to ds (l ∷ ls) prs =
    let rest = earliest_merge repository from to ds ls prs in
    if affects repository from to (linked_success repository l.deployment_id ds)
    then earliest_of (merge_of l.pull_request_id prs) rest
    else rest
