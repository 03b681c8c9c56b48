-- ===== src/Jobs/Lease.antt =====
-- app/jobs/lease.py: the lease of an executing job. `hash` is `hashtextextended(_, 0)` and
-- `Catalog` the rows of other tables that the lease reads; a session is the detached connection of
-- one guard thread, which closes, and drops its locks, when the lease ends or cannot be had.
pub mod Locks
pub mod Exclusion
pub mod Heartbeat
use adept_engine.Base.{
  ℕ, ◌≡◌, Bool, true, false, ◌&&◌, ◌||◌, Option, none, some, List, [], ◌∷◌, ◌++◌, Text, codes, same,
  ◌==◌, if◌then◌else◌, is_some,
}
use adept_engine.Values.Json.{Json, Fields, get, or_else}
use adept_engine.Values.Uuid.{uuid_text, uuid_of}
use adept_engine.Jobs.Row.{Row, ClaimedJob, is_running, owned_by}
use adept_engine.Jobs.Table.{Table, find, update_where}
use adept_engine.Jobs.Errors.{JobError, Result, ok, err, job_ownership, scope_busy}
use adept_engine.Jobs.Advisory.{Lock, try_lock, end_session}

pub record Catalog : Type 0 where
  -- workspace_id and repository_id of `raw_webhook_events`, by id
  pub events : ℕ → Option (Option ℕ × Option ℕ)
  -- workspace_id of `jira_integrations`, by id
  pub jira_workspace : ℕ → Option ℕ
  -- workspace_id of `repositories`, by id
  pub repository_workspace : ℕ → Option ℕ

-- `COALESCE(a, b)`, and `a or b` of two UUIDs, which are always true.
abbrev pub coalesce {ℓ} : {A : Type ℓ} → Option A → Option A → Option A
coalesce none b = b
coalesce (some a) b = some a

abbrev pub lookup_in {ℓ} : {A : Type ℓ} → (ℕ → Option A) → Option ℕ → Option A
lookup_in f none = none
lookup_in f (some i) = f i

-- `_uuid(payload.get(a) or payload.get(b))`
abbrev pub payload_uuid : Text → Text → Fields → Option ℕ
payload_uuid a b payload = uuid_of (or_else (get a payload) (get b payload))

-- The row that the query of `_acquire` selects: owned by the worker in this very attempt.
abbrev pub is_leased : {J : Type 0} → ClaimedJob J → Text → Row J → Bool
is_leased job worker_id r =
    r.id == job.id
    && (is_running r.status && (owned_by r.locked_by worker_id && r.attempts == job.attempts))

unfoldable pub leased_row : {J : Type 0} → ClaimedJob J → Text → Table J → Option (Row J)
leased_row job worker_id t = elim (find job.id t) [
  | none ↦ none
  | some r ↦ if is_leased job worker_id r then some r else none
]

-- Job types that work on a whole workspace.
unfoldable pub is_workspace_job : Text → Bool
is_workspace_job job_type =
    same job_type (codes "DELETE_WORKSPACE")
    || same job_type (codes "SYNC_GITHUB_REPOSITORIES")
    || same job_type (codes "SYNC_JIRA_PROJECTS")
    || same job_type (codes "RENEW_JIRA_WEBHOOK")

pub record Scope : Type 0 where
  pub workspace : Option ℕ
  pub repository : Option ℕ

abbrev event_workspace : Option (Option ℕ × Option ℕ) → Option ℕ
event_workspace none = none
event_workspace (some e) = e.0

abbrev event_repository : Option (Option ℕ × Option ℕ) → Option ℕ
event_repository none = none
event_repository (some e) = e.1

-- What `_acquire` locks for the job, from its row, its payload and the catalog.
unfoldable pub scope_of : Catalog → ClaimedJob Fields → Row Fields → Scope
scope_of catalog job row =
    let event = lookup_in catalog.events (
      coalesce row.raw_event_id
        (payload_uuid (codes "rawEventId") (codes "raw_event_id") job.payload)) in
    let own_repository =
      coalesce (coalesce row.repository_id (event_repository event))
        (payload_uuid (codes "repositoryId") (codes "repository_id") job.payload) in
    let repository = if is_workspace_job job.job_type then none else own_repository in
    let own_workspace =
      coalesce (coalesce row.workspace_id (event_workspace event))
        (payload_uuid (codes "workspaceId") (codes "workspace_id") job.payload) in
    let jira_workspace =
      if same job.job_type (codes "RENEW_JIRA_WEBHOOK")
      then coalesce own_workspace
          (lookup_in catalog.jira_workspace (uuid_of (get (codes "jiraIntegrationId") job.payload)))
      else own_workspace in
    record {
      workspace = coalesce (lookup_in catalog.repository_workspace repository) jira_workspace;
      repository = repository;
    }

abbrev pub job_key : ℕ → Text
job_key i = codes "adept:job:" ++ uuid_text i

abbrev pub workspace_key : ℕ → Text
workspace_key i = codes "adept:workspace:" ++ uuid_text i

abbrev pub repository_key : ℕ → Text
repository_key i = codes "adept:repository:" ++ uuid_text i

pub changed : JobError
changed = job_ownership (codes "job ownership changed before execution")

module _ (hash : Text → ℕ) (session : ℕ) where
  -- `_lock`
  unfoldable pub lock : Text → Bool → List Lock → Result (Unit {0}) × List Lock
  lock key shared ls =
      let (free, ls') =
        try_lock (record { key = hash key; session = session; shared = shared }) ls in
      (if free then ok tt else err (scope_busy key), ls')

  -- A step, and the next one if it did not raise. Locks that were taken stay.
  abbrev pub then_lock :
      Result (Unit {0}) × List Lock
      → (List Lock → Result (Unit {0}) × List Lock)
      → Result (Unit {0}) × List Lock
  then_lock (ok _, ls) next = next ls
  then_lock (err e, ls) next = (err e, ls)

  abbrev pub lock_if : Option ℕ → (ℕ → Text) → Bool → List Lock → Result (Unit {0}) × List Lock
  lock_if none key shared ls = (ok tt, ls)
  lock_if (some i) key shared ls = lock (key i) shared ls

  abbrev pub lock_scope : Scope → List Lock → Result (Unit {0}) × List Lock
  lock_scope s ls =
      then_lock (lock_if s.workspace workspace_key (is_some s.repository) ls)
        (lock_if s.repository repository_key false)

  abbrev pub lock_row :
      Catalog → ClaimedJob Fields → Option (Row Fields) → List Lock → Result (Unit {0}) × List Lock
  lock_row catalog job none ls = (err changed, ls)
  lock_row catalog job (some r) ls = lock_scope (scope_of catalog job r) ls

  -- `_acquire`
  unfoldable pub acquire :
      Catalog → ClaimedJob Fields → Text → Table Fields → List Lock → Result (Unit {0}) × List Lock
  unfolding lock changed
  acquire catalog job worker_id t ls =
      then_lock (lock (job_key job.id) false ls) (lock_row catalog job (leased_row job worker_id t))

  -- `JobLease.__enter__`: an exception in the guard thread closes its connection.
  abbrev pub or_close : Result (Unit {0}) × List Lock → Result (Unit {0}) × List Lock
  or_close (ok _, ls) = (ok tt, ls)
  or_close (err e, ls) = (err e, end_session session ls)

  unfoldable pub enter_lease :
      Catalog → ClaimedJob Fields → Text → Table Fields → List Lock → Result (Unit {0}) × List Lock
  unfolding acquire
  enter_lease catalog job worker_id t ls = or_close (acquire catalog job worker_id t ls)

-- `JobLease.__exit__`: the guard thread ends, and with it the connection.
abbrev pub exit_lease : ℕ → List Lock → List Lock
exit_lease = end_session

-- `_heartbeat`, if no other transaction holds the row.
abbrev pub set_heartbeat : {J : Type 0} → ℕ → Row J → Row J
set_heartbeat now r = record r { locked_at = some now }

unfoldable pub heartbeat : {J : Type 0} → (ℕ → Bool) → ℕ → ClaimedJob J → Text → Table J → Table J
heartbeat row_free now job worker_id t =
    update_where (λ r. is_leased job worker_id r && row_free r.id) (set_heartbeat now) t
