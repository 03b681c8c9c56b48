-- ===== src/Jobs/LeaseTests.antt =====
-- The theorems on leases, dispatches and the queue's snapshot, at inputs that meet their hypotheses.
use adept_engine.Base.{
  ℕ, ◌*◌, ◌≡◌, refl, true, false, Option, none, some, [], ◌∷◌, Text, codes, arith, length, min,
  same,
}
use adept_engine.Values.Uuid.{uuid_text}
use adept_engine.Values.Json.{Fields, end_fields}
use adept_engine.Jobs.Row.{Status, Row, ClaimedJob}
use adept_engine.Jobs.Table.{Table, find, UniqueIds}
use adept_engine.Jobs.Errors.{ok, err, value_error}
use adept_engine.Jobs.Retry.{second, owned_row, not_owned}
use adept_engine.Jobs.Claimer.{Locks, is_stale}
use adept_engine.Jobs.Claimer.Claims.{recovered, returned}
use adept_engine.Jobs.Dispatcher.{Handler, Handlers, get_handler, dispatch_job}
use adept_engine.Jobs.Dispatcher.Outcomes.{Settled, dispatch_job-Settled, dispatch_job_lost}
use adept_engine.Jobs.QueueMetrics.{queue_snapshot, ready_jobs_are_claimed}
use adept_engine.Jobs.Advisory.{try_lock}
use adept_engine.Jobs.Lease.{
  Catalog, leased_row, scope_of, is_workspace_job, enter_lease, heartbeat, is_leased,
}
use adept_engine.Jobs.Lease.Heartbeat.{heartbeat_not_stale}
use adept_engine.Jobs.Lease.Locks.{Live}
use adept_engine.Jobs.Lease.Exclusion.{
  World, Reach, start, next, entered, lease_job_exclusive, lease_repository_exclusive,
}

abbrev row : ℕ → Status → ℕ → Option Text → Text → Row Fields
row id status attempts owner job_type = record {
  id = id;
  job_type = job_type;
  payload = end_fields;
  status = status;
  priority = 10;
  attempts = attempts;
  max_attempts = 3;
  available_at = id;
  locked_at = some (999 * second);
  locked_by = owner;
  last_error = none;
  finished_at = none;
  created_at = id;
  updated_at = id;
  version = 0;
  workspace_id = some 7;
  repository_id = some 9;
  raw_event_id = none;
}

abbrev ann : Text
ann = codes "ann"

abbrev now : ℕ
now = 1_000 * second

abbrev alerts : Row Fields
alerts = row 1 Status.running 1 (some ann) (codes "EVALUATE_ALERTS")

abbrev unknown : Row Fields
unknown = row 2 Status.running 1 (some ann) (codes "X")

abbrev deletion : Row Fields
deletion = row 3 Status.running 1 (some ann) (codes "DELETE_WORKSPACE")

abbrev jobs : Table Fields
jobs = alerts ∷ unknown ∷ deletion ∷ row 4 Status.pending 0 none (codes "X") ∷ []

jobs-UniqueIds : UniqueIds jobs
jobs-UniqueIds = (refl, (refl, (refl, (refl, tt))))

abbrev free : Locks
free = record {
  job_free = λ i. true;
  dead_free = λ i. true;
  retry_free = λ i. true;
  claim_free = λ i. true;
}

abbrev quiet : Handler Fields
quiet job w t = (ok tt, t)

-- A handler that fails with a `ValueError`.
abbrev failing : Handler Fields
failing job w t = (err (value_error (codes "bad")), t)

-- A handler that outlives its lock: the table is empty when it returns.
abbrev slow : Handler Fields
slow job w t = (ok tt, [])

abbrev handlers : Handler Fields → Handlers Fields
handlers h = record {
  process_github_event = quiet;
  process_jira_event = quiet;
  backfill_repository = quiet;
  sync_github_repositories = quiet;
  sync_jira_projects = quiet;
  renew_jira_webhook = quiet;
  delete_workspace = quiet;
  recalculate_metrics = quiet;
  evaluate_alerts = h;
}

alerts_known : (h : Handler Fields) → get_handler (handlers h) (codes "EVALUATE_ALERTS") ≡ some h
unfolding get_handler same
alerts_known h = refl

unknown_type : get_handler (handlers quiet) (codes "X") ≡ none
unfolding get_handler same
unknown_type = refl

ann_owns : owned_row 1 ann jobs ≡ some alerts
unfolding owned_row same
ann_owns = refl

ann_owns_unknown : owned_row 2 ann jobs ≡ some unknown
unfolding owned_row same
ann_owns_unknown = refl

no_row : owned_row {J = Fields} 1 ann [] ≡ none
unfolding owned_row
no_row = refl

abbrev claimed : Row Fields → ClaimedJob Fields
claimed r = record {
  id = r.id;
  job_type = r.job_type;
  payload = r.payload;
  priority = r.priority;
  attempts = r.attempts;
  max_attempts = r.max_attempts;
  locked_by = r.locked_by;
  created_at = r.created_at;
  updated_at = r.updated_at;
  version = r.version;
}

dispatch_job-Settled_example :
    Settled 1 jobs (dispatch_job (handlers failing) now 5 (claimed alerts) ann jobs)
dispatch_job-Settled_example =
    dispatch_job-Settled (handlers failing) now 5 (claimed alerts) ann jobs failing jobs
      (err (value_error (codes "bad"))) (alerts_known failing) refl (λ e. ground arith)
      jobs-UniqueIds alerts ann_owns (omega arith)

dispatch_job_lost_example :
    dispatch_job (handlers slow) now 5 (claimed alerts) ann jobs ≡ (err not_owned, [])
dispatch_job_lost_example =
    dispatch_job_lost (handlers slow) now 5 (claimed alerts) ann jobs slow [] (ok tt)
      (alerts_known slow) refl (λ e. ground arith) tt no_row

ready_jobs_are_claimed_example :
    length (returned free now ann 2 60 jobs)
    ≡ min 2 (queue_snapshot now (recovered free now ann 2 60 jobs)).ready
ready_jobs_are_claimed_example =
    ready_jobs_are_claimed free now ann 2 60 jobs jobs-UniqueIds refl (λ i. refl)

leased : is_leased (claimed alerts) ann alerts ≡ true
unfolding same
leased = refl

heartbeat_not_stale_example :
    (r' : Row Fields) × (find 1 (heartbeat (λ i. true) now (claimed alerts) ann jobs) ≡ some r')
    × (is_stale (λ i. true) (λ i. true) (1_050 * second) 60 r' ≡ false)
    × (find 2 (heartbeat (λ i. true) now (claimed alerts) ann jobs) ≡ find 2 jobs)
heartbeat_not_stale_example =
    heartbeat_not_stale (λ i. true) now (claimed alerts) ann jobs alerts (1_050 * second) 60 2
      (λ i. true) (λ i. true) refl leased refl (omega arith) (λ e. omega (arith, e))

-- Keys by their length: the job's, the workspace's and the repository's differ.
abbrev by_length : Text → ℕ
by_length key = length key

abbrev catalog : Catalog
catalog = record {
  events = λ i. none;
  jira_workspace = λ i. none;
  repository_workspace = λ i. some 7;
}

abbrev idle : World
idle = record { locks = []; live = [] }

-- `alerts` runs in session 5.
abbrev alerts_live : Live
alerts_live = record {
  session = 5;
  job_id = 1;
  scope = record { workspace = some 7; repository = some 9 };
}

abbrev alerts_world : World
alerts_world = record {
  locks =
      record { key = 53; session = 5; shared = false }
      ∷ record { key = 52; session = 5; shared = true }
      ∷ record { key = 46; session = 5; shared = false }
      ∷ [];
  live = alerts_live ∷ [];
}

alerts-Reach : Reach by_length alerts_world
unfolding leased_row enter_lease scope_of uuid_text is_workspace_job try_lock same
alerts-Reach =
    next start
      (entered 5 catalog (claimed alerts) ann jobs alerts alerts_world.locks refl refl refl)

-- `deletion` runs in session 6.
abbrev deletion_live : Live
deletion_live = record {
  session = 6;
  job_id = 3;
  scope = record { workspace = some 7; repository = none };
}

abbrev deletion_world : World
deletion_world = record {
  locks =
      record { key = 52; session = 6; shared = false }
      ∷ record { key = 46; session = 6; shared = false }
      ∷ [];
  live = deletion_live ∷ [];
}

deletion-Reach : Reach by_length deletion_world
unfolding leased_row enter_lease scope_of uuid_text is_workspace_job try_lock same
deletion-Reach =
    next start
      (entered 6 catalog (claimed deletion) ann jobs deletion deletion_world.locks refl refl refl)

lease_job_exclusive_example : alerts_live.session ≡ alerts_live.session
lease_job_exclusive_example =
    lease_job_exclusive by_length alerts_world alerts-Reach 5 5 alerts_live alerts_live refl refl
      refl

lease_repository_exclusive_example : alerts_live.session ≡ alerts_live.session
lease_repository_exclusive_example =
    lease_repository_exclusive by_length alerts_world alerts-Reach 5 5 alerts_live alerts_live refl
      refl 9 refl refl
