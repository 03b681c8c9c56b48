-- ===== src/Worker.antt =====
-- app/worker.py: a consumer thread claims one job at a time, leases it, dispatches it or puts it back.
-- What the outside decides in one turn of the loop is the record `Turn`; what the thread reports to
-- app/monitoring is a list of `MetricEvent`, since no failure there changes what the thread does.
pub mod Deferral
pub mod Turns
mod Tests
use adept_engine.Base.{
  ℕ, ◌*◌, Bool, true, false, Option, none, some, List, [], ◌∷◌, ◌++◌, Text, codes, if◌then◌else◌,
}
use adept_engine.Jobs.Row.{ClaimedJob}
use adept_engine.Jobs.Table.{Table}
use adept_engine.Jobs.Errors.{
  JobError, Result, ok, err, scope_busy, value_error, overflow_error, job_ownership, permanent_job,
  provider, other,
}
use adept_engine.Jobs.Errors.{requeue_with_payload as requeued}
use adept_engine.Jobs.Retry.{second, requeue_with_payload}
use adept_engine.Jobs.Claimer.{Locks, StaleJobRecovery, Claimed, claim_jobs}
use adept_engine.Jobs.Lease.{heartbeat}
use adept_engine.Jobs.Dispatcher.{Handlers, JobDispatchOutcome, dispatch_job}

pub data MetricEvent : Type 0 where
  thread_started thread_stopped poll_success poll_error job_started job_stopped : MetricEvent
  dispatch_error : Text → MetricEvent
  dispatch_outcome : Text → JobDispatchOutcome → MetricEvent
  stale_recovery : ℕ → ℕ → MetricEvent
  deferral : Text → Text → MetricEvent
  operation_error : Text → Text → MetricEvent
  lease_failure : Text → MetricEvent

abbrev dispatch_event : Text → Result JobDispatchOutcome → MetricEvent
dispatch_event job_type (ok outcome) = dispatch_outcome job_type outcome
dispatch_event job_type (err e) = dispatch_error job_type

-- A claimed job with the time, and the draw of the jitter, of the statement that ends its attempt.
abbrev pub Dispatch : Type 0 → Type 0
Dispatch J = ClaimedJob J × ℕ × ℕ

module _ {J : Type 0} (handlers : Handlers J) (worker_id : Text) where
  -- `dispatch_claimed_jobs`: an exception of one job is reported and the loop goes on.
  pub dispatch_claimed_jobs : List (Dispatch J) → Table J → List MetricEvent × Table J
  unfolding dispatch_job
  dispatch_claimed_jobs [] t = ([], t)
  dispatch_claimed_jobs ((job, now, draw) ∷ jobs) t =
      let (result, t') = dispatch_job handlers now draw job worker_id t in
      let (events, t'') = dispatch_claimed_jobs jobs t' in
      (dispatch_event job.job_type result ∷ events, t'')

-- `suppress(RequeueWithPayloadError)`
abbrev suppress_requeue : Result (Unit {0}) → Result (Unit {0})
suppress_requeue (err requeued) = ok tt
suppress_requeue r = r

abbrev deferral_event : Text → Text → Result (Unit {0}) → MetricEvent
deferral_event job_type reason (ok _) = deferral job_type reason
deferral_event job_type reason (err e) = operation_error job_type (codes "deferral")

module _ {J : Type 0} (worker_id : Text) where
  -- `_defer`
  pub defer : ℕ → ClaimedJob J → Table J → Result (Unit {0}) × Table J
  unfolding requeue_with_payload
  defer now job t =
      let (r, t') = requeue_with_payload now job.id worker_id job.payload (5 * second) false t in
      (suppress_requeue r, t')

  -- `_defer_with_metrics`
  pub defer_with_metrics : ℕ → ClaimedJob J → Text → Table J → List MetricEvent × Table J
  unfolding defer
  defer_with_metrics now job reason t =
      let (r, t') = defer now job t in (deferral_event job.job_type reason r ∷ [], t')

-- One turn of the loop, as far as the thread does not decide it.
pub record Turn : Type 0 where
  -- `stop.is_set()` at the head of the loop, and after the claim
  pub stop_before : Bool
  pub stop_after : Bool
  -- the database refuses the claim's transaction
  pub poll_failure : Option JobError
  -- the time and the locks of the claim
  pub claimed_at : ℕ
  pub locks : Locks
  -- `JobLease.__enter__`, and the time of its first heartbeat with the rows that it finds unlocked
  pub lease : Result (Unit {0})
  pub leased_at : ℕ
  pub row_free : ℕ → Bool
  -- the time and the draw of the statement that follows
  pub ended_at : ℕ
  pub draw : ℕ
  -- `current_schema_version` raises
  pub schema_failure : Bool

-- The thread leaves its loop, or goes on.
pub data Next : Type 0 where
  leave go_on : Next

abbrev recovery_events : Option StaleJobRecovery → List MetricEvent
recovery_events none = []
recovery_events (some s) = stale_recovery s.retryable s.dead ∷ []

module _ {J : Type 0} (handlers : Handlers J) (worker_id : Text) (lock_timeout : ℕ) where
  -- The `with JobLease(...)` statement and its `except` clauses.
  abbrev pub run_leased :
      Turn → ClaimedJob J → Result (Unit {0}) → Table J → List MetricEvent × Next × Table J
  run_leased turn job (err (scope_busy key)) t =
      let (events, t') = defer_with_metrics worker_id turn.ended_at job (codes "scope_busy") t in
      (events, go_on, t')
  run_leased turn job (ok _) t =
      let beaten = heartbeat turn.row_free turn.leased_at job worker_id t in
      let (events, t') =
        dispatch_claimed_jobs handlers worker_id ((job, turn.ended_at, turn.draw) ∷ []) beaten in
      ((job_started ∷ events) ++ (job_stopped ∷ []), go_on, t')
  run_leased turn job (err _) t = (lease_failure (codes "acquire") ∷ [], go_on, t)

  -- `if jobs: ... else: ...`
  abbrev pub after_claim : Turn → List (ClaimedJob J) → Table J → List MetricEvent × Next × Table J
  after_claim turn [] t = (if turn.schema_failure then poll_error ∷ [] else [], go_on, t)
  after_claim turn (job ∷ _) t =
      if turn.stop_after
      then (let (events, t') =
            defer_with_metrics worker_id turn.ended_at job (codes "shutdown") t in
          (events, leave, t'))
      else run_leased turn job turn.lease t

  abbrev pub after_poll : Turn → Result (Claimed J) → Table J → List MetricEvent × Next × Table J
  after_poll turn (err e) t = (poll_error ∷ [], go_on, t)
  after_poll turn (ok c) t =
      let (events, n, t') = after_claim turn c.jobs t in
      (recovery_events c.recovered ++ (poll_success ∷ events), n, t')

  -- `claim_jobs(..., limit=1, ...)`, unless its transaction fails and is rolled back.
  abbrev pub poll : Option JobError → Turn → Table J → Result (Claimed J) × Table J
  poll (some e) turn t = (err e, t)
  poll none turn t = claim_jobs turn.locks turn.claimed_at worker_id 1 lock_timeout t

  -- The body of the `while` loop.
  unfoldable pub consume_turn : Turn → Table J → List MetricEvent × Next × Table J
  unfolding dispatch_claimed_jobs defer_with_metrics claim_jobs
  consume_turn turn t =
      let (result, t') = poll turn.poll_failure turn t in after_poll turn result t'

  -- How a turn that found `t` and left the loop as `n` says is followed by the later ones.
  abbrev pub continue :
      Bool
      → Next
      → Table J
      → List MetricEvent × Table J
      → List MetricEvent × Table J
      → List MetricEvent × Table J
  continue true n t turned later = (thread_stopped ∷ [], t)
  continue false leave t (events, t') later = (events ++ (thread_stopped ∷ []), t')
  continue false go_on t (events, t') (later, t'') = (events ++ later, t'')

  -- The loop, over the turns that it makes: it ends where `stop` is set or a turn leaves it.
  loop : List Turn → Table J → List MetricEvent × Table J
  loop [] t = ([], t)
  loop (turn ∷ turns) t =
      let (events, n, t') = consume_turn turn t in
      continue turn.stop_before n t (events, t') (loop turns t')

  pub consume_jobs : List Turn → Table J → List MetricEvent × Table J
  unfolding loop consume_turn
  consume_jobs turns t = let (events, t') = loop turns t in (thread_started ∷ events, t')
