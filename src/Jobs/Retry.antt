-- ===== src/Jobs/Retry.antt =====
-- app/jobs/retry.py: the delay before a retry, and the three statements that end an attempt.
-- Each statement is one transaction: `now` is its `now()`, and its rows are locked from the test
-- to the write, so it is one function from the table to the table that is committed.
pub mod Delay
pub mod Outcomes
pub mod Failure
use adept_engine.Base.{
  ℕ, ◌+◌, ◌-◌, ◌*◌, ◌^◌, Bool, true, false, ◌&&◌, ◌||◌, Option, none, some, Text, codes, ◌==◌, leb,
  ltb, if◌then◌else◌, min, max, count_if, ℤ, pos, negsuc, pos_part,
}
use adept_engine.Jobs.Row.{Status, Row, is_running, owned_by}
use adept_engine.Jobs.Table.{Table, find, update_where}
use adept_engine.Jobs.Errors.{Result, ok, err, JobError, value_error, overflow_error, job_ownership}
use adept_engine.Jobs.Errors.{requeue_with_payload as requeued}
use adept_engine.Jobs.Sanitize.{sanitize_error}

-- Microseconds in a second, and the bound of 900 seconds.
abbrev pub second : ℕ
second = 1_000_000

abbrev pub max_delay : ℕ
max_delay = 900_000_000

-- The jitter of a call, where `draw` is what `uniform(0.0, 1.0)` gives.
abbrev jitter_of : Option ℤ → ℕ → ℕ
jitter_of none draw = draw
jitter_of (some j) draw = pos_part j

-- In microseconds. `float(2**attempts)` overflows from 2 ** 1024 on.
unfoldable pub retry_delay_seconds : ℤ → Option ℤ → ℕ → Result ℕ
retry_delay_seconds (negsuc a) jitter_seconds draw =
    err (value_error (codes "attempts cannot be negative"))
retry_delay_seconds (pos attempts) jitter_seconds draw =
    if leb 1024 attempts
    then err (overflow_error (codes "int too large to convert to float"))
    else ok (min max_delay (2 ^ attempts * second + jitter_of jitter_seconds draw))

-- The delay after a provider's own `Retry-After`, in microseconds.
abbrev pub stretch : Option ℤ → ℕ → ℕ
stretch none delay = delay
stretch (some retry_after) delay = min max_delay (max delay (pos_part retry_after))

-- The arguments of `mark_failed` after `error`, with the draw of `uniform`.
pub record FailureOptions : Type 0 where
  pub permanent : Bool
  pub jitter_seconds : Option ℤ
  pub retry_after_seconds : Option ℤ
  pub draw : ℕ

unfoldable pub not_owned : JobError
not_owned = job_ownership (codes "job is not owned by this worker")

module _ {J : Type 0} where
  -- `id = :job_id AND status = 'RUNNING' AND locked_by = :worker_id`
  abbrev pub owns : ℕ → Text → Row J → Bool
  owns job_id worker_id r =
      r.id == job_id && (is_running r.status && owned_by r.locked_by worker_id)

  abbrev pub set_succeeded : ℕ → Row J → Row J
  set_succeeded now r = record r {
    status = Status.succeeded;
    locked_at = none;
    locked_by = none;
    last_error = none;
    finished_at = some now;
    updated_at = now;
    version = r.version + 1;
  }

  unfoldable pub mark_succeeded : ℕ → ℕ → Text → Table J → Result (Unit {0}) × Table J
  unfolding not_owned
  mark_succeeded now job_id worker_id t =
      if count_if (owns job_id worker_id) t == 1
      then (ok tt, update_where (owns job_id worker_id) (set_succeeded now) t)
      else (err not_owned, t)

  abbrev pub set_dead : ℕ → Text → Row J → Row J
  set_dead now error r = record r {
    status = Status.dead;
    locked_at = none;
    locked_by = none;
    last_error = some error;
    finished_at = some now;
    updated_at = now;
    version = r.version + 1;
  }

  abbrev pub set_failed : ℕ → ℕ → Text → Row J → Row J
  set_failed now delay error r = record r {
    status = Status.failed;
    available_at = now + delay;
    locked_at = none;
    locked_by = none;
    last_error = some error;
    finished_at = none;
    updated_at = now;
    version = r.version + 1;
  }

  -- `WHERE id = :job_id`
  abbrev pub has_id : ℕ → Row J → Bool
  has_id job_id r = r.id == job_id

  -- The row that `SELECT ... FOR UPDATE` locks.
  unfoldable pub owned_row : ℕ → Text → Table J → Option (Row J)
  owned_row job_id worker_id t = elim (find job_id t) [
    | none ↦ none
    | some r ↦ if owns job_id worker_id r then some r else none
  ]

  -- The retry after a failure that is not final, once the delay is computed.
  abbrev pub schedule : ℕ → ℕ → Text → Option ℤ → Result ℕ → Table J → Result Text × Table J
  schedule now job_id safe_error retry_after (err e) t = (err e, t)
  schedule now job_id safe_error retry_after (ok delay) t = (
    ok (codes "FAILED"),
    update_where (has_id job_id) (set_failed now (stretch retry_after delay) safe_error) t,
  )

  -- What `mark_failed` does with the row that it selected, if any.
  abbrev pub fail_row :
      ℕ → ℕ → Text → FailureOptions → Option (Row J) → Table J → Result Text × Table J
  fail_row now job_id safe_error o none t = (err not_owned, t)
  fail_row now job_id safe_error o (some r) t =
      if o.permanent || leb r.max_attempts r.attempts
      then (ok (codes "DEAD"), update_where (has_id job_id) (set_dead now safe_error) t)
      else schedule now job_id safe_error o.retry_after_seconds
          (retry_delay_seconds (pos r.attempts) o.jitter_seconds o.draw) t

  unfoldable pub mark_failed :
      ℕ → ℕ → Text → Text → FailureOptions → Table J → Result Text × Table J
  mark_failed now job_id worker_id error o t =
      fail_row now job_id (sanitize_error error) o (owned_row job_id worker_id t) t

  abbrev pub set_pending : ℕ → ℕ → Bool → J → Row J → Row J
  set_pending now delay reset_attempts new_payload r = record r {
    status = Status.pending;
    attempts = if reset_attempts then 0 else r.attempts - 1;
    available_at = now + delay;
    locked_at = none;
    locked_by = none;
    payload = new_payload;
    updated_at = now;
    version = r.version + 1;
  }

  -- The transaction commits first, and the exception that follows tells the dispatcher.
  unfoldable pub requeue_with_payload :
      ℕ → ℕ → Text → J → ℕ → Bool → Table J → Result (Unit {0}) × Table J
  unfolding not_owned
  requeue_with_payload now job_id worker_id new_payload delay reset_attempts t =
      if count_if (owns job_id worker_id) t == 1
      then (
        err requeued,
        update_where (owns job_id worker_id) (set_pending now delay reset_attempts new_payload) t,
      )
      else (err not_owned, t)
