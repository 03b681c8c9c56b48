-- ===== src/Jobs/Claimer.antt =====
-- app/jobs/claimer.py: recovery of stale jobs and the claim, which run in one transaction at `now`.
-- `SKIP LOCKED` and `pg_try_advisory_xact_lock` depend on what other transactions hold: the record
-- `Locks` says, for each statement, which rows and which advisory locks it could take.
pub mod Order
pub mod Selection
pub mod Claims
pub mod Recovery
use adept_engine.Base.{
  ℕ, ◌+◌, ◌*◌, ◌≡◌, Bool, true, false, ◌&&◌, ◌||◌, not, Option, none, some, List, [], ◌∷◌, map,
  Text, codes, ◌==◌, leb, ltb, if◌then◌else◌, count_if, keep, take, length, is_some,
}
use adept_engine.Base.Sorting.{sort_by}
use adept_engine.Jobs.Row.{Status, Row, ClaimedJob, from_row, is_running, is_claimable}
use adept_engine.Jobs.Table.{Table, find, update_where}
use adept_engine.Jobs.Errors.{Result, ok, err, value_error}
use adept_engine.Jobs.Retry.{second, set_dead, set_failed}

abbrev pub stale_lock_error : Text
stale_lock_error = codes "STALE_LOCK_RECOVERED: previous worker lock expired before completion"

abbrev pub stale_lock_exhausted_error : Text
stale_lock_exhausted_error =
    codes "STALE_LOCK_EXHAUSTED: previous worker lock expired after the final attempt"

pub record StaleJobRecovery : Type 0 where
  pub retryable : ℕ
  pub dead : ℕ

-- `StaleJobRecovery.total`
abbrev pub total : StaleJobRecovery → ℕ
total s = s.retryable + s.dead

pub record Claimed (J : Type 0) : Type 0 where
  pub jobs : List (ClaimedJob J)
  -- what `on_stale_recovery` is called with, if it is called
  pub recovered : Option StaleJobRecovery

-- The checks of `claim_jobs` on its arguments; a negative limit is refused as 0 is.
abbrev pub refused : Text → ℕ → ℕ → Option Text
refused worker_id limit stale_after =
    if length worker_id == 0 || ltb 128 (length worker_id)
    then some (codes "worker_id must contain 1 to 128 characters")
    else if ltb limit 1 || ltb 100 limit
    then some (codes "limit must be between 1 and 100")
    else if ltb stale_after 30 || ltb 86_400 stale_after
    then some (codes "stale_after_seconds must be between 30 and 86400")
    else none

pub record Locks : Type 0 where
  -- the advisory lock of a job could be taken
  pub job_free : ℕ → Bool
  -- the row was not locked by another transaction, when the statement came to it
  pub dead_free : ℕ → Bool
  pub retry_free : ℕ → Bool
  pub claim_free : ℕ → Bool

-- `locked_at IS NULL OR locked_at <= now() - make_interval(secs => :stale_after_seconds)`
abbrev pub lock_expired : ℕ → ℕ → Option ℕ → Bool
lock_expired now stale_after none = true
lock_expired now stale_after (some since) = leb (since + stale_after * second) now

-- `ORDER BY priority ASC, created_at ASC, id ASC`, and the key of `jobs.sort`.
abbrev pub key_le : ℕ × ℕ × ℕ → ℕ × ℕ × ℕ → Bool
key_le (p, c, i) (p', c', i') =
    if ltb p p'
    then true
    else if ltb p' p
    then false
    else if ltb c c'
    then true
    else if ltb c' c
    then false
    else leb i i'

module _ {J : Type 0} where
  -- The `WHERE` of both stale-job statements, but for the test on the attempts.
  abbrev pub is_stale : (ℕ → Bool) → (ℕ → Bool) → ℕ → ℕ → Row J → Bool
  is_stale job_free row_free now stale_after r =
      is_running r.status
      && (lock_expired now stale_after r.locked_at && (job_free r.id && row_free r.id))

  -- MARK_EXHAUSTED_STALE_JOBS_DEAD_SQL
  abbrev pub is_stale_exhausted : Locks → ℕ → ℕ → Row J → Bool
  is_stale_exhausted l now stale_after r =
      leb r.max_attempts r.attempts && is_stale l.job_free l.dead_free now stale_after r

  -- REQUEUE_RETRYABLE_STALE_JOBS_SQL
  abbrev pub is_stale_retryable : Locks → ℕ → ℕ → Row J → Bool
  is_stale_retryable l now stale_after r =
      ltb r.attempts r.max_attempts && is_stale l.job_free l.retry_free now stale_after r

  -- `_recover_stale_jobs`. The second statement sees the rows that the first one left.
  unfoldable pub recover_stale_jobs : Locks → ℕ → ℕ → Table J → StaleJobRecovery × Table J
  recover_stale_jobs l now stale_after t =
      let dead = is_stale_exhausted l now stale_after in
      let t' = update_where dead (set_dead now stale_lock_exhausted_error) t in
      let retryable = is_stale_retryable l now stale_after in
      (
        record { retryable = count_if retryable t'; dead = count_if dead t },
        update_where retryable (set_failed now 0 stale_lock_error) t',
      )

  abbrev pub is_due : ℕ → Row J → Bool
  is_due now r = is_claimable r.status && (leb r.available_at now && ltb r.attempts r.max_attempts)

  abbrev pub row_key : Row J → ℕ × ℕ × ℕ
  row_key r = (r.priority, r.created_at, r.id)

  abbrev pub row_le : Row J → Row J → Bool
  row_le a b = key_le (row_key a) (row_key b)

  -- The common table expression `claim` of CLAIM_SQL.
  abbrev pub chosen : Locks → ℕ → ℕ → Table J → List (Row J)
  chosen l now limit t =
      take limit (sort_by row_le (keep (λ r. is_due now r && l.claim_free r.id) t))

  -- `WHERE job.id = claim.id`
  abbrev pub is_chosen : List (Row J) → Row J → Bool
  is_chosen claim r = is_some (find r.id claim)

  abbrev pub set_running : ℕ → Text → Row J → Row J
  set_running now worker_id r = record r {
    status = Status.running;
    locked_at = some now;
    locked_by = some worker_id;
    attempts = r.attempts + 1;
    updated_at = now;
    version = r.version + 1;
  }

  -- CLAIM_SQL: `RETURNING job.*` and the new table. Which order the rows come in is not promised;
  -- here it is the table's, and `claim_jobs` sorts them again.
  unfoldable pub claim : Locks → ℕ → Text → ℕ → Table J → List (Row J) × Table J
  claim l now worker_id limit t =
      let picked = is_chosen (chosen l now limit t) in
      (
        map (set_running now worker_id) (keep picked t),
        update_where picked (set_running now worker_id) t,
      )

  abbrev pub job_le : ClaimedJob J → ClaimedJob J → Bool
  job_le a b = key_le (a.priority, a.created_at, a.id) (b.priority, b.created_at, b.id)

  unfoldable pub claim_transaction : Locks → ℕ → Text → ℕ → ℕ → Table J → Claimed J × Table J
  unfolding recover_stale_jobs claim from_row
  claim_transaction l now worker_id limit stale_after t =
      let (recovery, t') = recover_stale_jobs l now stale_after t in
      let (rows, t'') = claim l now worker_id limit t' in
      (
        record {
          jobs = sort_by job_le (map from_row rows);
          recovered = if total recovery == 0 then none else some recovery;
        },
        t'',
      )

  -- Raising inside the checks comes before the transaction.
  abbrev pub claim_unless :
      Option Text → Claimed J × Table J → Table J → Result (Claimed J) × Table J
  claim_unless (some problem) done t = (err (value_error problem), t)
  claim_unless none done t = (ok done.0, done.1)

  unfoldable pub claim_jobs : Locks → ℕ → Text → ℕ → ℕ → Table J → Result (Claimed J) × Table J
  unfolding claim_transaction
  claim_jobs l now worker_id limit stale_after t =
      claim_unless (refused worker_id limit stale_after)
        (claim_transaction l now worker_id limit stale_after t) t
