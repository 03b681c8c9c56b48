-- ===== src/Jobs/Claimer/Recovery.antt =====
-- The recovery of stale jobs (app/jobs/claimer.py, `_recover_stale_jobs`).
use adept_engine.Base.{
  ℕ, ◌+◌, ◌≡◌, ◌*◌, refl, Bool, true, ◌&&◌, leb, ltb, codes, Text, false, Option, none, some, [],
  ◌∷◌, arith, if◌then◌else◌, count_if, ap, ◌∙◌,
}
use adept_engine.Jobs.Row.{Row, Status, is_running}
use adept_engine.Jobs.Table.{
  Table, find, find-update_where, update_where, apply_if, after, UniqueIds, update_where-UniqueIds,
}
use adept_engine.Jobs.Retry.{set_dead, set_failed}
use adept_engine.Jobs.Invariant.{AllValid, set_dead-IsValid, set_failed-IsValid}
use adept_engine.Jobs.Keeps.{update-AllValid}
use adept_engine.Jobs.Claimer.{
  Locks, total, is_stale, is_stale_exhausted, is_stale_retryable, recover_stale_jobs,
  stale_lock_error, stale_lock_exhausted_error,
}

-- The lock is unknown, or was taken `stale_after` seconds ago or more.
abbrev pub is_old : ℕ → ℕ → Option ℕ → Bool
is_old now stale_after none = true
is_old now stale_after (some since) = leb (since + stale_after * 1_000_000) now

module _ {J : Type 0} (l : Locks) (now stale_after : ℕ) where
  -- A job that is RUNNING under an old lock, and whose advisory lock nobody holds.
  abbrev pub is_abandoned : Row J → Bool
  is_abandoned r = is_running r.status && (is_old now stale_after r.locked_at && l.job_free r.id)

  -- Unlocked with an error.
  abbrev pub released : Text → Row J → Row J
  released error r = record r {
    locked_at = none;
    locked_by = none;
    last_error = some error;
    updated_at = now;
    version = r.version + 1;
  }

  -- What the recovery makes of one row.
  pub recovered_row : Row J → Row J
  recovered_row r =
      if is_abandoned r && (l.dead_free r.id && leb r.max_attempts r.attempts)
      then record (released
          (codes "STALE_LOCK_EXHAUSTED: previous worker lock expired after the final attempt") r) {
            status = Status.dead;
            finished_at = some now;
          }
      else if is_abandoned r && (l.retry_free r.id && ltb r.attempts r.max_attempts)
      then record (released
          (codes "STALE_LOCK_RECOVERED: previous worker lock expired before completion") r) {
            status = Status.failed;
            available_at = now;
            finished_at = none;
          }
      else r

  pub recovered_find : Option (Row J) → Option (Row J)
  recovered_find none = none
  recovered_find (some r) = some (recovered_row r)

  abbrev exhausted : Row J → Bool
  exhausted = is_stale_exhausted l now stale_after

  abbrev retryable : Row J → Bool
  retryable = is_stale_retryable l now stale_after

  abbrev kill : Row J → Row J
  kill = set_dead now stale_lock_exhausted_error

  abbrev fail : Row J → Row J
  fail = set_failed now 0 stale_lock_error

  abbrev recovered_table : Table J → Table J
  recovered_table t = (recover_stale_jobs l now stale_after t).1

  twice_applied :
      (r : Row J) → apply_if retryable fail (apply_if exhausted kill r) ≡ recovered_row r
  unfolding recovered_row
  twice_applied r = ground arith

  after_twice :
      (o : Option (Row J)) → after retryable fail (after exhausted kill o) ≡ recovered_find o
  unfolding recovered_find
  after_twice none = refl
  after_twice (some r) = ap some (twice_applied r)

  -- The two statements together act on each row by itself: a RUNNING job whose lock is
  -- unknown or was taken `stale_after` seconds ago or more, that no lease holds and whose row is free
  -- for the statement, is DEAD and finished where its attempts are used up and FAILED, available at
  -- once, where they are not; it is unlocked and keeps the error. Every other row is as it was.
  pub find-recover_stale_jobs :
      (i : ℕ) (t : Table J) → find i (recovered_table t) ≡ recovered_find (find i t)
  unfolding recover_stale_jobs
  find-recover_stale_jobs i t =
      find-update_where retryable fail (λ r. refl) i (update_where exhausted kill t)
      ∙ ap (after retryable fail) (find-update_where exhausted kill (λ r. refl) i t)
      ∙ after_twice (find i t)

  pub recover_stale_jobs-UniqueIds : (t : Table J) → UniqueIds t → UniqueIds (recovered_table t)
  unfolding recover_stale_jobs
  recover_stale_jobs-UniqueIds t u =
      update_where-UniqueIds retryable fail (λ r. refl) (update_where exhausted kill t)
        (update_where-UniqueIds exhausted kill (λ r. refl) t u)

  pub recover_stale_jobs-AllValid : (t : Table J) → AllValid t → AllValid (recovered_table t)
  unfolding recover_stale_jobs
  recover_stale_jobs-AllValid t v =
      update-AllValid retryable fail (λ r. refl)
        (λ r k e. set_failed-IsValid r k now 0 stale_lock_error) (update_where exhausted kill t)
        (update-AllValid exhausted kill (λ r. refl)
          (λ r k e. set_dead-IsValid r k now stale_lock_exhausted_error) t v)

  abbrev stale : Row J → Bool
  stale = is_stale l.job_free l.retry_free now stale_after

  row_total :
      (r : Row J)
      → l.dead_free r.id ≡ l.retry_free r.id
      → (if retryable (apply_if exhausted kill r) then 1 else 0) + (if exhausted r then 1 else 0)
        ≡ (if stale r then 1 else 0)
  row_total r e = ground arith

  row_none :
      (r : Row J)
      → l.dead_free r.id ≡ l.retry_free r.id
      → stale (apply_if retryable fail (apply_if exhausted kill r)) ≡ false
  row_none r e = ground arith

  -- Where the two statements find the same rows unlocked, no such job is left, and the reported
  -- total is the number that there was.
  pub recover_stale_jobs_complete :
      (t : Table J)
      → ((i : ℕ) → l.dead_free i ≡ l.retry_free i)
      → (total (recover_stale_jobs l now stale_after t).0 ≡ count_if stale t)
        × (count_if stale (recovered_table t) ≡ 0)
  unfolding recover_stale_jobs
  recover_stale_jobs_complete [] same_rows = (refl, refl)
  recover_stale_jobs_complete (r ∷ t) same_rows =
      let rest = recover_stale_jobs_complete t same_rows in
      (
        omega (arith, row_total r (same_rows r.id), rest.0),
        rw (row_none r (same_rows r.id)) (omega (arith, rest.1)),
      )
