-- ===== src/Jobs/Dispatcher/Outcomes.antt =====
-- What a dispatch leaves behind (app/jobs/dispatcher.py): the reported outcome against the row,
-- and the worker that lost the job while its handler ran.
use adept_engine.Base.{
  ℕ, ◌≡◌, ◌++◌, ◌≢◌, ◌<◌, ◌||◌, refl, true, false, none, some, Text, codes, same, inl, inr,
  Bool-cases,
}
use adept_engine.Jobs.Row.{Status, Row, ClaimedJob}
use adept_engine.Jobs.Table.{Table, UniqueIds}
use adept_engine.Jobs.Errors.{
  Result, ok, err, permanent_job, provider, other, value_error, overflow_error, job_ownership,
  scope_busy,
}
use adept_engine.Jobs.Errors.{requeue_with_payload as requeued}
use adept_engine.Jobs.Sanitize.{sanitize_error}
use adept_engine.Jobs.Retry.{FailureOptions, owned_row, not_owned, set_failed, set_succeeded}
use adept_engine.Jobs.Retry.Outcomes.{Wrote, mark_succeeded-Wrote, finish_needs_owner}
use adept_engine.Jobs.Retry.Failure.{mark_failed_dead, mark_failed_retry, exhausted, given_up}
use adept_engine.Jobs.Dispatcher.{
  Handler, Handlers, JobDispatchOutcome, succeeded, retry_scheduled, dead_lettered,
  continuation_requeued, get_handler, failure_outcome, permanently, plain, after_provider, fail,
  settle, run_handler, dispatch_job,
}

-- The status of the row after an outcome that the dispatcher wrote.
abbrev pub written_status : JobDispatchOutcome → Status
written_status succeeded = Status.succeeded
written_status retry_scheduled = Status.failed
written_status dead_lettered = Status.dead
written_status continuation_requeued = Status.pending

-- The attempt of job `i` is over: the outcome is reported, the row has its status and is
-- unlocked, and no other row has changed.
abbrev pub Settled : {J : Type 0} → ℕ → Table J → Result JobDispatchOutcome × Table J → Type 0
Settled {J} i t (result, t') =
    (outcome : JobDispatchOutcome) × (r' : Row J) × (result ≡ ok outcome)
    × (r'.status ≡ written_status outcome)
    × (r'.locked_by ≡ none)
    × Wrote i t r' t'

module _ {J : Type 0} (now draw : ℕ) (job : ClaimedJob J) (w : Text) (t : Table J) where
  module _ (r : Row J) (held : owned_row job.id w t ≡ some r) (few : r.attempts < 1024) where
    fail-Settled :
        (error : Text) (o : FailureOptions) → Settled job.id t (fail now draw job w error o t)
    unfolding failure_outcome same
    fail-Settled error o = elim (Bool-cases (o.permanent || exhausted r)) [
      | inl e ↦
          let d = mark_failed_dead now job.id w error o t r 0 0 (λ x. true) (λ x. true) held e in
          (dead_lettered, given_up now (sanitize_error error) r, rw (d.0), refl, refl, d.1)
      | inr e ↦
          let d = mark_failed_retry now job.id w error o t r held e few in
          (
            retry_scheduled,
            set_failed now (d.0) (sanitize_error error) r,
            rw (d.1),
            refl,
            refl,
            d.2,
          )
    ]

    settle-Settled :
        (u : UniqueIds t) (result : Result (Unit {0}))
        → result ≢ err requeued
        → Settled job.id t (settle now draw job w result t)
    settle-Settled u (ok tt) ne =
        let d = mark_succeeded-Wrote now job.id w t r u held in
        (succeeded, set_succeeded now r, rw (d.0), refl, refl, d.1)
    settle-Settled u (err requeued) ne = absurd (ne refl)
    settle-Settled u (err (permanent_job m)) ne = fail-Settled m (permanently draw)
    settle-Settled u (err (provider m retry_after)) ne =
        fail-Settled m (after_provider retry_after draw)
    settle-Settled u (err (value_error m)) ne = fail-Settled m (plain draw)
    settle-Settled u (err (overflow_error m)) ne = fail-Settled m (plain draw)
    settle-Settled u (err (job_ownership m)) ne = fail-Settled m (plain draw)
    settle-Settled u (err (scope_busy m)) ne = fail-Settled m (plain draw)
    settle-Settled u (err (other m)) ne = fail-Settled m (plain draw)

  module _ (u : UniqueIds t) (lost : owned_row job.id w t ≡ none) where
    fail_lost :
        (error : Text) (o : FailureOptions) → fail now draw job w error o t ≡ (err not_owned, t)
    fail_lost error o =
        rw ((finish_needs_owner now job.id w error o job.payload 0 false t u lost).1)

    settle_lost :
        (result : Result (Unit {0}))
        → result ≢ err requeued
        → settle now draw job w result t ≡ (err not_owned, t)
    settle_lost (ok tt) ne =
        rw
          ((finish_needs_owner now job.id w (codes "") (plain draw) job.payload 0 false t u lost).0)
    settle_lost (err requeued) ne = absurd (ne refl)
    settle_lost (err (permanent_job m)) ne = fail_lost m (permanently draw)
    settle_lost (err (provider m retry_after)) ne = fail_lost m (after_provider retry_after draw)
    settle_lost (err (value_error m)) ne = fail_lost m (plain draw)
    settle_lost (err (overflow_error m)) ne = fail_lost m (plain draw)
    settle_lost (err (job_ownership m)) ne = fail_lost m (plain draw)
    settle_lost (err (scope_busy m)) ne = fail_lost m (plain draw)
    settle_lost (err (other m)) ne = fail_lost m (plain draw)

module _ {J : Type 0} (handlers : Handlers J) (now draw : ℕ) (job : ClaimedJob J) (w : Text)
    (t : Table J) where
  module _ (handler : Handler J) (t' : Table J) (result : Result (Unit {0}))
      (known : get_handler handlers job.job_type ≡ some handler)
      (ran : handler job w t ≡ (result, t')) (done : result ≢ err requeued)
      (unique : UniqueIds t') where
    dispatch_runs : dispatch_job handlers now draw job w t ≡ settle now draw job w result t'
    unfolding dispatch_job
    dispatch_runs = rw (known, run_handler) (rw ran)

    -- However the handler of a job ends, but for a requeue that it made itself: if ids are
    -- distinct and the worker still holds the job then, on fewer than 1024 attempts, the
    -- dispatcher ends the attempt in one write to its row, whose new status is the one of the
    -- outcome that it reports; the lock is released and no other row changes.
    pub dispatch_job-Settled :
        (r : Row J)
        → owned_row job.id w t' ≡ some r
        → r.attempts < 1024
        → Settled job.id t' (dispatch_job handlers now draw job w t)
    dispatch_job-Settled r held few =
        rw dispatch_runs (settle-Settled now draw job w t' r held few unique result done)

    -- However the handler of a job ends, but for a requeue that it made itself: if ids are
    -- distinct and the worker has lost the job by then, the dispatcher raises `JobOwnershipError`
    -- and writes nothing, whether the handler succeeded or failed.
    pub dispatch_job_lost :
        owned_row job.id w t' ≡ none → dispatch_job handlers now draw job w t ≡ (err not_owned, t')
    dispatch_job_lost lost =
        rw dispatch_runs (settle_lost now draw job w t' unique lost result done)

  -- A job that the worker holds, of a type that has no handler, is dead at once, whatever attempts
  -- it has left, and no other row changes.
  pub dispatch_job_unsupported :
      (r : Row J)
      → get_handler handlers job.job_type ≡ none
      → owned_row job.id w t ≡ some r
      → ((dispatch_job handlers now draw job w t).0 ≡ ok dead_lettered)
        × Wrote job.id t
            (given_up now (sanitize_error (codes "UNSUPPORTED_JOB_TYPE: " ++ job.job_type)) r)
            (dispatch_job handlers now draw job w t).1
  unfolding dispatch_job failure_outcome same
  dispatch_job_unsupported r unknown held =
      let error = codes "UNSUPPORTED_JOB_TYPE: " ++ job.job_type in
      let d =
        mark_failed_dead now job.id w error (permanently draw) t r 0 0 (λ x. true) (λ x. true) held
          refl in
      rw (unknown, run_handler) (rw (d.0), d.1)
