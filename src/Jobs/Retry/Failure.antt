-- ===== src/Jobs/Retry/Failure.antt =====
-- `mark_failed` of app/jobs/retry.py for a job that the worker holds: dead or retried, and when.
use adept_engine.Base.{
  ◌+◌, true, ℕ, ◌*◌, ◌^◌, ◌≡◌, ◌≤◌, ◌<◌, refl, Bool, false, ◌||◌, Option, none, some, Text, codes,
  arith, leb, le→leb, ℤ, min, pos_part,
}
use adept_engine.Jobs.Row.{Row, Status}
use adept_engine.Jobs.Table.{Table}
use adept_engine.Jobs.Errors.{ok}
use adept_engine.Jobs.Sanitize.{sanitize_error}
use adept_engine.Jobs.Retry.{
  owned_row, mark_failed, set_dead, set_failed, stretch, FailureOptions, max_delay, second,
  retry_delay_seconds,
}
use adept_engine.Jobs.Retry.Delay.{delay_of, retry_delay-ok}
use adept_engine.Jobs.Claimer.{is_due, is_stale}
use adept_engine.Jobs.Retry.Outcomes.{Wrote, Wrote-by_id}

abbrev pub exhausted : {J : Type 0} → Row J → Bool
exhausted r = leb r.max_attempts r.attempts

-- What the provider asked for, in microseconds.
abbrev pub asked : Option ℤ → ℕ
asked none = 0
asked (some x) = pos_part x

abbrev retry_delay : {J : Type 0} → FailureOptions → Row J → ℕ
retry_delay o r = stretch o.retry_after_seconds (delay_of r.attempts o.jitter_seconds o.draw)

stretch_bounds :
    (x : Option ℤ) (d : ℕ)
    → d ≤ max_delay
    → (d ≤ stretch x d) × (stretch x d ≤ max_delay) × (min max_delay (asked x) ≤ stretch x d)
stretch_bounds x d h = ground arith

delay_of_bounds :
    (a : ℕ) (j : Option ℤ) (u : ℕ)
    → (delay_of a j u ≤ max_delay) × (min max_delay (2 ^ a * second) ≤ delay_of a j u)
unfolding delay_of
delay_of_bounds a j u = omega arith

-- The row of a job that is given up: it is DEAD and finished, nobody owns it, the error is kept, and
-- everything else is as it was.
abbrev pub given_up : {J : Type 0} → ℕ → Text → Row J → Row J
given_up now error r = record {
  id = r.id;
  job_type = r.job_type;
  payload = r.payload;
  status = Status.dead;
  priority = r.priority;
  attempts = r.attempts;
  max_attempts = r.max_attempts;
  available_at = r.available_at;
  locked_at = none;
  locked_by = none;
  last_error = some error;
  finished_at = some now;
  created_at = r.created_at;
  updated_at = now;
  version = r.version + 1;
  workspace_id = r.workspace_id;
  repository_id = r.repository_id;
  raw_event_id = r.raw_event_id;
}

module _ {J : Type 0} (now i : ℕ) (w error : Text) (o : FailureOptions) (t : Table J)
    (r : Row J) where
  -- A permanent failure, or one of the last attempt, of a job that the worker holds gives the job up:
  -- its row is DEAD, unlocked and finished now, with the sanitized error, its attempts and all else as
  -- they were; at no later time does a claim take it, and no recovery takes it for stale, whatever
  -- locks there are; and no other row changes.
  pub mark_failed_dead :
      (later stale_after : ℕ) (job_free row_free : ℕ → Bool)
      → owned_row i w t ≡ some r
      → (o.permanent || exhausted r) ≡ true
      → ((mark_failed now i w error o t).0 ≡ ok (codes "DEAD"))
        × Wrote i t (given_up now (sanitize_error error) r) (mark_failed now i w error o t).1
        × (is_due later (given_up now (sanitize_error error) r) ≡ false)
        × (is_stale job_free row_free later stale_after (given_up now (sanitize_error error) r)
            ≡ false)
  unfolding mark_failed
  mark_failed_dead later stale_after job_free row_free h d = rw h (
      rw d
        (refl, Wrote-by_id (set_dead now (sanitize_error error)) (λ x. refl) i w t r h, refl, refl))

  pub mark_failed_retry :
      owned_row i w t ≡ some r
      → (o.permanent || exhausted r) ≡ false
      → r.attempts < 1024
      → (delay : ℕ) × ((mark_failed now i w error o t).0 ≡ ok (codes "FAILED"))
        × Wrote i t
            (set_failed now delay (sanitize_error error) r)
            (mark_failed now i w error o t).1
        × (delay ≤ max_delay)
        × (min max_delay (2 ^ r.attempts * second) ≤ delay)
        × (min max_delay (asked o.retry_after_seconds) ≤ delay)
  unfolding mark_failed
  mark_failed_retry h d a =
      let written =
        Wrote-by_id (set_failed now (retry_delay o r) (sanitize_error error)) (λ x. refl) i w t r
          h in
      let ok_delay = retry_delay-ok r.attempts o.jitter_seconds o.draw a in
      let bounds = delay_of_bounds r.attempts o.jitter_seconds o.draw in
      let wide =
        stretch_bounds o.retry_after_seconds (delay_of r.attempts o.jitter_seconds o.draw)
          bounds.0 in
      (
        retry_delay o r,
        rw h (rw d (rw ok_delay)),
        rw h (rw d (rw ok_delay written)),
        wide.1,
        omega arith,
        wide.2,
      )

  -- `float(2**attempts)` overflows from the 1024th attempt on: the failure is not recorded.
  pub mark_failed_overflow :
      owned_row i w t ≡ some r
      → (o.permanent || exhausted r) ≡ false
      → 1024 ≤ r.attempts
      → (mark_failed now i w error o t).1 ≡ t
  unfolding mark_failed retry_delay_seconds
  mark_failed_overflow h d a = rw h (rw d (rw (le→leb 1024 r.attempts a)))
