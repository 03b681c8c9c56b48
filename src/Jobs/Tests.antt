-- ===== src/Jobs/Tests.antt =====
-- Concrete runs of app/jobs, and the theorems about it at inputs that meet their hypotheses.
use adept_engine.Base.{
  ◌+◌, ℕ, ◌*◌, ◌≡◌, refl, true, false, ◌&&◌, Option, none, some, [], ◌∷◌, map, Text, codes, arith,
  length, min, All, count_if, pos, same,
}
use adept_engine.Base.Sorting.{IsSorted}
use adept_engine.Jobs.Row.{Status, Row, ClaimedJob}
use adept_engine.Jobs.Table.{Table, find, UniqueIds}
use adept_engine.Jobs.Errors.{ok, err}
use adept_engine.Jobs.Sanitize.{sanitize_error}
use adept_engine.Jobs.Retry.{
  second, FailureOptions, owned_row, not_owned, mark_succeeded, mark_failed, requeue_with_payload,
  set_failed,
}
use adept_engine.Jobs.Retry.Outcomes.{Wrote, finish_needs_owner}
use adept_engine.Jobs.Retry.Failure.{given_up, mark_failed_dead}
use adept_engine.Jobs.Invariant.{AllValid}
use adept_engine.Jobs.Claimer.{
  Locks, stale_lock_error, claim_jobs, claim_transaction, recover_stale_jobs, is_stale, total,
  is_due, job_le, row_key, key_le,
}
use adept_engine.Jobs.Claimer.Recovery.{
  find-recover_stale_jobs, recovered_find, recover_stale_jobs_complete,
}
use adept_engine.Jobs.Claimer.Claims.{
  recovered, returned, committed, StartedJob, claim_jobs_result, claim_jobs_best_first,
}

abbrev row : ℕ → Status → ℕ → ℕ → ℕ → Option ℕ → Option Text → Row ℕ
row id status priority attempts created since owner = record {
  id = id;
  job_type = codes "EVALUATE_ALERTS";
  payload = id;
  status = status;
  priority = priority;
  attempts = attempts;
  max_attempts = 3;
  available_at = 0;
  locked_at = since;
  locked_by = owner;
  last_error = none;
  finished_at = none;
  created_at = created;
  updated_at = created;
  version = 0;
  workspace_id = none;
  repository_id = none;
  raw_event_id = none;
}

abbrev ann : Text
ann = codes "ann"

-- Two jobs wait, one runs for `ann`, and the locks of two others have expired.
abbrev queue : Table ℕ
queue =
    row 1 Status.pending 20 0 5 none none
    ∷ row 2 Status.running 10 1 6 (some (999 * second)) (some ann)
    ∷ row 3 Status.running 10 3 7 (some 0) (some (codes "bob"))
    ∷ row 4 Status.running 30 1 8 (some 0) (some (codes "bob"))
    ∷ row 5 Status.pending 10 1 9 none none
    ∷ []

abbrev free : Locks
free = record {
  job_free = λ i. true;
  dead_free = λ i. true;
  retry_free = λ i. true;
  claim_free = λ i. true;
}

abbrev now : ℕ
now = 1_000 * second

queue-UniqueIds : UniqueIds queue
queue-UniqueIds = (refl, (refl, (refl, (refl, (refl, tt)))))

claimed_ids : map (λ (j : ClaimedJob ℕ). j.id) (returned free now ann 2 60 queue) ≡ 5 ∷ 1 ∷ []
unfolding claim_transaction
claimed_ids = refl

claim_jobs_result_example :
    (claim_jobs free now ann 2 60 queue
      ≡ (ok (claim_transaction free now ann 2 60 queue).0, committed free now ann 2 60 queue))
    × IsSorted job_le (returned free now ann 2 60 queue)
    × (length (returned free now ann 2 60 queue)
        ≡ min 2 (
            count_if
              (λ (r : Row ℕ). is_due now r && free.claim_free r.id)
              (recovered free now ann 2 60 queue)))
    × All (StartedJob free now ann 2 60 queue) (returned free now ann 2 60 queue)
claim_jobs_result_example = claim_jobs_result free now ann 2 60 queue queue-UniqueIds refl

-- Job 4 after its lock has expired.
abbrev late : Row ℕ
late = set_failed now 0 stale_lock_error (row 4 Status.running 30 1 8 (some 0) (some (codes "bob")))

claim_jobs_best_first_example :
    (length (returned free now ann 2 60 queue) ≡ 2)
    × All
        (λ (j : ClaimedJob ℕ). key_le (j.priority, j.created_at, j.id) (row_key late) ≡ true)
        (returned free now ann 2 60 queue)
unfolding claim_transaction
claim_jobs_best_first_example =
    claim_jobs_best_first free now ann 2 60 queue late queue-UniqueIds refl refl refl refl

queue-AllValid : AllValid queue
queue-AllValid = (
  queue-UniqueIds,
  (ground arith, (ground arith, (ground arith, (ground arith, (ground arith, tt))))),
)

find-recover_stale_jobs_example :
    find 3 (recovered free now ann 2 60 queue) ≡ recovered_find free now 60 (find 3 queue)
find-recover_stale_jobs_example = find-recover_stale_jobs free now 60 3 queue

recover_stale_jobs_complete_example :
    (total (recover_stale_jobs free now 60 queue).0
      ≡ count_if (is_stale free.job_free free.retry_free now 60) queue)
    × (count_if
          (is_stale free.job_free free.retry_free now 60)
          (recover_stale_jobs free now 60 queue).1
        ≡ 0)
recover_stale_jobs_complete_example = recover_stale_jobs_complete free now 60 queue (λ i. refl)

recovery_counts : (recover_stale_jobs free now 60 queue).0 ≡ record { retryable = 1; dead = 1 }
unfolding recover_stale_jobs
recovery_counts = refl

abbrev running : Row ℕ
running = row 2 Status.running 10 1 6 (some (999 * second)) (some ann)

ann_owns : owned_row 2 ann queue ≡ some running
unfolding owned_row same
ann_owns = refl

bob_does_not : owned_row 2 (codes "bob") queue ≡ none
unfolding owned_row same
bob_does_not = refl

abbrev options : FailureOptions
options = record {
  permanent = false;
  jitter_seconds = none;
  retry_after_seconds = some (pos (30 * second));
  draw = 500_000;
}

finish_needs_owner_example :
    (mark_succeeded now 2 (codes "bob") queue ≡ (err not_owned, queue))
    × (mark_failed now 2 (codes "bob") (codes "x") options queue ≡ (err not_owned, queue))
    × (requeue_with_payload now 2 (codes "bob") 7 5 false queue ≡ (err not_owned, queue))
finish_needs_owner_example =
    finish_needs_owner now 2 (codes "bob") (codes "x") options 7 5 false queue queue-UniqueIds
      bob_does_not

abbrev permanent : FailureOptions
permanent = record options { permanent = true }

mark_failed_dead_example :
    ((mark_failed now 2 ann (codes "x") permanent queue).0 ≡ ok (codes "DEAD"))
    × Wrote 2 queue
        (given_up now (sanitize_error (codes "x")) running)
        (mark_failed now 2 ann (codes "x") permanent queue).1
    × (is_due (now + 9) (given_up now (sanitize_error (codes "x")) running) ≡ false)
    × (is_stale
          (λ i. true)
          (λ i. true)
          (now + 9)
          60
          (given_up now (sanitize_error (codes "x")) running)
        ≡ false)
mark_failed_dead_example =
    mark_failed_dead now 2 ann (codes "x") permanent queue running (now + 9) 60 (λ i. true)
      (λ i. true) ann_owns refl
