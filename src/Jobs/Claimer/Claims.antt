-- ===== src/Jobs/Claimer/Claims.antt =====
-- What `claim_jobs` promises to its caller (app/jobs/claimer.py).
use adept_engine.Base.{
  ℕ, ◌≡◌, refl, true, ◌&&◌, none, some, List, map, Text, arith, All, All-imp, All-map, count_if,
  keep, length, min, length-map, ◌∙◌, subst, inl, inr, Option-cases,
}
use adept_engine.Base.Sorting.{IsSorted, All-sort_by, sort_by-IsSorted, length-sort_by}
use adept_engine.Jobs.Row.{Row, ClaimedJob, from_row}
use adept_engine.Jobs.Table.{Table, find, UniqueIds}
use adept_engine.Jobs.Errors.{ok}
use adept_engine.Jobs.Invariant.{AllValid}
use adept_engine.Jobs.Claimer.{
  Locks, is_due, row_key, key_le, job_le, chosen, is_chosen, set_running, claim, refused,
  claim_unless, recover_stale_jobs, claim_transaction, claim_jobs,
}
use adept_engine.Jobs.Claimer.Order.{job_le-IsTotal}
use adept_engine.Jobs.Claimer.Recovery.{recover_stale_jobs-AllValid, recover_stale_jobs-UniqueIds}
use adept_engine.Jobs.Claimer.Selection.{
  claimed-IsStarted, length-claim, claim_takes_first, claim_is_full, claim-AllValid,
}

module _ {J : Type 0} (l : Locks) (now : ℕ) (w : Text) (limit stale_after : ℕ) (t : Table J) where
  -- The table between the recovery and the claim.
  abbrev pub recovered : Table J
  recovered = (recover_stale_jobs l now stale_after t).1

  abbrev claim_rows : List (Row J)
  claim_rows = keep (is_chosen (chosen l now limit recovered)) recovered

  -- What is returned, and what is committed.
  abbrev pub returned : List (ClaimedJob J)
  returned = (claim_transaction l now w limit stale_after t).0.jobs

  abbrev pub committed : Table J
  committed = (claim_transaction l now w limit stale_after t).1

  pub claim_jobs-ok :
      refused w limit stale_after ≡ none
      → claim_jobs l now w limit stale_after t
        ≡ (ok (claim_transaction l now w limit stale_after t).0, committed)
  unfolding claim_jobs
  claim_jobs-ok h = rw (h, claim_unless)

  returned_all :
      (P : ClaimedJob J → Type 0)
      → All (λ x. P (from_row (set_running now w x))) claim_rows
      → All P returned
  unfolding claim_transaction
  returned_all P h = All-sort_by job_le P (map from_row (map (set_running now w) claim_rows)) (
      All-map P from_row (map (set_running now w) claim_rows)
        (All-map (λ r. P (from_row r)) (set_running now w) claim_rows h))

  length-returned : length returned ≡ length (claim l now w limit recovered).0
  unfolding claim_transaction claim
  length-returned =
      length-sort_by job_le (map from_row (map (set_running now w) claim_rows))
      ∙ length-map from_row (map (set_running now w) claim_rows)

  -- The job stands for a row that was ready and not locked and now runs for this worker, with one
  -- attempt more.
  abbrev pub StartedJob : ClaimedJob J → Type 0
  StartedJob j =
      (x : Row J) × (find x.id recovered ≡ some x)
      × (is_due now x ≡ true)
      × (l.claim_free x.id ≡ true)
      × (find x.id committed ≡ some (set_running now w x))
      × (j ≡ from_row (set_running now w x))

  returned-IsSorted : IsSorted job_le returned
  unfolding claim_transaction
  returned-IsSorted =
      sort_by-IsSorted job_le job_le-IsTotal (map from_row (map (set_running now w) claim_rows))

  committed_row :
      (x : Row J)
      → find x.id (claim l now w limit recovered).1 ≡ some (set_running now w x)
      → find x.id committed ≡ some (set_running now w x)
  unfolding claim_transaction
  committed_row x h = h

  claimed_table : committed ≡ (claim l now w limit recovered).1
  unfolding claim_transaction
  claimed_table = refl

  -- In a table with distinct ids, and with arguments that pass the checks, `claim_jobs` returns
  -- jobs in the order of priority, age and id; as many as are ready and not locked after the
  -- recovery, up to the limit; and each of them stands for such a row, which now runs for the
  -- worker.
  pub claim_jobs_result :
      UniqueIds t
      → refused w limit stale_after ≡ none
      → (claim_jobs l now w limit stale_after t
          ≡ (ok (claim_transaction l now w limit stale_after t).0, committed))
        × IsSorted job_le returned
        × (length returned
            ≡ min limit (count_if (λ r. is_due now r && l.claim_free r.id) recovered))
        × All StartedJob returned
  claim_jobs_result u h =
      let v = recover_stale_jobs-UniqueIds l now stale_after t u in
      (
        claim_jobs-ok h,
        returned-IsSorted,
        length-returned ∙ length-claim l now limit recovered v w,
        returned_all StartedJob (
            All-imp (λ x s. (x, s.0, s.1, s.2, committed_row x s.3, refl)) claim_rows
              (claimed-IsStarted l now limit recovered v w)),
      )

  -- A claim in a table with distinct ids serves the queue in order: a job that was ready and not
  -- locked after the recovery and is left unchanged comes after every returned job in the order of
  -- priority, age and id, and the claim is full.
  pub claim_jobs_best_first :
      (r : Row J)
      → UniqueIds t
      → find r.id recovered ≡ some r
      → is_due now r ≡ true
      → l.claim_free r.id ≡ true
      → find r.id committed ≡ some r
      → (length returned ≡ limit)
        × All (λ j. key_le (j.priority, j.created_at, j.id) (row_key r) ≡ true) returned
  unfolding from_row
  claim_jobs_best_first r u i due free left =
      let v = recover_stale_jobs-UniqueIds l now stale_after t u in
      let ready : (is_due now r && l.claim_free r.id) ≡ true = ground arith in
      let left' = subst (λ (s : Table J). find r.id s ≡ some r) claimed_table left in
      (
        length-returned ∙ claim_is_full l now limit recovered v r i ready w left',
        returned_all (λ j. key_le (j.priority, j.created_at, j.id) (row_key r) ≡ true)
            (claim_takes_first l now limit recovered v r i ready w left'),
      )

  -- A claim, refused or not, keeps the invariant of a valid table: distinct ids, locks exactly on
  -- running rows, an end time exactly on final ones, and no more attempts than allowed.
  pub claim_jobs-AllValid : AllValid t → AllValid (claim_jobs l now w limit stale_after t).1
  unfolding claim_jobs
  claim_jobs-AllValid v = elim (Option-cases (refused w limit stale_after)) [
    | inl e ↦
        rw (e, claim_unless)
          let valid = recover_stale_jobs-AllValid l now stale_after t v in
            claim-AllValid l now limit recovered valid.0 w valid.1
    | inr (problem, e) ↦ rw (e, claim_unless) v
  ]
