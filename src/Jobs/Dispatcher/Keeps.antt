-- ===== src/Jobs/Dispatcher/Keeps.antt =====
-- A dispatch (app/jobs/dispatcher.py) and the invariant of the table.
use adept_engine.Base.{ℕ, ◌≡◌, refl, Option, none, some, Text, ◌++◌, codes}
use adept_engine.Jobs.Row.{ClaimedJob}
use adept_engine.Jobs.Table.{Table}
use adept_engine.Jobs.Errors.{
  Result, ok, err, permanent_job, provider, other, value_error, overflow_error, job_ownership,
  scope_busy,
}
use adept_engine.Jobs.Errors.{requeue_with_payload as requeued}
use adept_engine.Jobs.Invariant.{AllValid}
use adept_engine.Jobs.Keeps.{mark_succeeded-AllValid, mark_failed-AllValid}
use adept_engine.Jobs.Dispatcher.{
  Handler, Handlers, get_handler, settle, run_handler, dispatch_job, plain, permanently,
  after_provider,
}

-- A handler that leaves a valid table.
abbrev pub KeepsTable : {J : Type 0} → Handler J → Type 0
KeepsTable {J} h =
    (job : ClaimedJob J) (w : Text) (t : Table J) → AllValid t → AllValid (h job w t).1

module _ {J : Type 0} (now draw : ℕ) (job : ClaimedJob J) (w : Text) where
  settle-AllValid :
      (r : Result (Unit {0})) (t : Table J) → AllValid t → AllValid (settle now draw job w r t).1
  settle-AllValid (ok _) t v = mark_succeeded-AllValid now job.id w t v
  settle-AllValid (err requeued) t v = v
  settle-AllValid (err (permanent_job m)) t v =
      mark_failed-AllValid now job.id w m (permanently draw) t v
  settle-AllValid (err (provider m x)) t v =
      mark_failed-AllValid now job.id w m (after_provider x draw) t v
  settle-AllValid (err (value_error m)) t v = mark_failed-AllValid now job.id w m (plain draw) t v
  settle-AllValid (err (overflow_error m)) t v =
      mark_failed-AllValid now job.id w m (plain draw) t v
  settle-AllValid (err (job_ownership m)) t v = mark_failed-AllValid now job.id w m (plain draw) t v
  settle-AllValid (err (scope_busy m)) t v = mark_failed-AllValid now job.id w m (plain draw) t v
  settle-AllValid (err (other m)) t v = mark_failed-AllValid now job.id w m (plain draw) t v

  run_handler-AllValid :
      (o : Option (Handler J)) (t : Table J)
      → ((h : Handler J) → o ≡ some h → KeepsTable h)
      → AllValid t
      → AllValid (run_handler now draw job w o t).1
  run_handler-AllValid none t keeps v =
      mark_failed-AllValid now job.id w (codes "UNSUPPORTED_JOB_TYPE: " ++ job.job_type)
        (permanently draw) t v
  run_handler-AllValid (some h) t keeps v =
      let (result, t') = h job w t in settle-AllValid result t' (keeps h refl job w t v)

pub dispatch_job-AllValid :
    {J : Type 0} (handlers : Handlers J) (now draw : ℕ) (job : ClaimedJob J) (w : Text)
    (t : Table J)
    → ((h : Handler J) → get_handler handlers job.job_type ≡ some h → KeepsTable h)
    → AllValid t
    → AllValid (dispatch_job handlers now draw job w t).1
unfolding dispatch_job
dispatch_job-AllValid handlers now draw job w t keeps v =
    run_handler-AllValid now draw job w (get_handler handlers job.job_type) t keeps v
