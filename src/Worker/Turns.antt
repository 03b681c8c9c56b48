-- ===== src/Worker/Turns.antt =====
-- The turns of a consumer (app/worker.py) and the invariant of the queue.
use adept_engine.Base.{
  ℕ, ◌*◌, ◌≡◌, Bool, true, false, Option, none, some, List, [], ◌∷◌, Text, codes, inl, inr,
  Bool-cases,
}
use adept_engine.Jobs.Row.{ClaimedJob}
use adept_engine.Jobs.Table.{Table}
use adept_engine.Jobs.Errors.{JobError, Result, ok, err, scope_busy}
use adept_engine.Jobs.Retry.{second}
use adept_engine.Jobs.Invariant.{AllValid}
use adept_engine.Jobs.Keeps.{requeue_with_payload-AllValid}
use adept_engine.Jobs.Claimer.{Claimed}
use adept_engine.Jobs.Claimer.Claims.{claim_jobs-AllValid}
use adept_engine.Jobs.Lease.{heartbeat}
use adept_engine.Jobs.Lease.Heartbeat.{heartbeat-AllValid}
use adept_engine.Jobs.Dispatcher.{Handler, Handlers, get_handler, dispatch_job}
use adept_engine.Jobs.Dispatcher.Keeps.{KeepsTable, dispatch_job-AllValid}
use adept_engine.Worker.{
  Dispatch, MetricEvent, dispatch_claimed_jobs, defer_with_metrics, Turn, Next, leave, go_on,
  run_leased, after_claim, after_poll, poll, consume_turn, continue, loop, consume_jobs,
}

module _ {J : Type 0} (handlers : Handlers J) (w : Text)
    (keeps : (job_type : Text) (h : Handler J)
      → get_handler handlers job_type ≡ some h
      → KeepsTable h) where
  dispatch_claimed_jobs-AllValid :
      (jobs : List (Dispatch J)) (t : Table J)
      → AllValid t
      → AllValid (dispatch_claimed_jobs handlers w jobs t).1
  unfolding dispatch_claimed_jobs
  dispatch_claimed_jobs-AllValid [] t v = v
  dispatch_claimed_jobs-AllValid ((job, now, draw) ∷ jobs) t v =
      dispatch_claimed_jobs-AllValid jobs (dispatch_job handlers now draw job w t).1
        (dispatch_job-AllValid handlers now draw job w t (keeps job.job_type) v)

  defer_with_metrics-AllValid :
      (now : ℕ) (job : ClaimedJob J) (reason : Text) (t : Table J)
      → AllValid t
      → AllValid (defer_with_metrics w now job reason t).1
  unfolding defer_with_metrics
  defer_with_metrics-AllValid now job reason t v =
      requeue_with_payload-AllValid now job.id w job.payload (5 * second) false t v

  module _ (timeout : ℕ) where
    run_leased-AllValid :
        (turn : Turn) (job : ClaimedJob J) (r : Result (Unit {0})) (t : Table J)
        → AllValid t
        → AllValid (run_leased handlers w timeout turn job r t).2
    run_leased-AllValid turn job (err (scope_busy key)) t v =
        defer_with_metrics-AllValid turn.ended_at job (codes "scope_busy") t v
    run_leased-AllValid turn job (ok _) t v =
        dispatch_claimed_jobs-AllValid ((job, turn.ended_at, turn.draw) ∷ [])
          (heartbeat turn.row_free turn.leased_at job w t)
          (heartbeat-AllValid turn.row_free turn.leased_at job w t v)
    run_leased-AllValid turn job (err _) t v = v

    after_claim-AllValid :
        (turn : Turn) (jobs : List (ClaimedJob J)) (t : Table J)
        → AllValid t
        → AllValid (after_claim handlers w timeout turn jobs t).2
    after_claim-AllValid turn [] t v = v
    after_claim-AllValid turn (job ∷ jobs) t v = elim (Bool-cases turn.stop_after) [
      | inl e ↦ rw e (defer_with_metrics-AllValid turn.ended_at job (codes "shutdown") t v)
      | inr e ↦ rw e (run_leased-AllValid turn job turn.lease t v)
    ]

    after_poll-AllValid :
        (turn : Turn) (r : Result (Claimed J)) (t : Table J)
        → AllValid t
        → AllValid (after_poll handlers w timeout turn r t).2
    after_poll-AllValid turn (err e) t v = v
    after_poll-AllValid turn (ok c) t v = after_claim-AllValid turn c.jobs t v

    poll-AllValid :
        (o : Option JobError) (turn : Turn) (t : Table J)
        → AllValid t
        → AllValid (poll handlers w timeout o turn t).1
    poll-AllValid (some e) turn t v = v
    poll-AllValid none turn t v = claim_jobs-AllValid turn.locks turn.claimed_at w 1 timeout t v

    pub consume_turn-AllValid :
        (turn : Turn) (t : Table J)
        → AllValid t
        → AllValid (consume_turn handlers w timeout turn t).2
    unfolding consume_turn
    consume_turn-AllValid turn t v =
        let (result, t') = poll handlers w timeout turn.poll_failure turn t in
        after_poll-AllValid turn result t' (poll-AllValid turn.poll_failure turn t v)

    continue-AllValid :
        (stop : Bool) (n : Next) (t : Table J) (turned later : List MetricEvent × Table J)
        → AllValid t
        → AllValid turned.1
        → AllValid later.1
        → AllValid (continue handlers w timeout stop n t turned later).1
    continue-AllValid true n t turned later v v' v'' = v
    continue-AllValid false leave t turned later v v' v'' = v'
    continue-AllValid false go_on t turned later v v' v'' = v''

    loop-AllValid :
        (turns : List Turn) (t : Table J)
        → AllValid t
        → AllValid (loop handlers w timeout turns t).1
    unfolding loop
    loop-AllValid [] t v = v
    loop-AllValid (turn ∷ turns) t v =
        let (events, n, t') = consume_turn handlers w timeout turn t in
        let v' = consume_turn-AllValid turn t v in
        continue-AllValid turn.stop_before n t (events, t') (loop handlers w timeout turns t') v v'
          (loop-AllValid turns t' v')

    -- If every handler leaves a valid table, then so does a consumer, whatever happens in its turns:
    -- rows are locked exactly while they run, have an end time exactly when they are final, never
    -- exceed their attempts, and keep distinct ids.
    pub consume_jobs-AllValid :
        (turns : List Turn) (t : Table J)
        → AllValid t
        → AllValid (consume_jobs handlers w timeout turns t).1
    unfolding consume_jobs
    consume_jobs-AllValid turns t v = loop-AllValid turns t v
