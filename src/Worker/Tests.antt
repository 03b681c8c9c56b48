-- ===== src/Worker/Tests.antt =====
-- The theorems on app/worker.py at a queue of one job.
use adept_engine.Base.{
  ℕ, ◌+◌, ◌*◌, ◌≡◌, refl, true, false, none, some, List, [], ◌∷◌, Text, codes, arith, subst,
}
use adept_engine.Jobs.Row.{Status, Row}
use adept_engine.Jobs.Table.{Table}
use adept_engine.Jobs.Errors.{Result, ok, err, scope_busy}
use adept_engine.Jobs.Retry.{second}
use adept_engine.Jobs.Retry.Outcomes.{Wrote}
use adept_engine.Jobs.Invariant.{AllValid}
use adept_engine.Jobs.Claimer.{set_running}
use adept_engine.Jobs.Dispatcher.{Handler, Handlers, get_handler}
use adept_engine.Jobs.Dispatcher.Keeps.{KeepsTable}
use adept_engine.Worker.{Turn, defer, consume_jobs}
use adept_engine.Worker.Deferral.{claimed, defer_restores}
use adept_engine.Worker.Turns.{consume_jobs-AllValid}

abbrev waiting : Row ℕ
waiting = record {
  id = 1;
  job_type = codes "EVALUATE_ALERTS";
  payload = 4;
  status = Status.pending;
  priority = 20;
  attempts = 0;
  max_attempts = 3;
  available_at = 0;
  locked_at = none;
  locked_by = none;
  last_error = none;
  finished_at = none;
  created_at = 0;
  updated_at = 0;
  version = 0;
  workspace_id = none;
  repository_id = none;
  raw_event_id = none;
}

abbrev ann : Text
ann = codes "ann"

abbrev after_claim : Table ℕ
after_claim = set_running 10 ann waiting ∷ []

defer_restores_example :
    (r : Row ℕ) × ((defer ann 20 (claimed 10 20 ann after_claim waiting) after_claim).0 ≡ ok tt)
    × Wrote 1 after_claim r (defer ann 20 (claimed 10 20 ann after_claim waiting) after_claim).1
    × (r.status ≡ Status.pending)
    × (r.locked_by ≡ none)
    × (r.attempts ≡ 0)
    × (r.payload ≡ 4)
    × (r.available_at ≡ 20 + 5 * second)
defer_restores_example = defer_restores 10 20 ann after_claim waiting (refl, tt) refl

abbrev quiet : Handler ℕ
quiet job w t = (ok tt, t)

abbrev handlers : Handlers ℕ
handlers = record {
  process_github_event = quiet;
  process_jira_event = quiet;
  backfill_repository = quiet;
  sync_github_repositories = quiet;
  sync_jira_projects = quiet;
  renew_jira_webhook = quiet;
  delete_workspace = quiet;
  recalculate_metrics = quiet;
  evaluate_alerts = quiet;
}

one_handler : (job_type : Text) (h : Handler ℕ) → get_handler handlers job_type ≡ some h → quiet ≡ h
unfolding get_handler
one_handler job_type h e = ground arith

handlers_keep :
    (job_type : Text) (h : Handler ℕ) → get_handler handlers job_type ≡ some h → KeepsTable h
handlers_keep job_type h e =
    subst (λ (f : Handler ℕ). KeepsTable f) (one_handler job_type h e) (λ job w t v. v)

abbrev turn : Result (Unit {0}) → Turn
turn lease = record {
  stop_before = false;
  stop_after = false;
  poll_failure = none;
  claimed_at = 10;
  locks = record {
    job_free = λ i. true;
    dead_free = λ i. true;
    retry_free = λ i. true;
    claim_free = λ i. true;
  };
  lease = lease;
  leased_at = 11;
  row_free = λ i. true;
  ended_at = 12;
  draw = 5;
  schema_failure = false;
}

-- The scope of the job is busy in the first turn; it runs in the second.
abbrev turns : List Turn
turns =
    turn (err (scope_busy (codes "key"))) ∷ record (turn (ok tt)) { claimed_at = 6 * second } ∷ []

consume_jobs-AllValid_example : AllValid (consume_jobs handlers ann 60 turns (waiting ∷ [])).1
consume_jobs-AllValid_example =
    consume_jobs-AllValid handlers ann handlers_keep 60 turns (waiting ∷ [])
      ((refl, tt), (ground arith, tt))
