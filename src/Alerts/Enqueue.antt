-- ===== src/Alerts/Enqueue.antt =====
-- `enqueue_evaluate_alerts_job` of app/jobs/handlers/evaluate_alerts.py. `new_id` and `max_attempts` are
-- the defaults that the database gives a new row.
use adept_engine.Base.{ℕ, Bool, true, false, ◌&&◌, Option, none, some, ◌∷◌, Text, codes, ◌==◌, same}
use adept_engine.Base.Upsert.{first}
use adept_engine.Values.Json.{Json, Fields, end_fields, field}
use adept_engine.Values.Uuid.{uuid_text}
use adept_engine.Jobs.Row.{Row, Status}
use adept_engine.Jobs.Table.{Table}

abbrev pub evaluate_alerts : Text
evaluate_alerts = codes "EVALUATE_ALERTS"

abbrev pub is_pending : Status → Bool
is_pending Status.pending = true
is_pending _ = false

abbrev pub is_repository : Option ℕ → ℕ → Bool
is_repository none i = false
is_repository (some j) i = j == i

-- A job that waits to evaluate the alerts of a repository.
abbrev pub awaits_evaluation : ℕ → Row Fields → Bool
awaits_evaluation repository r =
    is_repository r.repository_id repository
    && (same r.job_type evaluate_alerts && is_pending r.status)

unfoldable pub evaluation_job : ℕ → ℕ → ℕ → ℕ → ℕ → Text → Row Fields
evaluation_job now new_id max_attempts workspace repository trigger_source = record {
  id = new_id;
  job_type = evaluate_alerts;
  payload = field (codes "workspace_id") (Json.string (uuid_text workspace)) (
      field (codes "repository_id") (Json.string (uuid_text repository))
        (field (codes "trigger_source") (Json.string trigger_source) end_fields));
  status = Status.pending;
  priority = 100;
  attempts = 0;
  max_attempts = max_attempts;
  available_at = now;
  locked_at = none;
  locked_by = none;
  last_error = none;
  finished_at = none;
  created_at = now;
  updated_at = now;
  version = 0;
  workspace_id = some workspace;
  repository_id = some repository;
  raw_event_id = none;
}

abbrev pub add_unless : Option (Row Fields) → Row Fields → Table Fields → ℕ × Table Fields
add_unless none job t = (job.id, job ∷ t)
add_unless (some existing) job t = (existing.id, t)

-- The id of the job that waits, and the table.
unfoldable pub enqueue_evaluate_alerts_job :
    ℕ → ℕ → ℕ → ℕ → ℕ → Text → Table Fields → ℕ × Table Fields
unfolding evaluation_job
enqueue_evaluate_alerts_job now new_id max_attempts workspace repository trigger_source t =
    add_unless (first (awaits_evaluation repository) t)
      (evaluation_job now new_id max_attempts workspace repository trigger_source) t
