-- ===== src/Metrics/Service/Enqueue.antt =====
-- `enqueue_recalculate_metrics_job` of app/metrics/service.py: at most one job of a repository waits to
-- recalculate its metrics, and later requests are merged into it. `new_id` and `max_attempts` are the
-- defaults that the database gives a new row.
pub mod Ranges
pub mod Widens
pub mod Keeps
use adept_engine.Base.{
  ℕ, ◌+◌, ◌≡◌, refl, Bool, true, false, ◌&&◌, Option, none, some, [], ◌∷◌, Text, codes, ◌==◌,
  if◌then◌else◌, same,
}
use adept_engine.Base.Upsert.{first, upsert_one}
use adept_engine.Values.Json.{Json, Fields, end_fields, field, get, as_text}
use adept_engine.Values.Uuid.{uuid_text}
use adept_engine.Jobs.Row.{Row, Status, is_claimable}
use adept_engine.Jobs.Table.{Table}
use adept_engine.Metrics.Service.Iso.{isoformat}
use adept_engine.Metrics.Service.Iso.Order.{text_ltb}

abbrev pub recalculate : Text
recalculate = codes "RECALCULATE_METRICS"

-- `LEAST` and `GREATEST` pass over NULL.
abbrev pub least : Option Text → Option Text → Option Text
least none b = b
least (some a) none = some a
least (some a) (some b) = some (if text_ltb b a then b else a)

abbrev pub greatest : Option Text → Option Text → Option Text
greatest none b = b
greatest (some a) none = some a
greatest (some a) (some b) = some (if text_ltb a b then b else a)

-- `payload ->> key`
abbrev pub text_of : Text → Fields → Option Text
text_of key payload = as_text (get key payload)

abbrev pub json_of : Option Text → Json
json_of none = Json.null
json_of (some s) = Json.string s

-- `object || jsonb_build_object(key, value)`
unfoldable pub with_field : Text → Json → Fields → Fields
unfolding same
with_field key value end_fields = field key value end_fields
with_field key value (field k v fs) =
    let rest = with_field key value fs in
    elim (same k key) [ true ↦ field key value fs | false ↦ field k v rest ]

-- The fields of the payload about the affected range.
unfoldable pub range_fields : Option ℕ → Option ℕ → Fields
range_fields none affected_to = end_fields
range_fields (some at) none =
    field (codes "affected_from") (Json.string (isoformat at))
      (field (codes "affected_to") (Json.string (isoformat at)) end_fields)
range_fields (some at) (some to) =
    field (codes "affected_from") (Json.string (isoformat at))
      (field (codes "affected_to") (Json.string (isoformat to)) end_fields)

unfoldable pub request : ℕ → ℕ → Option ℕ → Option ℕ → Fields
unfolding range_fields
request workspace repository affected_at affected_to =
    field (codes "workspace_id") (Json.string (uuid_text workspace)) (
      field (codes "repository_id") (Json.string (uuid_text repository))
        (range_fields affected_at affected_to))

-- `EXCLUDED.payload || jsonb_build_object(...)`
unfoldable pub merge_payload : Fields → Fields → Fields
unfolding with_field get
merge_payload old excluded =
    with_field (codes "affected_to")
      (json_of
        (greatest (text_of (codes "affected_to") old) (text_of (codes "affected_to") excluded)))
      (with_field (codes "affected_from")
        (json_of
          (least (text_of (codes "affected_from") old) (text_of (codes "affected_from") excluded)))
        excluded)

-- The rows of the partial unique index.
abbrev pub is_waiting : Row Fields → Bool
is_waiting r = same r.job_type recalculate && is_claimable r.status

abbrev pub same_repository : Option ℕ → Option ℕ → Bool
same_repository none b = false
same_repository (some i) none = false
same_repository (some i) (some j) = i == j

abbrev pub same_waiting : Row Fields → Row Fields → Bool
same_waiting a b = is_waiting a && (is_waiting b && same_repository a.repository_id b.repository_id)

-- The `DO UPDATE`; the `available_at` and `updated_at` of the excluded row are `now()`.
unfoldable pub merge_job : Row Fields → Row Fields → Row Fields
merge_job old excluded = record old {
  payload = merge_payload old.payload excluded.payload;
  status = Status.pending;
  attempts = 0;
  available_at = excluded.available_at;
  last_error = none;
  updated_at = excluded.updated_at;
  version = old.version + 1;
}

unfoldable pub new_job : ℕ → ℕ → ℕ → ℕ → ℕ → Fields → Row Fields
new_job now new_id max_attempts workspace repository payload = record {
  id = new_id;
  job_type = recalculate;
  payload = payload;
  status = Status.pending;
  priority = 100;
  attempts = 0;
  max_attempts = max_attempts;
  available_at = now;
  locked_at = none;
  locked_by = none;
  last_error = none;
  finished_at = none;
  created_at = now;
  updated_at = now;
  version = 0;
  workspace_id = some workspace;
  repository_id = some repository;
  raw_event_id = none;
}

abbrev pub id_or : ℕ → Option (Row Fields) → ℕ
id_or new_id none = new_id
id_or new_id (some r) = r.id

module _ (now new_id max_attempts workspace repository : ℕ) where
  -- The id of the job that waits now, and the table.
  unfoldable pub enqueue_recalculate_metrics_job :
      Option ℕ → Option ℕ → Table Fields → ℕ × Table Fields
  unfolding merge_job new_job request merge_payload
  enqueue_recalculate_metrics_job affected_at affected_to t =
      let job =
        new_job now new_id max_attempts workspace repository
          (request workspace repository affected_at affected_to) in
      (id_or new_id (first (same_waiting job) t), upsert_one same_waiting merge_job job t)
