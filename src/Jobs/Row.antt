-- ===== src/Jobs/Row.antt =====
-- The columns of `processing_jobs` that app/jobs reads and writes, as its SQL names them, and
-- app/db/models.py: what a claim returns. Times are microseconds since an epoch, as the database
-- stores them; an id is the 128-bit number of its UUID, in the order of which UUIDs compare.
use adept_engine.Base.{ℕ, Bool, true, false, Option, none, some, Text, same}

pub data Status : Type 0 where
  pending running failed succeeded dead : Status

abbrev pub is_running : Status → Bool
is_running Status.running = true
is_running _ = false

-- `status IN ('PENDING', 'FAILED')`
abbrev pub is_claimable : Status → Bool
is_claimable Status.pending = true
is_claimable Status.failed = true
is_claimable _ = false

-- The statuses that no statement of app/jobs leaves.
abbrev pub is_final : Status → Bool
is_final Status.succeeded = true
is_final Status.dead = true
is_final _ = false

-- `locked_by = :worker_id`, which NULL never satisfies.
abbrev pub owned_by : Option Text → Text → Bool
owned_by none w = false
owned_by (some o) w = same o w

-- A row. `J` is the type of the JSON payload, which the queue hands on unread.
pub record Row (J : Type 0) : Type 0 where
  pub id : ℕ
  pub job_type : Text
  pub payload : J
  pub status : Status
  pub priority : ℕ
  pub attempts : ℕ
  pub max_attempts : ℕ
  pub available_at : ℕ
  pub locked_at : Option ℕ
  pub locked_by : Option Text
  pub last_error : Option Text
  pub finished_at : Option ℕ
  pub created_at : ℕ
  pub updated_at : ℕ
  pub version : ℕ
  pub workspace_id : Option ℕ
  pub repository_id : Option ℕ
  pub raw_event_id : Option ℕ

pub record ClaimedJob (J : Type 0) : Type 0 where
  pub id : ℕ
  pub job_type : Text
  pub payload : J
  pub priority : ℕ
  pub attempts : ℕ
  pub max_attempts : ℕ
  pub locked_by : Option Text
  pub created_at : ℕ
  pub updated_at : ℕ
  pub version : ℕ

-- `ClaimedJob.from_row`: the casts are no-ops at run time, so `locked_by` is what the row holds.
unfoldable pub from_row : {J : Type 0} → Row J → ClaimedJob J
from_row r = record {
  id = r.id;
  job_type = r.job_type;
  payload = r.payload;
  priority = r.priority;
  attempts = r.attempts;
  max_attempts = r.max_attempts;
  locked_by = r.locked_by;
  created_at = r.created_at;
  updated_at = r.updated_at;
  version = r.version;
}
