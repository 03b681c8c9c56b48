-- ===== src/Metrics/Service/History.antt =====
-- `enqueue_missing_cycle_time_history` of app/metrics/service.py: one backfill for each tracked
-- repository without old snapshots. Its advisory lock makes it one transaction at a time.
use adept_engine.Base.{
  ℕ, ◌+◌, ◌*◌, ◌≡◌, ◌≤◌, refl, ap, Bool, true, false, ◌&&◌, ◌||◌, not, none, some, List, [], ◌∷◌,
  ◌++◌, map, Text, codes, ◌==◌, leb, keep, same, length, arith, All, All-imp, Bool-cases, inl, inr,
}
use adept_engine.Base.Among.{Among, Among-keep, Among-self}
use adept_engine.Values.Json.{Json, Fields, end_fields, field}
use adept_engine.Values.Uuid.{uuid_text}
use adept_engine.Jobs.Row.{Row, Status, is_claimable, is_running}
use adept_engine.Jobs.Table.{Table}
use adept_engine.Metrics.Buckets.{day_length}
use adept_engine.Metrics.Service.Snapshots.{SnapshotRow}
use adept_engine.Alerts.Enqueue.{is_repository}

-- The columns of repositories and of the integration that the query joins.
pub record TrackedRepository : Type 0 where
  pub id : ℕ
  pub workspace_id : ℕ
  pub tracking_enabled : Bool
  pub archived : Bool
  pub integration_status : Text

abbrev pub backfill : Text
backfill = codes "BACKFILL_REPOSITORY"

-- A daily snapshot of coding time that is at least 30 days old.
abbrev pub is_history : ℕ → ℕ → SnapshotRow → Bool
is_history now repository m =
    m.repository_id == repository
    && (same m.snapshot.metric_type (codes "PR_CODING_TIME_HOURS")
        && (same m.snapshot.granularity (codes "DAY")
            && (same m.snapshot.calculation_version (codes "cycle-time-v2")
                && leb (m.snapshot.period_start + 30 * day_length) now)))

-- `status IN ('PENDING', 'FAILED', 'RUNNING')`
abbrev pub is_active : Row Fields → Bool
is_active r = is_claimable r.status || is_running r.status

abbrev pub is_backfill : ℕ → Row Fields → Bool
is_backfill repository r =
    is_repository r.repository_id repository && (same r.job_type backfill && is_active r)

unfoldable pub any : {A : Type 0} → (A → Bool) → List A → Bool
any p [] = false
any p (x ∷ xs) = p x || any p xs

unfoldable pub needs_history : ℕ → List SnapshotRow → Table Fields → TrackedRepository → Bool
unfolding any
needs_history now snapshots jobs r =
    (r.tracking_enabled && (not r.archived && same r.integration_status (codes "ACTIVE")))
    && (not (any (is_history now r.id) snapshots) && not (any (is_backfill r.id) jobs))

-- The row; `new_id` gives its id, by its repository. Attempts are the database's default.
unfoldable pub backfill_job : ℕ → (ℕ → ℕ) → ℕ → TrackedRepository → Row Fields
backfill_job now new_id max_attempts r = record {
  id = new_id r.id;
  job_type = backfill;
  payload = field (codes "repositoryId") (Json.string (uuid_text r.id)) (
      field (codes "backfillDays") (Json.number false (codes "90"))
        (field (codes "reviewsOnly") (Json.boolean true) end_fields));
  status = Status.pending;
  priority = 200;
  attempts = 0;
  max_attempts = max_attempts;
  available_at = now;
  locked_at = none;
  locked_by = none;
  last_error = none;
  finished_at = none;
  created_at = now;
  updated_at = now;
  version = 0;
  workspace_id = some r.workspace_id;
  repository_id = some r.id;
  raw_event_id = none;
}

module _ (now : ℕ) (new_id : ℕ → ℕ) (max_attempts : ℕ) (repositories : List TrackedRepository)
    (snapshots : List SnapshotRow) where
  abbrev pub missing : Table Fields → List TrackedRepository
  missing jobs = keep (needs_history now snapshots jobs) repositories

  -- The number of jobs that are queued, and the table.
  unfoldable pub enqueue_missing_cycle_time_history : Table Fields → ℕ × Table Fields
  unfolding needs_history backfill_job
  enqueue_missing_cycle_time_history jobs =
      (length (missing jobs), map (backfill_job now new_id max_attempts) (missing jobs) ++ jobs)

any-append :
    {A : Type 0} (p : A → Bool) (xs ys : List A) → any p ys ≡ true → any p (xs ++ ys) ≡ true
unfolding any
any-append p [] ys h = h
any-append p (x ∷ xs) ys h = rw (any-append p xs ys h) (ground arith)

any-append_left :
    {A : Type 0} (p : A → Bool) (xs ys : List A) → any p xs ≡ true → any p (xs ++ ys) ≡ true
unfolding any
any-append_left p [] ys h = absurd (ground arith)
any-append_left p (x ∷ xs) ys h = ground (arith, any-append_left p xs ys)

any-map :
    {A B : Type 0} (p : B → Bool) (f : A → B) (a : A) (xs : List A)
    → Among a xs
    → p (f a) ≡ true
    → any p (map f xs) ≡ true
unfolding any
any-map p f a [] m h = absurd m
any-map p f a (x ∷ xs) (inl q) h = rw (ap (λ y. p (f y)) q, h) refl
any-map p f a (x ∷ xs) (inr m) h = rw (any-map p f a xs m h) (ground arith)

any_imp :
    {A : Type 0} (p q : A → Bool) (xs : List A)
    → ((x : A) → p x ≡ true → q x ≡ true)
    → any p xs ≡ true
    → any q xs ≡ true
unfolding any
any_imp p q [] f h = h
any_imp p q (x ∷ xs) f h = ground (arith, f x, any_imp p q xs f)

still_false :
    (a h j h' j' : Bool)
    → (a && (not h && not j)) ≡ false
    → (h ≡ true → h' ≡ true)
    → (j ≡ true → j' ≡ true)
    → (a && (not h' && not j')) ≡ false
still_false a h j h' j' e f g = ground (arith, f, g)

none_kept : {A : Type 0} (p : A → Bool) (xs : List A) → All (λ x. p x ≡ false) xs → keep p xs ≡ []
none_kept p [] h = refl
none_kept p (x ∷ xs) h = rw (h.0, none_kept p xs h.1) refl

module _ (now later : ℕ) (new_id : ℕ → ℕ) (max_attempts : ℕ) (repositories : List TrackedRepository)
    (snapshots : List SnapshotRow) (jobs : Table Fields) where
  abbrev new_jobs : Table Fields
  new_jobs =
      map (backfill_job now new_id max_attempts)
        (keep (needs_history now snapshots jobs) repositories)

  abbrev queued : Table Fields
  queued =
      (enqueue_missing_cycle_time_history now new_id max_attempts repositories snapshots jobs).1

  history_later :
      (i : ℕ) (m : SnapshotRow)
      → now ≤ later
      → is_history now i m ≡ true
      → is_history later i m ≡ true
  history_later i m le h = ground arith

  backfill_found :
      (r : TrackedRepository) → is_backfill r.id (backfill_job now new_id max_attempts r) ≡ true
  unfolding backfill_job same
  backfill_found r = ground arith

  settled :
      (r : TrackedRepository)
      → now ≤ later
      → Among r repositories
      → needs_history later snapshots queued r ≡ false
  unfolding enqueue_missing_cycle_time_history needs_history
  settled r le m = elim (Bool-cases (needs_history now snapshots jobs r)) [
    | inl e ↦
        let found = any-append_left (is_backfill r.id) new_jobs jobs (
          any-map (is_backfill r.id) (backfill_job now new_id max_attempts) r _
            (Among-keep (needs_history now snapshots jobs) r repositories m e)
            (backfill_found r)) in
        rw found (ground arith)
    | inr e ↦
        still_false
          (r.tracking_enabled && (not r.archived && same r.integration_status (codes "ACTIVE")))
          (any (is_history now r.id) snapshots) (any (is_backfill r.id) jobs) _ _ e
          (any_imp (is_history now r.id) (is_history later r.id) snapshots
            (λ x. history_later r.id x le))
          (any-append (is_backfill r.id) new_jobs jobs)
  ]

  -- Once missing history is queued, a later run with the same repositories and snapshots and with
  -- no job gone queues nothing and leaves the table as it is.
  pub enqueue_missing_cycle_time_history_once :
      now ≤ later
      → enqueue_missing_cycle_time_history later new_id max_attempts repositories snapshots queued
        ≡ (0, queued)
  unfolding enqueue_missing_cycle_time_history
  enqueue_missing_cycle_time_history_once le =
      rw
        (none_kept (needs_history later snapshots queued) repositories
          (All-imp (λ r m. settled r le m) repositories (Among-self repositories)))
        refl
