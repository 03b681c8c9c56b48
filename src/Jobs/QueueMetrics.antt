-- ===== src/Jobs/QueueMetrics.antt =====
-- app/jobs/queue_metrics.py: the snapshot of the queue, read in one transaction at `now`.
use adept_engine.Base.{
  ℕ, ◌-◌, ◌≡◌, ◌≤◌, refl, Bool, true, false, ◌&&◌, ◌||◌, Option, none, some, [], ◌∷◌, codes, arith,
  ltb, if◌then◌else◌, count_if, length, min, Text, ap, ◌∙◌, All, All-imp,
}
use adept_engine.Jobs.Row.{Status, Row, is_running}
use adept_engine.Jobs.Table.{Table, UniqueIds}
use adept_engine.Jobs.Errors.{Result, ok, err, value_error}
use adept_engine.Jobs.Claimer.{Locks, is_due, refused}
use adept_engine.Jobs.Claimer.Claims.{recovered, returned, claim_jobs_result}

pub record QueueSnapshot : Type 0 where
  pub ready : ℕ
  pub oldest_ready_wait : ℕ
  pub running : ℕ
  pub dead_letter : ℕ

abbrev pub is_dead : Status → Bool
is_dead Status.dead = true
is_dead _ = false

-- SQL's `min`, which is NULL where there is no row.
abbrev pub least : Option ℕ → ℕ → Option ℕ
least none n = some n
least (some m) n = some (min m n)

abbrev pub wait_since : ℕ → Option ℕ → ℕ
wait_since now none = 0
wait_since now (some m) = now - m

module _ {J : Type 0} where
  -- `min(available_at)` of the rows that are ready.
  abbrev pub oldest : ℕ → Table J → Option ℕ
  oldest now [] = none
  oldest now (r ∷ t) = if is_due now r then least (oldest now t) r.available_at else oldest now t

  -- QUEUE_SNAPSHOT_SQL, in microseconds. `available_at <= now()` makes the wait no negative number.
  unfoldable pub queue_snapshot : ℕ → Table J → QueueSnapshot
  queue_snapshot now t = record {
    ready = count_if (is_due now) t;
    oldest_ready_wait = wait_since now (oldest now t);
    running = count_if (λ r. is_running r.status) t;
    dead_letter = count_if (λ r. is_dead r.status) t;
  }

  unfoldable pub collect_queue_snapshot : ℕ → ℕ → Table J → Result QueueSnapshot
  unfolding queue_snapshot
  collect_queue_snapshot now timeout_seconds t =
      if ltb timeout_seconds 1 || ltb 60 timeout_seconds
      then err (value_error (codes "statement_timeout_seconds must be between 1 and 60"))
      else ok (queue_snapshot now t)

  -- How long a ready job has waited, and 0 for any other.
  abbrev pub waited : ℕ → Row J → ℕ
  waited now r = if is_due now r then now - r.available_at else 0

  oldest_grows :
      (now : ℕ) (r : Row J) (t : Table J)
      → wait_since now (oldest now t) ≤ wait_since now (oldest now (r ∷ t))
  oldest_grows now r t = ground arith

  waits : (now : ℕ) (t : Table J) → All (λ r. waited now r ≤ wait_since now (oldest now t)) t
  waits now [] = tt
  waits now (r ∷ t) =
      (ground arith, All-imp (λ x h. omega (arith, h, oldest_grows now r t)) t (waits now t))

  -- No ready job has waited longer than the snapshot says.
  pub oldest_ready_wait_bounds :
      (now : ℕ) (t : Table J) → All (λ r. waited now r ≤ (queue_snapshot now t).oldest_ready_wait) t
  unfolding queue_snapshot
  oldest_ready_wait_bounds now t = waits now t

  count_if-cong :
      (p q : Row J → Bool) (t : Table J) → ((r : Row J) → p r ≡ q r) → count_if p t ≡ count_if q t
  count_if-cong p q [] h = refl
  count_if-cong p q (r ∷ t) h = ground (arith, h r, count_if-cong p q t h)

  -- The snapshot's number of ready jobs is the number that a claim could take: with distinct ids,
  -- arguments that pass the checks and no rows locked by others, a claim returns as many as the
  -- snapshot after its recovery counts, up to its limit.
  pub ready_jobs_are_claimed :
      (l : Locks) (now : ℕ) (w : Text) (limit stale_after : ℕ) (t : Table J)
      → UniqueIds t
      → refused w limit stale_after ≡ none
      → ((i : ℕ) → l.claim_free i ≡ true)
      → length (returned l now w limit stale_after t)
        ≡ min limit (queue_snapshot now (recovered l now w limit stale_after t)).ready
  unfolding queue_snapshot
  ready_jobs_are_claimed l now w limit stale_after t u h free =
      let r = claim_jobs_result l now w limit stale_after t u h in
      r.2
      ∙ ap (min limit) (
          count_if-cong (λ x. is_due now x && l.claim_free x.id) (is_due now)
            (recovered l now w limit stale_after t) (λ x. ground (arith, free x.id)))
