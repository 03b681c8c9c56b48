-- ===== src/Jobs/Lease/Heartbeat.antt =====
-- The heartbeat of app/jobs/lease.py against the recovery of stale jobs.
use adept_engine.Base.{
  ℕ, ◌+◌, ◌*◌, ◌≡◌, ◌≢◌, ◌<◌, refl, Bool, true, false, ◌&&◌, some, Text, arith, ap,
}
use adept_engine.Jobs.Row.{Row, ClaimedJob}
use adept_engine.Jobs.Table.{Table, find, find-id}
use adept_engine.Jobs.Table.ById.{find-update_where_ne, find-update_where_self}
use adept_engine.Jobs.Invariant.{AllValid}
use adept_engine.Jobs.Keeps.{update-AllValid}
use adept_engine.Jobs.Retry.{second}
use adept_engine.Jobs.Claimer.{is_stale}
use adept_engine.Jobs.Lease.{is_leased, set_heartbeat, heartbeat}

module _ {J : Type 0} (row_free : ℕ → Bool) (now : ℕ) (job : ClaimedJob J) (w : Text)
    (t : Table J) where
  -- A heartbeat keeps the table's invariant.
  pub heartbeat-AllValid : AllValid t → AllValid (heartbeat row_free now job w t)
  unfolding heartbeat
  heartbeat-AllValid v =
      update-AllValid (λ r. is_leased job w r && row_free r.id) (set_heartbeat now) (λ r. refl)
        (λ r k e. ground arith) t v

  -- After a heartbeat that reached the row of its lease, no recovery with any locks takes the job
  -- for stale before `stale_after` seconds have passed, and any other row `j` is as it was.
  pub heartbeat_not_stale :
      (r : Row J) (later stale_after j : ℕ) (job_free free : ℕ → Bool)
      → find job.id t ≡ some r
      → is_leased job w r ≡ true
      → row_free job.id ≡ true
      → later < now + stale_after * second
      → j ≢ job.id
      → (r' : Row J) × (find job.id (heartbeat row_free now job w t) ≡ some r')
        × (is_stale job_free free later stale_after r' ≡ false)
        × (find j (heartbeat row_free now job w t) ≡ find j t)
  unfolding heartbeat
  heartbeat_not_stale r later stale_after j job_free free h e f before ne = (
    set_heartbeat now r,
    find-update_where_self (λ x. is_leased job w x && row_free x.id) (set_heartbeat now) (λ x. refl)
        job.id t r h (ground (arith, find-id job.id t r h, ap row_free (find-id job.id t r h))),
    ground arith,
    find-update_where_ne (λ r. is_leased job w r && row_free r.id) (set_heartbeat now) (λ r. refl)
        job.id (λ x p. ground arith) j t ne,
  )
