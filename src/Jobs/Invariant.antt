-- ===== src/Jobs/Invariant.antt =====
-- The invariant of the rows of `processing_jobs`, for the writes of app/jobs.
use adept_engine.Base.{ℕ, ◌≡◌, ◌≤◌, ◌<◌, Bool, true, none, Text, All, is_some, arith}
use adept_engine.Jobs.Row.{Row, is_running, is_final}
use adept_engine.Jobs.Table.{Table, UniqueIds}
use adept_engine.Jobs.Retry.{set_succeeded, set_dead, set_failed, set_pending}

-- A row is locked exactly while it runs, has an end time exactly when it is final, has not used
-- more attempts than it may, and has used one where it runs.
pub record IsValid {J : Type 0} (r : Row J) : Type 0 where
  pub owner : is_some r.locked_by ≡ is_running r.status
  pub since : is_some r.locked_at ≡ is_running r.status
  pub ended : is_some r.finished_at ≡ is_final r.status
  pub budget : r.attempts ≤ r.max_attempts
  pub started : is_running r.status ≡ true → 0 < r.attempts

abbrev pub AllValid : {J : Type 0} → Table J → Type 0
AllValid t = UniqueIds t × All IsValid t

module _ {J : Type 0} (r : Row J) (v : IsValid r) where
  pub set_succeeded-IsValid : (now : ℕ) → IsValid (set_succeeded now r)
  set_succeeded-IsValid now = ground arith

  pub set_dead-IsValid : (now : ℕ) (error : Text) → IsValid (set_dead now error r)
  set_dead-IsValid now error = ground arith

  pub set_failed-IsValid : (now delay : ℕ) (error : Text) → IsValid (set_failed now delay error r)
  set_failed-IsValid now delay error = ground arith

  pub set_pending-IsValid :
      (now delay : ℕ) (reset : Bool) (new_payload : J)
      → r.finished_at ≡ none
      → IsValid (set_pending now delay reset new_payload r)
  set_pending-IsValid now delay reset new_payload h = ground arith
