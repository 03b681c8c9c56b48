-- ===== src/Jobs/Keeps.antt =====
-- The statements of app/jobs/retry.py and the invariant of the table.
use adept_engine.Base.{
  ℕ, ◌≡◌, ◌||◌, Bool, true, Option, none, some, Text, arith, inl, inr, Bool-cases, ◌==◌, count_if,
  pos, leb, refl, ℤ,
}
use adept_engine.Jobs.Row.{Row, is_running}
use adept_engine.Jobs.Table.{Table, update_where, update_where-UniqueIds, All-update_where, KeepsId}
use adept_engine.Jobs.Errors.{Result, ok, err}
use adept_engine.Jobs.Sanitize.{sanitize_error}
use adept_engine.Jobs.Retry.{
  owns, owned_row, has_id, mark_succeeded, mark_failed, fail_row, schedule, requeue_with_payload,
  set_succeeded, set_dead, set_failed, set_pending, FailureOptions, stretch, retry_delay_seconds,
}
use adept_engine.Jobs.Invariant.{
  IsValid, AllValid, set_succeeded-IsValid, set_dead-IsValid, set_failed-IsValid,
  set_pending-IsValid,
}

module _ {J : Type 0} where
  pub update-AllValid :
      (p : Row J → Bool) (f : Row J → Row J)
      → KeepsId f
      → ((r : Row J) → IsValid r → p r ≡ true → IsValid (f r))
      → (t : Table J) → AllValid t
      → AllValid (update_where p f t)
  update-AllValid p f keeps step t v =
      (update_where-UniqueIds p f keeps t v.0, All-update_where IsValid p f step t v.1)

  running_not_ended : (r : Row J) → IsValid r → is_running r.status ≡ true → r.finished_at ≡ none
  running_not_ended r v h = ground arith

  pub mark_succeeded-AllValid :
      (now i : ℕ) (w : Text) (t : Table J) → AllValid t → AllValid (mark_succeeded now i w t).1
  unfolding mark_succeeded
  mark_succeeded-AllValid now i w t v = elim (Bool-cases (count_if (owns i w) t == 1)) [
    | inl e ↦ rw e (
        update-AllValid (owns i w) (set_succeeded now) (λ x. refl)
          (λ r k e. set_succeeded-IsValid r k now) t v)
    | inr e ↦ rw e v
  ]

  pub requeue_with_payload-AllValid :
      (now i : ℕ) (w : Text) (new_payload : J) (delay : ℕ) (reset : Bool) (t : Table J)
      → AllValid t
      → AllValid (requeue_with_payload now i w new_payload delay reset t).1
  unfolding requeue_with_payload
  requeue_with_payload-AllValid now i w new_payload delay reset t v =
      elim (Bool-cases (count_if (owns i w) t == 1)) [
        | inl e ↦ rw e (
            update-AllValid (owns i w) (set_pending now delay reset new_payload) (λ x. refl)
              (λ r k e.
                set_pending-IsValid r k now delay reset new_payload
                  (running_not_ended r k (ground arith)))
              t v)
        | inr e ↦ rw e v
      ]

  schedule-AllValid :
      (now i : ℕ) (error : Text) (x : Option ℤ) (d : Result ℕ) (t : Table J)
      → AllValid t
      → AllValid (schedule now i error x d t).1
  schedule-AllValid now i error x (err e) t v = v
  schedule-AllValid now i error x (ok d) t v =
      update-AllValid (has_id i) (set_failed now (stretch x d) error) (λ r. refl)
        (λ r k e. set_failed-IsValid r k now (stretch x d) error) t v

  fail_row-AllValid :
      (now i : ℕ) (error : Text) (o : FailureOptions) (x : Option (Row J)) (t : Table J)
      → AllValid t
      → AllValid (fail_row now i error o x t).1
  fail_row-AllValid now i error o none t v = v
  fail_row-AllValid now i error o (some r) t v =
      elim (Bool-cases (o.permanent || leb r.max_attempts r.attempts)) [
        | inl e ↦ rw e (
            update-AllValid (has_id i) (set_dead now error) (λ x. refl)
              (λ x k e. set_dead-IsValid x k now error) t v)
        | inr e ↦ rw e (
            schedule-AllValid now i error o.retry_after_seconds
              (retry_delay_seconds (pos r.attempts) o.jitter_seconds o.draw) t v)
      ]

  pub mark_failed-AllValid :
      (now i : ℕ) (w error : Text) (o : FailureOptions) (t : Table J)
      → AllValid t
      → AllValid (mark_failed now i w error o t).1
  unfolding mark_failed
  mark_failed-AllValid now i w error o t v =
      fail_row-AllValid now i (sanitize_error error) o (owned_row i w t) t v
