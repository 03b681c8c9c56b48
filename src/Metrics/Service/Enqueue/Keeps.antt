-- ===== src/Metrics/Service/Enqueue/Keeps.antt =====
-- `enqueue_recalculate_metrics_job` of app/metrics/service.py keeps the invariant of the queue.
use adept_engine.Base.{
  ℕ, ◌≡◌, refl, ◌∙◌, true, false, Option, none, [], ◌∷◌, ◌==◌, arith, Bool-cases, inl, inr, &&-true,
}
use adept_engine.Base.Upsert.{upsert_one, All-upsert}
use adept_engine.Values.Json.{Fields}
use adept_engine.Jobs.Row.{Row, Status, is_claimable, is_running, is_final}
use adept_engine.Jobs.Table.{Table, find, UniqueIds}
use adept_engine.Jobs.Invariant.{IsValid, AllValid}
use adept_engine.Metrics.Service.Enqueue.{
  same_waiting, merge_job, new_job, request, enqueue_recalculate_metrics_job,
}
use adept_engine.Metrics.Service.Enqueue.Widens.{parts}

module _ (job : Row Fields) where
  find-upsert_one :
      (i : ℕ) (t : Table Fields)
      → find i t ≡ none
      → (job.id == i) ≡ false
      → find i (upsert_one same_waiting merge_job job t) ≡ none
  unfolding merge_job
  find-upsert_one i [] h k = ground arith
  find-upsert_one i (r ∷ t) h k = elim (Bool-cases (same_waiting job r)) [
    | inl s ↦ rw s (ground arith)
    | inr s ↦ rw s (ground (arith, find-upsert_one i t))
  ]

  upsert_one-UniqueIds :
      (t : Table Fields)
      → find job.id t ≡ none
      → UniqueIds t
      → UniqueIds (upsert_one same_waiting merge_job job t)
  unfolding merge_job
  upsert_one-UniqueIds [] f h = (refl, tt)
  upsert_one-UniqueIds (r ∷ t) f h = elim (Bool-cases (same_waiting job r)) [
    | inl s ↦ rw s h
    | inr s ↦
        rw s (find-upsert_one r.id t h.0 (ground arith), upsert_one-UniqueIds t (ground arith) h.1)
  ]

open_status : (s : Status) → is_claimable s ≡ true → (is_running s ≡ false) × (is_final s ≡ false)
open_status Status.pending h = (refl, refl)
open_status Status.running h = absurd (ground arith)
open_status Status.failed h = (refl, refl)
open_status Status.succeeded h = absurd (ground arith)
open_status Status.dead h = absurd (ground arith)

merge_job-IsValid :
    (old e : Row Fields) → IsValid old → same_waiting e old ≡ true → IsValid (merge_job old e)
unfolding merge_job
merge_job-IsValid old e v s =
    let (_, wo, _, _) = parts e old s in
    let (_, claimable) = &&-true _ (is_claimable old.status) wo in
    let (stopped, unfinished) = open_status old.status claimable in
    record {
      owner = v.owner ∙ stopped;
      since = v.since ∙ stopped;
      ended = v.ended ∙ unfinished;
      budget = omega arith;
      started = λ h. absurd (ground arith);
    }

new_job-IsValid :
    (now new_id max_attempts workspace repository : ℕ) (payload : Fields)
    → IsValid (new_job now new_id max_attempts workspace repository payload)
unfolding new_job
new_job-IsValid now new_id max_attempts workspace repository payload = ground arith

-- A request under a fresh id keeps the invariant of the queue.
pub enqueue-AllValid :
    (now new_id max_attempts workspace repository : ℕ) (at to : Option ℕ) (t : Table Fields)
    → find new_id t ≡ none
    → AllValid t
    → AllValid
        (enqueue_recalculate_metrics_job now new_id max_attempts workspace repository at to t).1
unfolding enqueue_recalculate_metrics_job
enqueue-AllValid now new_id max_attempts workspace repository at to t f v =
    let job =
      new_job now new_id max_attempts workspace repository (request workspace repository at to) in
    (
      upsert_one-UniqueIds job t f v.0,
      All-upsert same_waiting merge_job IsValid (λ old e o q s. merge_job-IsValid old e o s)
          (job ∷ []) t (new_job-IsValid now new_id max_attempts workspace repository _, tt) v.1,
    )
