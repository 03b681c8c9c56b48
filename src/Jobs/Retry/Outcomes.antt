-- ===== src/Jobs/Retry/Outcomes.antt =====
-- What the three statements of app/jobs/retry.py leave in the table, on each branch.
use adept_engine.Base.{
  ℕ, ◌≡◌, ◌≢◌, refl, Bool, true, ◌&&◌, none, some, Text, arith, count_if, inl, inr, Option-cases,
}
use adept_engine.Jobs.Row.{Row, is_running, owned_by}
use adept_engine.Jobs.Table.{Table, find, find-id, UniqueIds, update_where, KeepsId}
use adept_engine.Jobs.Table.ById.{count_if-at_id, find-update_where_ne, find-update_where_self}
use adept_engine.Jobs.Errors.{ok, err, requeue_with_payload as requeued}
use adept_engine.Jobs.Retry.{
  owns, owned_row, not_owned, mark_succeeded, mark_failed, requeue_with_payload, set_succeeded,
  set_pending, FailureOptions, has_id,
}

module _ {J : Type 0} where
  -- `t'` is `t` with the row `i` replaced by `r`, and nothing else changed.
  abbrev pub Wrote : ℕ → Table J → Row J → Table J → Type 0
  Wrote i t r t' = (find i t' ≡ some r) × ((j : ℕ) → j ≢ i → find j t' ≡ find j t)

  abbrev holds : Text → Row J → Bool
  holds w r = is_running r.status && owned_by r.locked_by w

  owned_row-find :
      (i : ℕ) (w : Text) (t : Table J) (r : Row J)
      → owned_row i w t ≡ some r
      → (find i t ≡ some r) × (r.id ≡ i) × (holds w r ≡ true)
  unfolding owned_row
  owned_row-find i w t r h = elim (Option-cases (find i t)) [
    | inl e ↦ ground arith
    | inr (x, e) ↦ ground (arith, find-id i t x e)
  ]

  count_owned :
      (i : ℕ) (w : Text) (t : Table J) (r : Row J)
      → UniqueIds t
      → owned_row i w t ≡ some r
      → count_if (owns i w) t ≡ 1
  count_owned i w t r u h =
      let o = owned_row-find i w t r h in ground (arith, count_if-at_id (holds w) i t u, o)

  count_foreign :
      (i : ℕ) (w : Text) (t : Table J)
      → UniqueIds t
      → owned_row i w t ≡ none
      → count_if (owns i w) t ≡ 0
  unfolding owned_row
  count_foreign i w t u h = elim (Option-cases (find i t)) [
    | inl e ↦ ground (arith, count_if-at_id (holds w) i t u)
    | inr (x, e) ↦ ground (arith, count_if-at_id (holds w) i t u, find-id i t x e)
  ]

  wrote :
      (p : Row J → Bool) (f : Row J → Row J) (keeps : KeepsId f) (i : ℕ) (t : Table J) (r : Row J)
      → ((x : Row J) → p x ≡ true → x.id ≡ i)
      → find i t ≡ some r
      → p r ≡ true
      → Wrote i t (f r) (update_where p f t)
  wrote p f keeps i t r only h e = (
    find-update_where_self p f keeps i t r h e,
    λ j ne. find-update_where_ne p f keeps i only j t ne,
  )

  Wrote-owned :
      (f : Row J → Row J) (keeps : KeepsId f) (i : ℕ) (w : Text) (t : Table J) (r : Row J)
      → owned_row i w t ≡ some r
      → Wrote i t (f r) (update_where (owns i w) f t)
  Wrote-owned f keeps i w t r h =
      let o = owned_row-find i w t r h in
      wrote (owns i w) f keeps i t r (λ x e. ground arith) o.0 (ground (arith, o))

  pub Wrote-by_id :
      (f : Row J → Row J) (keeps : KeepsId f) (i : ℕ) (w : Text) (t : Table J) (r : Row J)
      → owned_row i w t ≡ some r
      → Wrote i t (f r) (update_where (has_id i) f t)
  Wrote-by_id f keeps i w t r h =
      let o = owned_row-find i w t r h in
      wrote (has_id i) f keeps i t r (λ x e. ground arith) o.0 (ground (arith, o))

  -- Where ids are distinct, success ends the attempt of the job's owner: the row is SUCCEEDED and
  -- unlocked, and no other row has changed.
  pub mark_succeeded-Wrote :
      (now i : ℕ) (w : Text) (t : Table J) (r : Row J)
      → UniqueIds t
      → owned_row i w t ≡ some r
      → ((mark_succeeded now i w t).0 ≡ ok tt)
        × Wrote i t (set_succeeded now r) (mark_succeeded now i w t).1
  unfolding mark_succeeded
  mark_succeeded-Wrote now i w t r u h =
      rw (count_owned i w t r u h) (refl, Wrote-owned (set_succeeded now) (λ x. refl) i w t r h)

  -- Where ids are distinct, a requeue by the job's owner raises the signal of a requeue, and the
  -- row is PENDING and unlocked with the new payload, after the delay, and no attempts or one less
  -- than it had; no other row has changed.
  pub requeue_with_payload-Wrote :
      (now i : ℕ) (w : Text) (new_payload : J) (delay : ℕ) (reset : Bool) (t : Table J) (r : Row J)
      → UniqueIds t
      → owned_row i w t ≡ some r
      → let (result, t') = requeue_with_payload now i w new_payload delay reset t in
        (result ≡ err requeued) × Wrote i t (set_pending now delay reset new_payload r) t'
  unfolding requeue_with_payload
  requeue_with_payload-Wrote now i w new_payload delay reset t r u h =
      rw (count_owned i w t r u h)
        (refl, Wrote-owned (set_pending now delay reset new_payload) (λ x. refl) i w t r h)

  -- Where ids are distinct, a worker that does not hold the job can end its attempt in no way:
  -- each of the three statements raises `JobOwnershipError` and leaves the table as it was.
  pub finish_needs_owner :
      (now i : ℕ) (w error : Text) (o : FailureOptions) (new_payload : J) (delay : ℕ) (reset : Bool)
      (t : Table J)
      → UniqueIds t
      → owned_row i w t ≡ none
      → (mark_succeeded now i w t ≡ (err not_owned, t))
        × (mark_failed now i w error o t ≡ (err not_owned, t))
        × (requeue_with_payload now i w new_payload delay reset t ≡ (err not_owned, t))
  unfolding mark_succeeded mark_failed requeue_with_payload
  finish_needs_owner now i w error o new_payload delay reset t u h =
      (rw (count_foreign i w t u h), rw h, rw (count_foreign i w t u h))
