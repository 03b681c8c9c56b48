-- ===== src/Metrics/Service/Enqueue/Widens.antt =====
-- One waiting job of a repository, and the range that its requests ask for together, in
-- `enqueue_recalculate_metrics_job` of app/metrics/service.py.
use adept_engine.Base.{
  ℕ, ◌≡◌, refl, ap, ◌∙◌, true, ◌&&◌, Option, none, some, [], ◌∷◌, ◌==◌, same, min, max, arith,
  ==_iff, &&-true,
}
use adept_engine.Base.Upsert.{first, first-upsert_one, IsKey, merged, IsUnique, upsert-IsUnique}
use adept_engine.Values.Json.{Fields, get}
use adept_engine.Jobs.Row.{Row, Status}
use adept_engine.Jobs.Table.{Table}
use adept_engine.Metrics.Service.Iso.{isoformat}
use adept_engine.Metrics.Service.Iso.Order.{IsDated}
use adept_engine.Metrics.Service.Enqueue.{
  recalculate, text_of, request, range_fields, merge_payload, is_waiting, same_repository,
  same_waiting, merge_job, new_job, id_or, enqueue_recalculate_metrics_job,
}
use adept_engine.Metrics.Service.Enqueue.Ranges.{
  from_key, to_key, merge_from, merge_to, least-isoformat, greatest-isoformat,
}

same_repository_sound : (a b : Option ℕ) → same_repository a b ≡ true → a ≡ b
same_repository_sound none b h = absurd (ground arith)
same_repository_sound (some i) none h = absurd (ground arith)
same_repository_sound (some i) (some j) h = ap some ((==_iff i j).0 h)

same_repository_flip : (a b : Option ℕ) → same_repository a b ≡ same_repository b a
same_repository_flip none none = refl
same_repository_flip none (some j) = refl
same_repository_flip (some i) none = refl
same_repository_flip (some i) (some j) = ground arith

-- Two waiting jobs of one repository.
pub parts :
    (a b : Row Fields)
    → same_waiting a b ≡ true
    → (is_waiting a ≡ true)
      × (is_waiting b ≡ true)
      × (a.repository_id ≡ b.repository_id)
      × (same_repository a.repository_id b.repository_id ≡ true)
parts a b h =
    let (wa, rest) = &&-true (is_waiting a) _ h in
    let (wb, s) = &&-true (is_waiting b) (same_repository a.repository_id b.repository_id) rest in
    (wa, wb, same_repository_sound a.repository_id b.repository_id s, s)

pub waits_are_keys : IsKey same_waiting merge_job
unfolding merge_job
waits_are_keys = record {
  flip = λ a b h.
      let (wa, wb, _, s) = parts a b h in
      rw (wa, wb) (same_repository_flip b.repository_id a.repository_id ∙ s);
  agree = λ a b c h.
      let (wa, wb, e, _) = parts a b h in
      rw (wa, wb) (ap (λ i. is_waiting c && same_repository i c.repository_id) e);
  kept = λ x old e h.
      let (_, wo, _, _) = parts e old h in
      let (type, _) = &&-true (same old.job_type recalculate) _ wo in rw (wo, type) refl;
}

-- The job of a repository that waits to recalculate its metrics.
abbrev pub waiting_job : ℕ → Table Fields → Option (Row Fields)
waiting_job repository t =
    first (λ r. is_waiting r && same_repository (some repository) r.repository_id) t

abbrev pub Range : Type 0
Range = Option (ℕ × ℕ)

-- What a request asks for: nothing in particular, or the time between two instants.
abbrev pub asked : Option ℕ → Option ℕ → Range
asked none to = none
asked (some at) none = some (at, at)
asked (some at) (some to) = some (at, to)

abbrev pub join : Range → Range → Range
join none b = b
join (some a) none = some a
join (some (f, g)) (some (a, b)) = some (min f a, max g b)

abbrev pub IsDatedRange : Range → Type 0
IsDatedRange none = Unit
IsDatedRange (some (f, g)) = IsDated f × IsDated g

-- The payload names a range.
abbrev pub HasRange : Fields → Range → Type 0
HasRange payload none = (text_of from_key payload ≡ none) × (text_of to_key payload ≡ none)
HasRange payload (some (f, g)) =
    (text_of from_key payload ≡ some (isoformat f)) × (text_of to_key payload ≡ some (isoformat g))

abbrev pub Waits : Option (Row Fields) → Range → Type 0
Waits none o = o ≡ none
Waits (some r) o = HasRange r.payload o

-- The job waits, ready at once and with all its attempts.
abbrev pub IsReady : ℕ → ℕ → Range → Option (Row Fields) → Type 0
IsReady i now o none = ⊥
IsReady i now o (some r) =
    ((r.id ≡ i) × (r.status ≡ Status.pending))
    × (((r.attempts ≡ 0) × (r.available_at ≡ now)) × HasRange r.payload o)

request-HasRange :
    (workspace repository : ℕ) (at to : Option ℕ)
    → HasRange (request workspace repository at to) (asked at to)
unfolding request range_fields get
request-HasRange workspace repository none to = (refl, refl)
request-HasRange workspace repository (some a) none = (refl, refl)
request-HasRange workspace repository (some a) (some b) = (refl, refl)

merge-HasRange :
    (old excluded : Fields) (o p : Range)
    → IsDatedRange o
    → IsDatedRange p
    → HasRange old o
    → HasRange excluded p
    → HasRange (merge_payload old excluded) (join o p)
merge-HasRange old excluded none none d e h k =
    (merge_from old excluded ∙ rw (h.0) k.0, merge_to old excluded ∙ rw (h.1) k.1)
merge-HasRange old excluded none (some (a, b)) d e h k =
    (merge_from old excluded ∙ rw (h.0) k.0, merge_to old excluded ∙ rw (h.1) k.1)
merge-HasRange old excluded (some (f, g)) none d e h k =
    (merge_from old excluded ∙ rw (h.0, k.0) refl, merge_to old excluded ∙ rw (h.1, k.1) refl)
merge-HasRange old excluded (some (f, g)) (some (a, b)) d e h k = (
  merge_from old excluded ∙ rw (h.0, k.0) (least-isoformat f a d.0 e.0),
  merge_to old excluded ∙ rw (h.1, k.1) (greatest-isoformat g b d.1 e.1),
)

module _ (now new_id max_attempts workspace repository : ℕ) where
  merged-IsReady :
      (at to : Option ℕ) (o : Range) (old : Option (Row Fields))
      → IsDatedRange o
      → IsDatedRange (asked at to)
      → Waits old o
      → IsReady (id_or new_id old) now (join o (asked at to)) (
          some (
            merged same_waiting merge_job old (
              new_job now new_id max_attempts workspace repository
                (request workspace repository at to))))
  unfolding merge_job new_job
  merged-IsReady at to o none d e h =
      rw h (((refl, refl), ((refl, refl), request-HasRange workspace repository at to)))
  merged-IsReady at to o (some r) d e h = (
    (refl, refl),
    (
      (refl, refl),
      merge-HasRange r.payload (request workspace repository at to) o (asked at to) d e h
          (request-HasRange workspace repository at to),
    ),
  )

  -- A request to recalculate a repository's metrics leaves its waiting job ready at once, under the
  -- id that is returned: the job that waited already, or a new one. Its range is the range that
  -- waited widened by the one asked for (before the year 10000), or the only one that there is.
  pub enqueue_widens :
      (at to : Option ℕ) (o : Range) (t : Table Fields)
      → IsDatedRange o
      → IsDatedRange (asked at to)
      → Waits (waiting_job repository t) o
      → IsReady
          (enqueue_recalculate_metrics_job now new_id max_attempts workspace repository at to t).0
          now
          (join o (asked at to))
          (waiting_job repository
            (enqueue_recalculate_metrics_job now new_id max_attempts workspace repository at to
              t).1)
  unfolding enqueue_recalculate_metrics_job new_job
  enqueue_widens at to o t d e h =
      let job =
        new_job now new_id max_attempts workspace repository (request workspace repository at to) in
      let self : (repository == repository) ≡ true = ground arith in
      rw (first-upsert_one waits_are_keys job job t)
        (rw self (merged-IsReady at to o (waiting_job repository t) d e h))

  -- A request leaves at most one waiting job of each repository.
  pub enqueue-IsUnique :
      (at to : Option ℕ) (t : Table Fields)
      → IsUnique same_waiting t
      → IsUnique same_waiting
          (enqueue_recalculate_metrics_job now new_id max_attempts workspace repository at to t).1
  unfolding enqueue_recalculate_metrics_job
  enqueue-IsUnique at to t h =
      upsert-IsUnique waits_are_keys
        (new_job now new_id max_attempts workspace repository (request workspace repository at to)
          ∷ [])
        t h
