-- ===== src/Normalization/Deployments/Newest.antt =====
-- The order of deliveries does not matter to `_run_upsert` of app/normalization/deployments.py.
use adept_engine.Base.{
  ℕ, ◌≡◌, ◌≤◌, refl, ap, sym, ◌∙◌, Bool, true, false, Option, none, some, List, [], ◌∷◌,
  if◌then◌else◌, is_some, arith, All, Bool-cases, ◌⊎◌, inl, inr,
}
use adept_engine.Base.Among.{Among, true≢false_of}
use adept_engine.Base.Upsert.{first, upsert, absorb, first-upsert}
use adept_engine.Store.{DeploymentRow}
use adept_engine.Metrics.Service.Incidents.{finish, time_or_zero}
use adept_engine.Normalization.Deployments.Keys.{deployments_are_keys}
use adept_engine.Normalization.Deployments.{
  same_deployment, is_no_older, update_deployment, merge_deployment,
}

-- What a delivery says, beside the key, the start and the bookkeeping.
abbrev pub Says : DeploymentRow → DeploymentRow → Type 0
Says e r =
    ((r.environment ≡ e.environment) × (r.is_production ≡ e.is_production))
    × ((r.status ≡ e.status)
        × ((r.commit_sha ≡ e.commit_sha)
            × ((r.finished_at ≡ e.finished_at) × (r.raw_data ≡ e.raw_data))))

-- Every delivery of the key of `x` has a finish time.
abbrev pub AllFinished : DeploymentRow → List DeploymentRow → Type 0
AllFinished x es = All (λ e. same_deployment x e ≡ true → is_some e.finished_at ≡ true) es

abbrev pub NoneLater : DeploymentRow → List DeploymentRow → ℕ → Type 0
NoneLater x es at = All (λ e. same_deployment x e ≡ true → finish e ≤ at) es

-- The row has the data of a delivery of the key that no other one finished after.
abbrev pub IsNewest : DeploymentRow → List DeploymentRow → DeploymentRow → Type 0
IsNewest x es r =
    (e : DeploymentRow) × Among e es
    × (same_deployment x e ≡ true)
    × Says e r
    × NoneLater x es (finish e)

abbrev pub IsNewestOption : DeploymentRow → List DeploymentRow → Option DeploymentRow → Type 0
IsNewestOption x es none = ⊥
IsNewestOption x es (some r) = IsNewest x es r

module _ (x : DeploymentRow) where
  -- Among the deliveries, or the row that stood there.
  abbrev IsBest : DeploymentRow → List DeploymentRow → Option DeploymentRow → Type 0
  IsBest r es none = ⊥
  IsBest r es (some s) =
      (Says r s × NoneLater x es (finish r)) ⊎ (IsNewest x es s × (finish r ≤ finish s))

  Says-self : (r : DeploymentRow) → Says r r
  Says-self r = ((refl, refl), (refl, (refl, (refl, refl))))

  extend-IsBest :
      (r e : DeploymentRow) (es : List DeploymentRow) (o : Option DeploymentRow)
      → same_deployment x e ≡ true
      → finish e ≤ finish r
      → IsBest r es o
      → IsBest r (e ∷ es) o
  extend-IsBest r e es none h le b = b
  extend-IsBest r e es (some s) h le (inl (says, l)) = inl (says, (λ _. le, l))
  extend-IsBest r e es (some s) h le (inr ((d, m, k, says, l), ge)) =
      inr ((d, inr m, k, says, (λ _. omega (arith, ap time_or_zero says.1.1.1.0), l)), ge)

  skip-IsBest :
      (r e : DeploymentRow) (es : List DeploymentRow) (o : Option DeploymentRow)
      → same_deployment x e ≡ false
      → IsBest r es o
      → IsBest r (e ∷ es) o
  skip-IsBest r e es none h b = b
  skip-IsBest r e es (some s) h (inl (says, l)) = inl (says, (λ y. absurd (true≢false_of y h), l))
  skip-IsBest r e es (some s) h (inr ((d, m, k, says, l), ge)) =
      inr ((d, inr m, k, says, (λ y. absurd (true≢false_of y h), l)), ge)

  adopt-IsBest :
      (r e : DeploymentRow) (es : List DeploymentRow) (o : Option DeploymentRow)
      → same_deployment x e ≡ true
      → finish r ≤ finish e
      → IsBest (update_deployment r e) es o
      → IsBest r (e ∷ es) o
  adopt-IsBest r e es none h le b = b
  adopt-IsBest r e es (some s) h le (inl (says, l)) =
      inr
        ((e, inl refl, h, says, (λ _. omega arith, l)), omega (arith, ap time_or_zero says.1.1.1.0))
  adopt-IsBest r e es (some s) h le (inr ((d, m, k, says, l), ge)) =
      let same_finish = ap time_or_zero says.1.1.1.0 in
      inr ((d, inr m, k, says, (λ _. omega (arith, same_finish), l)), omega arith)

  older-le :
      (a b : Option ℕ)
      → is_some a ≡ true
      → is_some b ≡ true
      → is_no_older a b ≡ true
      → time_or_zero a ≤ time_or_zero b
  older-le none b h k e = absurd (ground arith)
  older-le (some a) none h k e = absurd (ground arith)
  older-le (some a) (some b) h k e = ground arith

  newer-le : (a b : Option ℕ) → is_no_older a b ≡ false → time_or_zero b ≤ time_or_zero a
  newer-le none b e = absurd (ground arith)
  newer-le (some a) none e = omega arith
  newer-le (some a) (some b) e = ground arith

  abbrev after : List DeploymentRow → DeploymentRow → Option DeploymentRow
  after es r = absorb same_deployment merge_deployment x es (some r)

  step-IsBest :
      (r e : DeploymentRow) (es : List DeploymentRow) (b : Bool)
      → is_no_older r.finished_at e.finished_at ≡ b
      → same_deployment x e ≡ true
      → is_some r.finished_at ≡ true
      → is_some e.finished_at ≡ true
      → IsBest (update_deployment r e) es (after es (update_deployment r e))
      → IsBest r es (after es r)
      → IsBest r (e ∷ es) (after es (if b then update_deployment r e else r))
  step-IsBest r e es true n s k f adopted kept =
      adopt-IsBest r e es _ s (older-le r.finished_at e.finished_at k f n) adopted
  step-IsBest r e es false n s k f adopted kept =
      extend-IsBest r e es _ s (newer-le r.finished_at e.finished_at n) kept

  absorb-IsBest :
      (es : List DeploymentRow) (r : DeploymentRow)
      → AllFinished x es
      → is_some r.finished_at ≡ true
      → IsBest r es (after es r)
  unfolding merge_deployment
  absorb-IsBest [] r f k = inl (Says-self r, tt)
  absorb-IsBest (e ∷ es) r f k = elim (Bool-cases (same_deployment x e)) [
    | inr s ↦ rw s (skip-IsBest r e es (after es r) s (absorb-IsBest es r f.1 k))
    | inl s ↦ rw s (
        step-IsBest r e es (is_no_older r.finished_at e.finished_at) refl s k (f.0 s)
          (absorb-IsBest es (update_deployment r e) f.1 (f.0 s)) (absorb-IsBest es r f.1 k))
  ]

  first_best :
      (e : DeploymentRow) (es : List DeploymentRow) (o : Option DeploymentRow)
      → same_deployment x e ≡ true
      → IsBest e es o
      → IsNewestOption x (e ∷ es) o
  first_best e es none h b = b
  first_best e es (some s) h (inl (says, l)) = (e, inl refl, h, says, (λ _. omega arith, l))
  first_best e es (some s) h (inr ((d, m, k, says, l), ge)) =
      let same_finish = ap time_or_zero says.1.1.1.0 in
      (d, inr m, k, says, (λ _. omega (arith, same_finish), l))

  skip_newest :
      (e : DeploymentRow) (es : List DeploymentRow) (o : Option DeploymentRow)
      → same_deployment x e ≡ false
      → IsNewestOption x es o
      → IsNewestOption x (e ∷ es) o
  skip_newest e es none h n = n
  skip_newest e es (some s) h (d, m, k, says, l) =
      (d, inr m, k, says, (λ y. absurd (true≢false_of y h), l))

  absorb-IsNewest :
      (es : List DeploymentRow) (d : DeploymentRow)
      → AllFinished x es
      → Among d es
      → same_deployment x d ≡ true
      → IsNewestOption x es (absorb same_deployment merge_deployment x es none)
  absorb-IsNewest [] d f m k = absurd m
  absorb-IsNewest (e ∷ es) d f m k = elim (Bool-cases (same_deployment x e)) [
    | inl s ↦ rw s (first_best e es (after es e) s (absorb-IsBest es e f.1 (f.0 s)))
    | inr s ↦ rw s (skip_newest e es _ s (absorb-IsNewest es d f.1 (later e m s) k))
  ]
    where
      later : (e : DeploymentRow) → Among d (e ∷ es) → same_deployment x e ≡ false → Among d es
      later e (inl q) s = absurd (true≢false_of k (ap (same_deployment x) (sym q) ∙ s))
      later e (inr n) s = n

  -- However the deliveries of the deployments of a table come, and whatever others come between:
  -- where the table has no row of a deployment yet and all of its deliveries have finish times, of
  -- which there is one, the row of the deployment has the environment, classification, status, commit,
  -- finish time and raw data of a delivery that no other of them finished after.
  pub upsert_newest :
      (es t : List DeploymentRow) (d : DeploymentRow)
      → first (same_deployment x) t ≡ none
      → AllFinished x es
      → Among d es
      → same_deployment x d ≡ true
      → IsNewestOption x es
          (first (same_deployment x) (upsert same_deployment merge_deployment es t))
  upsert_newest es t d fresh f m k =
      rw (first-upsert deployments_are_keys x es t, fresh) (absorb-IsNewest es d f m k)
