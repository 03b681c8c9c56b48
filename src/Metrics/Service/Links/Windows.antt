-- ===== src/Metrics/Service/Links/Windows.antt =====
-- The boundary of the merge window in `link_deployments_to_pull_requests` of app/metrics/service.py.
use adept_engine.Base.{
  ℕ, ◌≡◌, ◌≤◌, ◌<◌, refl, Bool, true, false, ◌&&◌, Option, none, some, List, [], ◌∷◌, ltb,
  if◌then◌else◌, arith, All, All-imp,
}
use adept_engine.Base.Among.{true≢false_of}
use adept_engine.Store.{DeploymentRow}
use adept_engine.Metrics.Service.Incidents.{finish}
use adept_engine.Metrics.Service.Links.{is_success, latest, previous_boundary, in_window}

-- Every success before `at` had finished by `b`.
abbrev pub IsBounded : ℕ → ℕ → Option ℕ → DeploymentRow → Type 0
IsBounded repository at none e = is_success repository e ≡ true → ltb (finish e) at ≡ false
IsBounded repository at (some b) e =
    is_success repository e ≡ true → ltb (finish e) at ≡ true → finish e ≤ b

module _ (repository at : ℕ) where
  later_bound :
      (d : DeploymentRow) (o : Option ℕ) (e : DeploymentRow)
      → IsBounded repository at o e
      → IsBounded repository at (latest (finish d) o) e
  later_bound d none e h = λ s l. absurd (true≢false_of l (h s))
  later_bound d (some b) e h = λ s l. omega (arith, h s l)

  own_bound : (d : DeploymentRow) (o : Option ℕ) → IsBounded repository at (latest (finish d) o) d
  own_bound d none = λ s l. omega arith
  own_bound d (some b) = λ s l. omega arith

  skip_bound :
      (d : DeploymentRow) (o : Option ℕ)
      → (is_success repository d && ltb (finish d) at) ≡ false
      → IsBounded repository at o d
  skip_bound d none e = λ s. rw s at e
  skip_bound d (some b) e = λ s l. absurd (true≢false_of l (rw s at e))

  extend :
      (d : DeploymentRow) (ds : List DeploymentRow) (o : Option ℕ) (b : Bool)
      → (is_success repository d && ltb (finish d) at) ≡ b
      → All (IsBounded repository at o) ds
      → All (IsBounded repository at (if b then latest (finish d) o else o)) (d ∷ ds)
  extend d ds o true e h = (own_bound d o, All-imp (later_bound d o) ds h)
  extend d ds o false e h = (skip_bound d o e, h)

  -- The boundary is no earlier than any success before the deployment.
  pub previous_boundary-IsBounded :
      (ds : List DeploymentRow)
      → All (IsBounded repository at (previous_boundary repository at ds)) ds
  unfolding previous_boundary
  previous_boundary-IsBounded [] = tt
  previous_boundary-IsBounded (d ∷ ds) =
      extend d ds (previous_boundary repository at ds) _ refl (previous_boundary-IsBounded ds)

-- The pull request merged by the time that the deployment finished, and after every success before it.
abbrev pub IsInWindow : ℕ → List DeploymentRow → ℕ → Option ℕ → Type 0
IsInWindow repository ds finished merged_at =
    (merged : ℕ) × (merged_at ≡ some merged)
    × (merged ≤ finished)
    × All (λ e. is_success repository e ≡ true → finish e < finished → finish e < merged) ds

pub in_window_sound :
    (repository : ℕ) (ds : List DeploymentRow) (finished : ℕ) (boundary merged_at : Option ℕ)
    → All (IsBounded repository finished boundary) ds
    → in_window boundary merged_at finished ≡ true
    → IsInWindow repository ds finished merged_at
in_window_sound repository ds finished boundary none b h = absurd (ground arith)
in_window_sound repository ds finished none (some m) b h = absurd (ground arith)
in_window_sound repository ds finished (some k) (some m) b h =
    let le : m ≤ finished = ground arith in
    let lt : k < m = ground arith in
    (m, refl, le, All-imp (λ e bound s l. ground (arith, bound s)) ds b)
