-- ===== src/Normalization/Reclassify.antt =====
-- `reclassify_repository_deployments` of app/normalization/deployments.py. The texts of a workflow run
-- in the raw data are JSON texts or numbers.
pub mod Settles
use adept_engine.Base.{
  ℕ, ◌+◌, ◌≡◌, refl, Bool, true, false, ◌&&◌, not, Option, none, some, List, [], ◌∷◌, map, Text,
  codes, ◌==◌, same, if◌then◌else◌, length, keep, arith, All,
}
use adept_engine.Values.Json.{Json, Fields, end_fields, get, is_true, as_text}
use adept_engine.Metrics.Snapshot.{upper}
use adept_engine.Store.{DeploymentRow}
use adept_engine.Normalization.Patterns.{
  Settings, is_production_workflow, is_production_environment,
}
use adept_engine.Normalization.Deliveries.{or_empty}

-- `value if isinstance(value, dict) else {}`
abbrev pub object_or_empty : Json → Fields
object_or_empty (Json.object fs) = fs
object_or_empty _ = end_fields

-- `str(value or default)`
abbrev pub text_or : Json → Text → Text
text_or value default = if is_true value then or_empty (as_text value) else default

-- `str(settings.get("deployment_signal", "WORKFLOW_RUN")).upper()`
abbrev pub selected_signal : Option Text → Text
selected_signal none = codes "WORKFLOW_RUN"
selected_signal (some s) = upper s

abbrev pub workflow_data : DeploymentRow → Fields
workflow_data d = object_or_empty (get (codes "workflow_run") d.raw_data)

-- The body of the loop up to `is_production`.
unfoldable pub classify : Text → Settings → DeploymentRow → Bool
unfolding get is_production_workflow is_production_environment
classify default_branch settings d =
    let signal = selected_signal settings.deployment_signal in
    let environment = or_empty d.environment in
    if same signal (codes "WORKFLOW_RUN") && same d.source (codes "GITHUB_WORKFLOW")
    then is_production_workflow (text_or (get (codes "name") (workflow_data d)) environment)
        (text_or (get (codes "head_branch") (workflow_data d)) []) default_branch settings
    else if same signal (codes "DEPLOYMENT") && same d.source (codes "GITHUB_DEPLOYMENT")
    then is_production_environment environment settings
    else if same d.source (codes "MANUAL")
    then d.is_production
    else false

-- `a != b`
abbrev pub differ : Bool → Bool → Bool
differ true b = not b
differ false b = b

pick_again :
    (a b c w e p : Bool)
    → (if a
        then w
        else if b
        then e
        else if c
        then (if a then w else if b then e else if c then p else false)
        else false)
      ≡ (if a then w else if b then e else if c then p else false)
pick_again true b c w e p = refl
pick_again false true c w e p = refl
pick_again false false true w e p = refl
pick_again false false false w e p = refl

differ_self : (b : Bool) → differ b b ≡ false
differ_self true = refl
differ_self false = refl

pub differ-false : (a b : Bool) → differ a b ≡ false → b ≡ a
differ-false true true h = refl
differ-false true false h = absurd (ground arith)
differ-false false b h = h

module _ (now repository : ℕ) (default_branch : Text) (settings : Settings) where
  abbrev pub is_stale : DeploymentRow → Bool
  is_stale d =
      d.repository_id == repository && differ (classify default_branch settings d) d.is_production

  -- The `UPDATE` of the row.
  abbrev pub set_production : DeploymentRow → DeploymentRow
  set_production d = record d {
    is_production = classify default_branch settings d;
    updated_at = now;
    version = d.version + 1;
  }

  abbrev pub reclassified : DeploymentRow → DeploymentRow
  reclassified d = if is_stale d then set_production d else d

  -- How many rows change, and the table; an id names one row.
  unfoldable pub reclassify_repository_deployments : List DeploymentRow → ℕ × List DeploymentRow
  unfolding classify
  reclassify_repository_deployments t = (length (keep is_stale t), map reclassified t)

  set_production-classify :
      (d : DeploymentRow)
      → classify default_branch settings (set_production d) ≡ classify default_branch settings d
  unfolding classify
  set_production-classify d =
      let signal = selected_signal settings.deployment_signal in
      let environment = or_empty d.environment in
      pick_again (same signal (codes "WORKFLOW_RUN") && same d.source (codes "GITHUB_WORKFLOW"))
        (same signal (codes "DEPLOYMENT") && same d.source (codes "GITHUB_DEPLOYMENT"))
        (same d.source (codes "MANUAL"))
        (is_production_workflow (text_or (get (codes "name") (workflow_data d)) environment)
          (text_or (get (codes "head_branch") (workflow_data d)) []) default_branch settings)
        (is_production_environment environment settings) d.is_production

  set_production-not_stale : (d : DeploymentRow) → is_stale (set_production d) ≡ false
  set_production-not_stale d =
      rw (set_production-classify d, differ_self (classify default_branch settings d))
        (ground arith)

  either-not_stale :
      (d : DeploymentRow) (b : Bool)
      → is_stale d ≡ b
      → is_stale (if b then set_production d else d) ≡ false
  either-not_stale d true h = set_production-not_stale d
  either-not_stale d false h = h

  pub reclassify-not_stale :
      (t : List DeploymentRow) → All (λ d. is_stale d ≡ false) (map reclassified t)
  reclassify-not_stale [] = tt
  reclassify-not_stale (d ∷ t) = (either-not_stale d (is_stale d) refl, reclassify-not_stale t)

  pub settled :
      (t : List DeploymentRow)
      → All (λ d. is_stale d ≡ false) t
      → (keep is_stale t ≡ []) × (map reclassified t ≡ t)
  settled [] h = (refl, refl)
  settled (d ∷ t) h =
      let (none_left, same_rest) = settled t h.1 in
      (rw (h.0, none_left) refl, rw (h.0, same_rest) refl)
