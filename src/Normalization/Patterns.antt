-- ===== src/Normalization/Patterns.antt =====
-- How app/normalization/deployments.py decides that a deployment counts as production: the settings of
-- the repository hold patterns, each a text with commas or a list. Letters beyond ASCII keep their case.
pub mod Defaults
use adept_engine.Base.{
  ℕ, ◌+◌, ◌≡◌, refl, Bool, true, false, ◌&&◌, ◌||◌, not, Option, none, some, List, [], ◌∷◌, ◌++◌,
  map, arith, Text, codes, ◌==◌, leb, if◌then◌else◌, keep,
}
use adept_engine.Jobs.Sanitize.{is_space}
use adept_engine.Normalization.Fnmatch.{fnmatch}
use mathlib.Core.List.{reverse}

-- A value of the settings; a list by the `str` of its elements.
pub data Configured : Type 0 where
  text : Text → Configured
  list : List Text → Configured
  -- a missing key, or a value of another type
  unset : Configured

pub record Settings : Type 0 where
  -- `str` of the value, where there is one
  pub deployment_signal : Option Text
  pub dora_exclusions : Configured
  pub production_branch_patterns : Configured
  pub deployment_workflow_name_patterns : Configured
  pub production_environment_patterns : Configured

-- `{}`
abbrev pub no_settings : Settings
no_settings = record {
  deployment_signal = none;
  dora_exclusions = unset;
  production_branch_patterns = unset;
  deployment_workflow_name_patterns = unset;
  production_environment_patterns = unset;
}

lower_char : ℕ → ℕ
lower_char c = if leb b'A' c && leb c b'Z' then c + 32 else c

-- `s.lower()`
unfoldable pub lower : Text → Text
unfolding lower_char
lower s = map lower_char s

strip_left : Text → Text
unfolding is_space
strip_left [] = []
strip_left (c ∷ s) = let rest = strip_left s in if is_space c then rest else c ∷ s

-- `s.strip()`
unfoldable pub strip : Text → Text
unfolding strip_left
strip s = reverse (strip_left (reverse (strip_left s)))

unfoldable pub is_nonempty : Text → Bool
is_nonempty [] = false
is_nonempty (c ∷ s) = true

-- `s.split(",")`, with what stands before in `cur`
split_comma : Text → Text → List Text
split_comma cur [] = cur ∷ []
split_comma cur (c ∷ s) =
    let closed = cur ∷ split_comma [] s in
    let grown = split_comma (cur ++ c ∷ []) s in if c == b',' then closed else grown

-- `_patterns`
unfoldable pub patterns : Configured → List Text
unfolding strip split_comma is_nonempty
patterns (text s) = keep is_nonempty (map strip (split_comma [] s))
patterns (list xs) = keep is_nonempty (map strip xs)
patterns unset = []

-- `a or b` on lists
or_defaults : List Text → List Text → List Text
or_defaults [] defaults = defaults
or_defaults (p ∷ ps) defaults = p ∷ ps

any_match : Text → List Text → Bool
unfolding lower fnmatch
any_match lowered [] = false
any_match lowered (p ∷ ps) = fnmatch lowered (lower p) || any_match lowered ps

-- `_matches`
unfoldable pub matches : Text → Configured → List Text → Bool
unfolding is_nonempty or_defaults patterns any_match lower
matches value configured_patterns defaults =
    if not (is_nonempty value)
    then false
    else any_match (lower value) (or_defaults (patterns configured_patterns) defaults)

unfoldable pub is_configured : List Text → Bool
is_configured [] = false
is_configured (p ∷ ps) = true

-- `_is_excluded`
unfoldable pub is_excluded : Text → Settings → Bool
unfolding is_configured patterns matches
is_excluded signal_name settings =
    if is_configured (patterns settings.dora_exclusions)
    then matches signal_name settings.dora_exclusions []
    else false

abbrev pub workflow_defaults : List Text
workflow_defaults = codes "*deploy*" ∷ codes "*production*" ∷ codes "*release*" ∷ []

abbrev pub environment_defaults : List Text
environment_defaults = codes "production" ∷ codes "prod" ∷ codes "live" ∷ []

-- `_is_production_workflow`
unfoldable pub is_production_workflow : Text → Text → Text → Settings → Bool
unfolding matches is_excluded
is_production_workflow workflow_name head_branch default_branch settings =
    matches head_branch settings.production_branch_patterns (default_branch ∷ [])
    && matches workflow_name settings.deployment_workflow_name_patterns workflow_defaults
    && not (is_excluded workflow_name settings)

-- The test of an environment, in `upsert_deployment_from_deployment_status` and in
-- `reclassify_repository_deployments`.
unfoldable pub is_production_environment : Text → Settings → Bool
unfolding matches is_excluded
is_production_environment environment settings =
    matches environment settings.production_environment_patterns environment_defaults
    && not (is_excluded environment settings)

default_workflow :
    is_production_workflow (codes "CI / Deploy API") (codes "main") (codes "main") no_settings
    ≡ true
unfolding is_production_workflow
default_workflow = refl

configured_branch :
    patterns (text (codes " main, release/* ,,")) ≡ codes "main" ∷ codes "release/*" ∷ []
unfolding patterns
configured_branch = refl
