-- ===== src/Normalization/Patterns/Defaults.antt =====
-- What counts as production in app/normalization/deployments.py where the settings are silent.
use adept_engine.Base.{
  ||-iff, &&-iff, ℕ, ◌≡◌, ◌≢◌, refl, ◌↔◌, ◌⊎◌, inl, inr, Bool, true, false, ◌&&◌, ◌||◌, not, [],
  ◌∷◌, ◌++◌, arith, Text, codes,
}
use adept_engine.Normalization.Fnmatch.{fnmatch, translate}
use adept_engine.Normalization.Fnmatch.Words.{Contains, word_iff, IsPlain, fnmatch_plain}
use adept_engine.Normalization.Patterns.{
  unset, no_settings, lower, patterns, any_match, matches, is_excluded, is_production_workflow,
  workflow_defaults,
}

word_deploy : (s : Text) → (fnmatch s (codes "*deploy*") ≡ true) ↔ Contains (codes "deploy") s
unfolding fnmatch translate
word_deploy s = word_iff (codes "deploy") s

word_production :
    (s : Text) → (fnmatch s (codes "*production*") ≡ true) ↔ Contains (codes "production") s
unfolding fnmatch translate
word_production s = word_iff (codes "production") s

word_release : (s : Text) → (fnmatch s (codes "*release*") ≡ true) ↔ Contains (codes "release") s
unfolding fnmatch translate
word_release s = word_iff (codes "release") s

abbrev pub NamesDeployment : Text → Type 0
NamesDeployment s =
    Contains (codes "deploy") s ⊎ (Contains (codes "production") s ⊎ Contains (codes "release") s)

||-false : (a : Bool) → (a || false) ≡ a
||-false true = refl
||-false false = refl

&&-not-false : (a : Bool) → (a && not false) ≡ a
&&-not-false true = refl
&&-not-false false = refl

any_word : (s : Text) → (any_match s workflow_defaults ≡ true) ↔ NamesDeployment s
unfolding any_match lower
any_word s = rw (||-false (fnmatch s (codes "*release*"))) (
    ||-iff (fnmatch s (codes "*deploy*")) _ (word_deploy s)
      (||-iff (fnmatch s (codes "*production*")) _ (word_production s) (word_release s)))

nonempty_end : (c : ℕ) (before behind : Text) → [] ≢ before ++ (c ∷ behind)
nonempty_end c [] behind h = cc
nonempty_end c (b ∷ before) behind h = cc

not_in_empty : (c : ℕ) (w : Text) → ¬ Contains (c ∷ w) []
not_in_empty c w (before, behind, t) = nonempty_end c before (w ++ behind) t

no_word : ¬ NamesDeployment []
no_word n = elim n [
  | inl c ↦ not_in_empty b'd' (codes "eploy") c
  | inr (inl c) ↦ not_in_empty b'p' (codes "roduction") c
  | inr (inr c) ↦ not_in_empty b'r' (codes "elease") c
]

workflow_matches :
    (name : Text) → (matches name unset workflow_defaults ≡ true) ↔ NamesDeployment (lower name)
unfolding matches
workflow_matches [] = (λ h. absurd (ground arith), λ n. absurd (no_word n))
workflow_matches (c ∷ name) = any_word (lower (c ∷ name))

branch_matches :
    (head default_branch : Text)
    → IsPlain (lower default_branch)
    → (matches head unset (default_branch ∷ []) ≡ true)
      ↔ ((head ≢ []) × (lower head ≡ lower default_branch))
unfolding matches any_match
branch_matches [] default_branch p = (λ h. absurd (ground arith), λ n. absurd (n.0 refl))
branch_matches (c ∷ head) default_branch p =
    rw (||-false (fnmatch (lower (c ∷ head)) (lower default_branch))) (
      λ h. (λ e. cc, (fnmatch_plain (lower default_branch) _ p).0 h),
      λ n. (fnmatch_plain (lower default_branch) _ p).1 n.1,
    )

-- With settings that name no patterns, a workflow run counts as production exactly when it ran on
-- the default branch (up to the case of letters, if no letter of that branch is special in a
-- pattern) and its name contains "deploy", "production" or "release" in any case.
pub is_production_workflow_default :
    (name head default_branch : Text)
    → IsPlain (lower default_branch)
    → (is_production_workflow name head default_branch no_settings ≡ true)
      ↔ (((head ≢ []) × (lower head ≡ lower default_branch)) × NamesDeployment (lower name))
unfolding is_production_workflow is_excluded patterns
is_production_workflow_default name head default_branch p =
    let branch = matches head unset (default_branch ∷ []) in
    let named = matches name unset workflow_defaults in
    rw (&&-not-false (branch && named))
      (&&-iff branch named (branch_matches head default_branch p) (workflow_matches name))
