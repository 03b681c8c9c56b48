-- ===== src/Risk/Outcomes.antt =====
-- app/risk/outcomes.py: whether evidence after the merge labels a pull request risky. The empty
-- text is `malformed` here, as `fromisoformat` refuses it, except in the pull request's own
-- `merged_at`, where it is `missing`.
pub mod Evidence
pub mod Risky
use adept_engine.Base.{
  ℕ, ◌+◌, ◌*◌, ◌≡◌, refl, Bool, true, false, ◌&&◌, ◌||◌, Option, none, some, List, [], ◌∷◌, Text,
  codes, ◌==◌, leb, if◌then◌else◌, same,
}
use adept_engine.Jobs.Errors.{Result, ok, err, value_error, ◌>>=◌}
use adept_engine.Metrics.Snapshot.{upper, is_status}
use adept_engine.Metrics.Buckets.{day_length}
use adept_engine.Risk.Stamp.{Stamp}
use adept_engine.Risk.Matching.{Cursor, search_revert, search_hotfix, is_part, decimal}

pub record LaterPr : Type 0 where
  pub number : Option ℕ
  pub opened_at : Stamp
  pub title : Text

pub record Deployment : Type 0 where
  pub id : Text
  pub environment : Option Text
  pub finished_at : Stamp
  pub status : Option Text
  pub is_production : Bool

pub record Incident : Type 0 where
  pub id : Text
  pub title : Option Text
  pub severity : Option Text
  pub detected_at : Stamp

-- The reasons with their evidence.
pub data Reason : Type 0 where
  not_merged : Reason
  explicit_revert : Option ℕ → Text → ℕ → Reason
  hotfix_remedy : Option ℕ → Text → ℕ → Reason
  failed_deployment : Text → Option Text → ℕ → Reason
  production_incident : Text → Option Text → Option Text → ℕ → Reason
  no_adverse_event_observed : Reason

pub record Outcome : Type 0 where
  pub is_risky : Bool
  pub reason : Reason
  pub merged_at : Option ℕ
  pub observed_until : ℕ

-- `ref_group and int(ref_group) == pr_number`
abbrev pub refers_to : ℕ → Option ℕ → Bool
refers_to number none = false
refers_to number (some n) = n == number

-- `revert_match and (matches_ref or str(pr_number) in title)`
abbrev pub is_revert_match : ℕ → Text → Option Cursor → Bool
is_revert_match number title none = false
is_revert_match number title (some c) = refers_to number c.group || is_part (decimal number) title

abbrev pub is_hotfix_match : ℕ → Option Cursor → Bool
is_hotfix_match number none = false
is_hotfix_match number (some c) = refers_to number c.group

unfoldable pub is_revert : ℕ → LaterPr → Bool
unfolding search_revert is_part decimal
is_revert number pr = is_revert_match number pr.title (search_revert pr.title)

unfoldable pub is_hotfix : ℕ → LaterPr → Bool
unfolding search_hotfix
is_hotfix number pr = is_hotfix_match number (search_hotfix pr.title)

abbrev pub upper_status : Option Text → Text
upper_status none = []
upper_status (some s) = upper s

abbrev pub is_failure : Deployment → Bool
is_failure dep = dep.is_production && same (upper_status dep.status) (codes "FAILURE")

-- `datetime.fromisoformat` raises.
abbrev pub invalid : Result (Option Reason)
invalid = err (value_error (codes "Invalid isoformat string"))

module _ (number merged until : ℕ) where
  -- `merged_at_dt <= at <= observed_until`
  abbrev pub observed : ℕ → Bool
  observed at = leb merged at && leb at until

  abbrev pub later_reason : LaterPr → ℕ → Option Reason
  later_reason pr at =
      if observed at
      then (if is_revert number pr
          then some (explicit_revert pr.number pr.title at)
          else if is_hotfix number pr
          then some (hotfix_remedy pr.number pr.title at)
          else none)
      else none

  abbrev pub deployment_reason : Deployment → ℕ → Option Reason
  deployment_reason dep at =
      if observed at && is_failure dep
      then some (failed_deployment dep.id dep.environment at)
      else none

  abbrev pub incident_reason : Incident → ℕ → Option Reason
  incident_reason inc at =
      if observed at then some (production_incident inc.id inc.title inc.severity at) else none

-- A loop that returns at the first reason; `stamp` is the row's timestamp.
abbrev pub or_next : Option Reason → Result (Option Reason) → Result (Option Reason)
or_next none rest = rest
or_next (some r) rest = ok (some r)

module _ {A : Type 0} (stamp : A → Stamp) (reason : A → ℕ → Option Reason) where
  abbrev pub at_stamp : Stamp → A → Result (Option Reason) → Result (Option Reason)
  at_stamp Stamp.missing x rest = rest
  at_stamp Stamp.malformed x rest = invalid
  at_stamp (Stamp.instant at) x rest = or_next (reason x at) rest

  abbrev pub first_reason : List A → Result (Option Reason)
  first_reason [] = ok none
  first_reason (x ∷ xs) = at_stamp (stamp x) x (first_reason xs)

-- A later check runs only where the ones before it found nothing.
abbrev pub or_check : Result (Option Reason) → Result (Option Reason) → Result (Option Reason)
or_check (err e) later = err e
or_check (ok o) later = or_next o later

abbrev pub conclude : ℕ → ℕ → Option Reason → Outcome
conclude merged until none = record {
  is_risky = false;
  reason = no_adverse_event_observed;
  merged_at = some merged;
  observed_until = until;
}
conclude merged until (some r) = record {
  is_risky = true;
  reason = r;
  merged_at = some merged;
  observed_until = until;
}

abbrev pub observed_until : ℕ → ℕ → ℕ
observed_until merged days = merged + days * day_length

-- The four checks in their order.
abbrev pub checks :
    ℕ → ℕ → ℕ → List LaterPr → List Deployment → List Incident → Result (Option Reason)
checks number merged until later_prs deployments incidents =
    or_check
      (first_reason (λ (p : LaterPr). p.opened_at) (later_reason number merged until) later_prs)
      (or_check
        (first_reason (λ (d : Deployment). d.finished_at) (deployment_reason number merged until)
          deployments)
        (first_reason (λ (i : Incident). i.detected_at) (incident_reason number merged until)
          incidents))

-- `now` is `datetime.now(UTC)`.
unfoldable pub evaluate_pr_outcome :
    ℕ → Stamp → ℕ → List LaterPr → List Deployment → List Incident → ℕ → Result Outcome
unfolding is_revert is_hotfix same
evaluate_pr_outcome number Stamp.missing now later_prs deployments incidents window_days =
    ok (record { is_risky = false; reason = not_merged; merged_at = none; observed_until = now })
evaluate_pr_outcome number Stamp.malformed now later_prs deployments incidents window_days =
    err (value_error (codes "Invalid isoformat string"))
evaluate_pr_outcome number (Stamp.instant merged) now later_prs deployments incidents window_days =
    let until = observed_until merged window_days in
    checks number merged until later_prs deployments incidents
    >>= (λ reason. ok (conclude merged until reason))
