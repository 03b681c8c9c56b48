-- ===== src/Risk/Tests.antt =====
-- The theorems on app/risk at one pull request.
use adept_engine.Base.{
  ℕ, ◌-◌, ◌*◌, ◌≡◌, ◌≤◌, ◌↔◌, refl, true, none, some, [], ◌∷◌, codes, arith, All,
}
use adept_engine.Jobs.Errors.{ok}
use adept_engine.Metrics.Snapshot.{hour}
use adept_engine.Metrics.Buckets.{day_length}
use adept_engine.Risk.Stamp.{Stamp}
use adept_engine.Risk.Stale.{
  PrRow, activity_timestamps, calculate_hours_since_activity, check_stale, check_stale_iff,
}
use adept_engine.Risk.Outcomes.{
  LaterPr, Deployment, Outcome, observed_until, evaluate_pr_outcome, is_revert,
}
use adept_engine.Risk.Outcomes.Risky.{HasEvidence, evaluate_pr_outcome_risky}

abbrev pr : PrRow
pr = record {
  updated_at = Stamp.instant (10 * hour);
  last_synced_at = Stamp.missing;
  opened_at = Stamp.instant hour;
  commits = (Stamp.missing, Stamp.instant (20 * hour)) ∷ [];
  reviews = Stamp.malformed ∷ [];
  comments = [];
}

its_activity : activity_timestamps pr ≡ ok (10 * hour ∷ hour ∷ 20 * hour ∷ [])
unfolding activity_timestamps
its_activity = refl

check_stale_iff_example :
    (since : ℕ) × (calculate_hours_since_activity pr (200 * hour) ≡ ok since)
    × (((check_stale true since (120 * hour)).is_stale ≡ true) ↔ (
        (true ≡ true)
        × All (λ at. at ≤ 200 * hour - 120 * hour) (10 * hour ∷ hour ∷ 20 * hour ∷ [])))
check_stale_iff_example =
    check_stale_iff true pr (200 * hour) (120 * hour) (10 * hour) (hour ∷ 20 * hour ∷ [])
      its_activity (omega arith) (omega arith)

abbrev later : LaterPr
later = record {
  number = some 8;
  opened_at = Stamp.instant (2 * day_length);
  title = codes "Reverts #7";
}

abbrev broken : Deployment
broken = record {
  id = codes "d";
  environment = none;
  finished_at = Stamp.instant (30 * day_length);
  status = some (codes "failure");
  is_production = true;
}

evaluate_pr_outcome_risky_example :
    (o : Outcome) × (evaluate_pr_outcome 7
        (Stamp.instant day_length)
        0
        (later ∷ [])
        (broken ∷ [])
        []
        14
      ≡ ok o)
    × ((o.is_risky ≡ true)
        ↔ HasEvidence 7 day_length (observed_until day_length 14) (later ∷ []) (broken ∷ []) [])
    × (o.merged_at ≡ some day_length)
evaluate_pr_outcome_risky_example =
    evaluate_pr_outcome_risky 7 day_length 0 14 (later ∷ []) (broken ∷ []) [] (refl, tt) (refl, tt)
      tt

-- A revert of number 12 also counts as one of number 1.
another_number : is_revert 1 (record later { title = codes "Revert: fix (#12)" }) ≡ true
unfolding is_revert
another_number = refl
