-- ===== src/Alerts/Tests.antt =====
-- The median of four observations, an observation that stands in two snapshots, and a rule that fires
-- once in its cooldown.
use adept_engine.Base.{
  ℕ, ◌*◌, ◌≡◌, refl, true, none, some, List, [], ◌∷◌, codes, same, length, arith,
}
use adept_engine.Values.Json.{Json, Fields, end_fields, field, get}
use adept_engine.Values.Uuid.{uuid_text, uuid_of, parse_uuid}
use adept_engine.Jobs.Errors.{Result, ok, err}
use adept_engine.Alerts.Aggregate.{
  RawSnapshot, observation, observe_all, whole, EvaluatedMetric, matches,
}
use adept_engine.Alerts.Aggregate.Window.{lookup, IsDistinct, valid_all, observe_all_once}
use adept_engine.Alerts.Evaluate.{
  AlertRule, AlertState, Evaluation, Prediction, minute, delivery_of, queue_delivery, metric_of,
  evaluate_rules, handle_evaluate_alerts, is_met, event_key_of,
}
use adept_engine.Alerts.Cooldown.Told.{IsTold, evaluated, evaluate_rules-IsTold}
use adept_engine.Alerts.Cooldown.{IsCalm, IsOnce}
use adept_engine.Alerts.Cooldown.Runs.{
  Transaction, queue_all, KeepsCalm, queue_all-IsCalm, handle_evaluate_alerts-KeepsCalm,
}
use adept_engine.Alerts.Median.{median}

two_and_a_half : median (4 ∷ 1 ∷ 3 ∷ 2 ∷ []) ≡ 5
unfolding median
two_and_a_half = refl

abbrev snapshot : ℕ → RawSnapshot
snapshot i = record {
  id = i;
  period_start = some 0;
  calculated_at = some i;
  observations = some (
      observation (some 15) (some 4) (some (codes "a")) ∷ observation (some 25) (some 6) none ∷ []);
}

observe_all_once_example :
    IsDistinct (observe_all 10 20 (snapshot 1 ∷ snapshot 2 ∷ []) [])
    × (lookup (codes "a") (observe_all 10 20 (snapshot 1 ∷ snapshot 2 ∷ []) [])
        ≡ lookup (codes "a") (valid_all 10 20 (snapshot 1 ∷ snapshot 2 ∷ [])))
observe_all_once_example = observe_all_once 10 20 (snapshot 1 ∷ snapshot 2 ∷ []) (codes "a")

-- A risk score of more than 3, at most once in ten minutes.
abbrev rule : AlertRule
rule = record {
  id = 4;
  repository_id = 7;
  name = codes "risky";
  metric_type = codes "PR_RISK_SCORE";
  comparator = codes "GT";
  threshold_value = 3;
  evaluation_window_minutes = 60;
  cooldown_minutes = 10;
  channel = codes "EMAIL";
  destination = codes "a@b.c";
  enabled = true;
  last_triggered_at = none;
  created_at = 0;
  updated_at = 0;
  version = 0;
}

abbrev state : AlertState
state = record { rules = rule ∷ []; deliveries = [] }

abbrev prediction : Prediction
prediction = record {
  id = 9;
  repository_id = 7;
  risk_score = 5;
  predicted_at = 1000 * minute;
  created_at = 1000 * minute;
}

abbrev metric : EvaluatedMetric
metric = record {
  actual = whole 5;
  source_entity_id = 9;
  observation_count = 1;
  period_start = 950 * minute;
  period_end = 1010 * minute;
}

-- Two jobs within five minutes, and the first of them again.
abbrev transactions : List Transaction
transactions =
    (10, delivery_of (1010 * minute) 1 7 20 rule metric)
    ∷ (10, delivery_of (1015 * minute) 1 7 21 rule metric)
    ∷ (10, delivery_of (1030 * minute) 1 7 20 rule metric)
    ∷ []

one_delivery : length (queue_all transactions state).deliveries ≡ 1
unfolding queue_delivery same uuid_text
one_delivery = refl

queue_all-IsCalm_example :
    IsCalm 4 10 (queue_all transactions state)
    × IsOnce 4 (event_key_of 20) (queue_all transactions state)
queue_all-IsCalm_example =
    queue_all-IsCalm 4 10 (event_key_of 20) transactions state (refl, (refl, (refl, tt))) tt
      (omega arith)

abbrev evaluation : Evaluation
evaluation = record {
  scale = 1;
  evaluation_end = 1010 * minute;
  now = λ i. 1010 * minute;
  predictions = prediction ∷ [];
  snapshots = [];
}

abbrev payload : Fields
payload =
    field (codes "repository_id") (Json.string (codes "00000000-0000-0000-0000-000000000007")) (
      field (codes "workspace_id") (Json.string (codes "00000000-0000-0000-0000-000000000001"))
        end_fields)

abbrev queued : Result AlertState → ℕ
queued (ok s) = length s.deliveries
queued (err e) = 0

fires : queued (handle_evaluate_alerts evaluation 20 payload state) ≡ 1
unfolding handle_evaluate_alerts evaluate_rules metric_of queue_delivery matches uuid_of parse_uuid
    get same
fires = refl

metric_found : metric_of evaluation 7 rule ≡ some metric
unfolding metric_of same
metric_found = refl

metric_met : is_met rule metric ≡ true
unfolding matches same
metric_met = refl

evaluate_rules-IsTold_example :
    IsTold rule (event_key_of 20) (evaluate_rules evaluation 1 7 20 (evaluated 7 state) state)
evaluate_rules-IsTold_example =
    evaluate_rules-IsTold evaluation 1 7 20 rule metric state refl refl refl metric_found metric_met
      refl

handle_evaluate_alerts-KeepsCalm_example :
    KeepsCalm 4 10 (event_key_of 20) (handle_evaluate_alerts evaluation 20 payload state)
handle_evaluate_alerts-KeepsCalm_example =
    handle_evaluate_alerts-KeepsCalm evaluation 20 payload 4 10 (event_key_of 20) state (refl, tt)
      tt (omega arith)
