-- ===== src/Alerts/Evaluate.antt =====
-- `handle_evaluate_alerts` of app/jobs/handlers/evaluate_alerts.py. A delivery is kept without the
-- subject, text and html of its payload, and the message about a UUID without the text of its exception. `now` of an `Evaluation` gives the time of the transaction of
-- each rule.
use adept_engine.Base.{
  ℕ, ◌+◌, ◌-◌, ◌*◌, Bool, false, ◌&&◌, ◌||◌, not, Option, none, some, List, [], ◌∷◌, ◌++◌, map,
  keep, Text, codes, ◌==◌, ltb, leb, if◌then◌else◌, same,
}
use adept_engine.Base.Sorting.{sort_by}
use adept_engine.Base.Upsert.{first}
use adept_engine.Values.Json.{Fields, get, or_else, is_true}
use adept_engine.Values.Uuid.{uuid_text, uuid_of}
use adept_engine.Jobs.Errors.{Result, ok, err, permanent_job}
use adept_engine.Alerts.Aggregate.{
  EvaluatedMetric, RawSnapshot, aggregate_dora_metric, matches, whole,
}

pub record AlertRule : Type 0 where
  pub id : ℕ
  pub repository_id : ℕ
  pub name : Text
  pub metric_type : Text
  pub comparator : Text
  pub threshold_value : ℕ
  pub evaluation_window_minutes : ℕ
  pub cooldown_minutes : ℕ
  pub channel : Text
  pub destination : Text
  pub enabled : Bool
  pub last_triggered_at : Option ℕ
  pub created_at : ℕ
  pub updated_at : ℕ
  pub version : ℕ

pub record Delivery : Type 0 where
  pub workspace_id : ℕ
  pub repository_id : ℕ
  pub alert_rule_id : ℕ
  pub event_key : Text
  pub channel : Text
  pub destination : Text
  pub status : Text
  pub attempts : ℕ
  pub metric : EvaluatedMetric
  pub threshold_value : ℕ
  pub created_at : ℕ
  pub updated_at : ℕ

pub record Prediction : Type 0 where
  pub id : ℕ
  pub repository_id : ℕ
  pub risk_score : ℕ
  pub predicted_at : ℕ
  pub created_at : ℕ

pub record MetricSnapshotRow : Type 0 where
  pub repository_id : ℕ
  pub metric_type : Text
  pub granularity : Text
  pub calculation_version : Text
  pub period_start : ℕ
  pub period_end : ℕ
  pub calculated_at : ℕ
  pub snapshot : RawSnapshot

pub record AlertState : Type 0 where
  pub rules : List AlertRule
  pub deliveries : List Delivery

pub record Evaluation : Type 0 where
  -- how many units of a `Decimal` make 1
  pub scale : ℕ
  pub evaluation_end : ℕ
  pub now : ℕ → ℕ
  pub predictions : List Prediction
  pub snapshots : List MetricSnapshotRow

abbrev pub minute : ℕ
minute = 60_000_000

abbrev pub is_rule : ℕ → AlertRule → Bool
is_rule i r = i == r.id

abbrev pub in_cooldown : ℕ → ℕ → Option ℕ → Bool
in_cooldown now cooldown none = false
in_cooldown now cooldown (some t) = ltb now (t + cooldown * minute)

abbrev pub same_event : Delivery → Delivery → Bool
same_event a b = a.alert_rule_id == b.alert_rule_id && same a.event_key b.event_key

abbrev pub touch : ℕ → ℕ → AlertRule → AlertRule
touch now i r =
    if is_rule i r
    then record r { last_triggered_at = some now; updated_at = now; version = r.version + 1 }
    else r

abbrev pub event_key_of : ℕ → Text
event_key_of job = codes "evaluation:" ++ uuid_text job

abbrev pub delivery_of : ℕ → ℕ → ℕ → ℕ → AlertRule → EvaluatedMetric → Delivery
delivery_of now workspace repository job rule metric = record {
  workspace_id = workspace;
  repository_id = repository;
  alert_rule_id = rule.id;
  event_key = event_key_of job;
  channel = rule.channel;
  destination = rule.destination;
  status = codes "PENDING";
  attempts = 0;
  metric = metric;
  threshold_value = rule.threshold_value;
  created_at = now;
  updated_at = now;
}

-- `ON CONFLICT DO NOTHING`, and the update of the rule where a row was inserted.
abbrev pub insert_unless : Option Delivery → Delivery → AlertState → AlertState
insert_unless (some old) d s = s
insert_unless none d s = record {
  rules = map (touch d.created_at d.alert_rule_id) s.rules;
  deliveries = d ∷ s.deliveries;
}

-- The decision on the row of the rule that the transaction has locked.
abbrev pub queue_if : Option AlertRule → ℕ → ℕ → Delivery → AlertState → AlertState
queue_if none now cooldown d s = s
queue_if (some r) now cooldown d s =
    if r.enabled && not (in_cooldown now cooldown r.last_triggered_at)
    then insert_unless (first (same_event d) s.deliveries) d s
    else s

-- The transaction that queues the delivery of a rule whose condition is met.
unfoldable pub queue_delivery : ℕ → Delivery → AlertState → AlertState
queue_delivery cooldown d s =
    queue_if (first (is_rule d.alert_rule_id) s.rules) d.created_at cooldown d s

abbrev pub is_later : Prediction → Prediction → Bool
is_later a b =
    ltb b.predicted_at a.predicted_at
    || (a.predicted_at == b.predicted_at && leb b.created_at a.created_at)

abbrev pub is_predicted_in : ℕ → ℕ → ℕ → Prediction → Bool
is_predicted_in repository start end p =
    p.repository_id == repository && (leb start p.predicted_at && ltb p.predicted_at end)

abbrev pub metric_of_prediction : ℕ → ℕ → List Prediction → Option EvaluatedMetric
metric_of_prediction start end [] = none
metric_of_prediction start end (p ∷ ps) = some (record {
  actual = whole p.risk_score;
  source_entity_id = p.id;
  observation_count = 1;
  period_start = start;
  period_end = end;
})

abbrev pub overlaps : ℕ → Text → ℕ → ℕ → MetricSnapshotRow → Bool
overlaps repository metric_type start end s =
    s.repository_id == repository
    && (same s.metric_type metric_type
        && (same s.granularity (codes "DAY")
            && (same s.calculation_version (codes "dora-v3")
                && (ltb start s.period_end && ltb s.period_start end))))

abbrev pub is_earlier : MetricSnapshotRow → MetricSnapshotRow → Bool
is_earlier a b =
    ltb a.period_start b.period_start
    || (a.period_start == b.period_start && leb a.calculated_at b.calculated_at)

-- `evaluated_metric` of a rule
unfoldable pub metric_of : Evaluation → ℕ → AlertRule → Option EvaluatedMetric
unfolding aggregate_dora_metric same
metric_of e repository rule =
    let end = e.evaluation_end in
    let start = end - rule.evaluation_window_minutes * minute in
    if same rule.metric_type (codes "PR_RISK_SCORE")
    then metric_of_prediction start end
        (sort_by is_later (keep (is_predicted_in repository start end) e.predictions))
    else aggregate_dora_metric e.scale rule.metric_type
        (map (λ s. s.snapshot)
          (sort_by is_earlier (keep (overlaps repository rule.metric_type start end) e.snapshots)))
        start end

abbrev pub is_met : AlertRule → EvaluatedMetric → Bool
is_met rule metric = elim (matches rule.comparator metric.actual rule.threshold_value) [
  | ok b ↦ b
  | err e ↦ false
]

-- The body of the loop over the rules.
abbrev pub evaluate :
    Option EvaluatedMetric → Evaluation → ℕ → ℕ → ℕ → AlertRule → AlertState → AlertState
evaluate none e workspace repository job rule s = s
evaluate (some metric) e workspace repository job rule s =
    if is_met rule metric
    then queue_delivery rule.cooldown_minutes
        (delivery_of (e.now rule.id) workspace repository job rule metric) s
    else s

unfoldable pub evaluate_rules : Evaluation → ℕ → ℕ → ℕ → List AlertRule → AlertState → AlertState
evaluate_rules e workspace repository job [] s = s
evaluate_rules e workspace repository job (rule ∷ rules) s =
    evaluate_rules e workspace repository job rules
      (evaluate (metric_of e repository rule) e workspace repository job rule s)

abbrev pub is_evaluated : ℕ → AlertRule → Bool
is_evaluated repository r = r.repository_id == repository && r.enabled

abbrev pub is_created_before : AlertRule → AlertRule → Bool
is_created_before a b = leb a.created_at b.created_at

abbrev pub evaluate_ids : Evaluation → ℕ → Option ℕ → Option ℕ → AlertState → Result AlertState
evaluate_ids e job none workspace s =
    err (permanent_job (codes "Invalid UUID in EVALUATE_ALERTS payload: "))
evaluate_ids e job (some repository) none s =
    err (permanent_job (codes "Invalid UUID in EVALUATE_ALERTS payload: "))
evaluate_ids e job (some repository) (some workspace) s = ok (
    evaluate_rules e workspace repository job
      (sort_by is_created_before (keep (is_evaluated repository) s.rules)) s)

unfoldable pub handle_evaluate_alerts : Evaluation → ℕ → Fields → AlertState → Result AlertState
unfolding evaluate_rules
handle_evaluate_alerts e job payload s =
    let repository =
      or_else (get (codes "repository_id") payload) (get (codes "repositoryId") payload) in
    let workspace =
      or_else (get (codes "workspace_id") payload) (get (codes "workspaceId") payload) in
    if not (is_true repository) || not (is_true workspace)
    then err (
        permanent_job (
          codes "EVALUATE_ALERTS job "
          ++ uuid_text job
          ++ codes " missing repository_id or workspace_id"))
    else evaluate_ids e job (uuid_of repository) (uuid_of workspace) s
