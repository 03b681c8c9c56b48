-- ===== src/Alerts/Cooldown/Runs.antt =====
-- The jobs of app/jobs/handlers/evaluate_alerts.py as sequences of transactions.
use adept_engine.Base.{
  ℕ, ◌≡◌, refl, sym, ◌∙◌, true, ◌||◌, not, Option, none, some, List, [], ◌∷◌, ◌++◌, keep, Text,
  codes, if◌then◌else◌, All, All-append, Bool-cases, inl, inr,
}
use adept_engine.Base.Among.{All-keep}
use adept_engine.Base.Sorting.{sort_by, All-sort_by}
use adept_engine.Alerts.Aggregate.{EvaluatedMetric}
use adept_engine.Alerts.Evaluate.{
  AlertRule, Delivery, AlertState, Evaluation, delivery_of, queue_delivery, evaluate,
  evaluate_rules, metric_of, is_met, is_evaluated, is_created_before, evaluate_ids,
  handle_evaluate_alerts,
}
use adept_engine.Values.Json.{Fields, get, or_else, is_true}
use adept_engine.Values.Uuid.{uuid_of}
use adept_engine.Jobs.Errors.{Result, ok, err}
use adept_engine.Alerts.Cooldown.{
  IsCalm, IsOnce, agrees, queue_delivery-IsCalm, queue_delivery-IsOnce,
}

-- A cooldown, as a worker read it, and the delivery that it wants to queue.
abbrev pub Transaction : Type 0
Transaction = ℕ × Delivery

-- Transactions of any workers, one after the other.
abbrev pub queue_all : List Transaction → AlertState → AlertState
queue_all [] s = s
queue_all (x ∷ xs) s = queue_all xs (queue_delivery x.0 x.1 s)

abbrev pub AllAgree : ℕ → ℕ → List Transaction → Type 0
AllAgree i cooldown xs = All (λ x. agrees i cooldown x.1.alert_rule_id x.0 ≡ true) xs

-- Whatever workers queue deliveries, and in whatever order: as long as they go by the same cooldown
-- of rule `i`, a state in which its deliveries are spaced by the cooldown and none is after
-- `last_triggered_at` leads to such a state again; and where a job has queued at most one delivery for
-- a rule, it never has two.
pub queue_all-IsCalm :
    (i cooldown : ℕ) (key : Text) (xs : List Transaction) (s : AlertState)
    → AllAgree i cooldown xs
    → IsCalm i cooldown s
    → IsOnce i key s
    → IsCalm i cooldown (queue_all xs s) × IsOnce i key (queue_all xs s)
queue_all-IsCalm i cooldown key [] s a h o = (h, o)
queue_all-IsCalm i cooldown key (x ∷ xs) s a h o =
    queue_all-IsCalm i cooldown key xs (queue_delivery x.0 x.1 s) a.1
      (queue_delivery-IsCalm i cooldown x.0 x.1 s a.0 h) (queue_delivery-IsOnce i key x.0 x.1 s o)

abbrev pub HasCooldown : ℕ → ℕ → AlertRule → Type 0
HasCooldown i cooldown rule = agrees i cooldown rule.id rule.cooldown_minutes ≡ true

module _ (e : Evaluation) (workspace repository job : ℕ) where
  abbrev pub transaction : Option EvaluatedMetric → AlertRule → List Transaction
  transaction none rule = []
  transaction (some metric) rule =
      if is_met rule metric
      then (rule.cooldown_minutes, delivery_of (e.now rule.id) workspace repository job rule metric)
        ∷ []
      else []

  abbrev pub transactions : List AlertRule → List Transaction
  transactions [] = []
  transactions (rule ∷ rules) = transaction (metric_of e repository rule) rule ++ transactions rules

  agree :
      (i cooldown : ℕ) (rules : List AlertRule)
      → All (HasCooldown i cooldown) rules
      → AllAgree i cooldown (transactions rules)
  agree i cooldown [] h = tt
  agree i cooldown (rule ∷ rules) h =
      All-append _ (transaction (metric_of e repository rule) rule) (transactions rules)
        (one (metric_of e repository rule)) (agree i cooldown rules h.1)
    where
      one : (o : Option EvaluatedMetric) → AllAgree i cooldown (transaction o rule)
      one none = tt
      one (some metric) = elim (Bool-cases (is_met rule metric)) [
        | inl k ↦ rw k (h.0, tt)
        | inr k ↦ rw k tt
      ]

  step_first :
      (o : Option EvaluatedMetric) (rule : AlertRule) (xs : List Transaction) (s : AlertState)
      → queue_all (transaction o rule ++ xs) s
        ≡ queue_all xs (evaluate o e workspace repository job rule s)
  step_first none rule xs s = refl
  step_first (some metric) rule xs s = elim (Bool-cases (is_met rule metric)) [
    | inl k ↦ rw k refl
    | inr k ↦ rw k refl
  ]

  -- The loop over the rules is a sequence of transactions that the state does not decide.
  pub evaluate_rules_lem :
      (rules : List AlertRule) (s : AlertState)
      → evaluate_rules e workspace repository job rules s ≡ queue_all (transactions rules) s
  unfolding evaluate_rules
  evaluate_rules_lem [] s = refl
  evaluate_rules_lem (rule ∷ rules) s =
      evaluate_rules_lem rules _
      ∙ sym (step_first (metric_of e repository rule) rule (transactions rules) s)

-- What a job leaves, if it does not fail.
abbrev pub KeepsCalm : ℕ → ℕ → Text → Result AlertState → Type 0
KeepsCalm i cooldown key (err e) = Unit
KeepsCalm i cooldown key (ok s) = IsCalm i cooldown s × IsOnce i key s

ids-KeepsCalm :
    (e : Evaluation) (job i cooldown : ℕ) (key : Text) (repository workspace : Option ℕ)
    (s : AlertState)
    → All (HasCooldown i cooldown) s.rules
    → IsCalm i cooldown s
    → IsOnce i key s
    → KeepsCalm i cooldown key (evaluate_ids e job repository workspace s)
ids-KeepsCalm e job i cooldown key none workspace s a h o = tt
ids-KeepsCalm e job i cooldown key (some r) none s a h o = tt
ids-KeepsCalm e job i cooldown key (some r) (some w) s a h o =
    let rules = sort_by is_created_before (keep (is_evaluated r) s.rules) in
    let calm =
      queue_all-IsCalm i cooldown key (transactions e w r job rules) s
        (agree e w r job i cooldown rules
          (All-sort_by is_created_before _ _ (All-keep _ (is_evaluated r) s.rules a)))
        h o in
    rw (evaluate_rules_lem e w r job rules s) calm

-- A job that evaluates alerts keeps the deliveries of rule `i` spaced by its cooldown, and of each
-- event at most one, whatever its payload, its snapshots and the other rules.
pub handle_evaluate_alerts-KeepsCalm :
    (e : Evaluation) (job : ℕ) (payload : Fields) (i cooldown : ℕ) (key : Text) (s : AlertState)
    → All (HasCooldown i cooldown) s.rules
    → IsCalm i cooldown s
    → IsOnce i key s
    → KeepsCalm i cooldown key (handle_evaluate_alerts e job payload s)
unfolding handle_evaluate_alerts
handle_evaluate_alerts-KeepsCalm e job payload i cooldown key s a h o =
    let repository =
      or_else (get (codes "repository_id") payload) (get (codes "repositoryId") payload) in
    let workspace =
      or_else (get (codes "workspace_id") payload) (get (codes "workspaceId") payload) in
    elim (Bool-cases (not (is_true repository) || not (is_true workspace))) [
      | inl k ↦ rw k tt
      | inr k ↦
          rw k (ids-KeepsCalm e job i cooldown key (uuid_of repository) (uuid_of workspace) s a h o)
    ]
