-- ===== src/Alerts/Cooldown/Told.antt =====
-- That app/jobs/handlers/evaluate_alerts.py does not miss a rule whose condition is met.
use adept_engine.Base.{
  ℕ, ◌≡◌, refl, sym, ◌∙◌, Bool, true, false, Option, none, some, List, [], ◌∷◌, ◌++◌, map, keep,
  Text, ◌==◌, is_some, arith, All, All-append, Bool-cases, ◌⊎◌, inl, inr, ==_iff, some_inj,
  same_refl, subst,
}
use adept_engine.Base.Among.{Among, Among-keep, Among-append_right}
use adept_engine.Base.Sorting.{sort_by, insert_by}
use adept_engine.Base.Upsert.{first}
use adept_engine.Alerts.Aggregate.{EvaluatedMetric}
use adept_engine.Alerts.Evaluate.{
  AlertRule, Delivery, AlertState, Evaluation, is_rule, in_cooldown, same_event, touch, delivery_of,
  insert_unless, queue_delivery, evaluate_rules, metric_of, is_met, event_key_of, is_evaluated,
  is_created_before,
}
use adept_engine.Alerts.Cooldown.{is_event, queue_keeps}
use adept_engine.Alerts.Cooldown.Runs.{
  Transaction, queue_all, transaction, transactions, evaluate_rules_lem,
}

Among-insert_by :
    (le : AlertRule → AlertRule → Bool) (r x : AlertRule) (xs : List AlertRule)
    → Among r (x ∷ xs)
    → Among r (insert_by le x xs)
Among-insert_by le r x [] m = m
Among-insert_by le r x (y ∷ ys) (inl q) = elim (Bool-cases (le x y)) [
  | inl e ↦ rw e (inl q)
  | inr e ↦ rw e (inr (Among-insert_by le r x ys (inl q)))
]
Among-insert_by le r x (y ∷ ys) (inr (inl q)) = elim (Bool-cases (le x y)) [
  | inl e ↦ rw e (inr (inl q))
  | inr e ↦ rw e (inl q)
]
Among-insert_by le r x (y ∷ ys) (inr (inr m)) = elim (Bool-cases (le x y)) [
  | inl e ↦ rw e (inr (inr m))
  | inr e ↦ rw e (inr (Among-insert_by le r x ys (inr m)))
]

Among-sort_by :
    (le : AlertRule → AlertRule → Bool) (r : AlertRule) (xs : List AlertRule)
    → Among r xs
    → Among r (sort_by le xs)
Among-sort_by le r [] m = m
Among-sort_by le r (x ∷ xs) (inl q) = Among-insert_by le r x (sort_by le xs) (inl q)
Among-sort_by le r (x ∷ xs) (inr m) =
    Among-insert_by le r x (sort_by le xs) (inr (Among-sort_by le r xs m))

first-Among :
    (i : ℕ) (r : AlertRule) (rs : List AlertRule) → first (is_rule i) rs ≡ some r → Among r rs
first-Among i r [] h = absurd (ground arith)
first-Among i r (q ∷ rs) h = elim (Bool-cases (i == q.id)) [
  | inl e ↦ inl (some_inj (rw e at h))
  | inr e ↦ inr (first-Among i r rs (rw e at h))
]

first-touch :
    (now i j : ℕ) (rs : List AlertRule)
    → (i == j) ≡ false
    → first (is_rule i) (map (touch now j) rs) ≡ first (is_rule i) rs
first-touch now i j [] h = refl
first-touch now i j (r ∷ rs) h = elim (Bool-cases (j == r.id)) [
  | inl e ↦ let n : (i == r.id) ≡ false = ground arith in rw (e, n) (first-touch now i j rs h)
  | inr e ↦ elim (Bool-cases (i == r.id)) [
    | inl f ↦ rw (e, f) refl
    | inr f ↦ rw (e, f) (first-touch now i j rs h)
  ]
]

module _ (r : AlertRule) (key : Text) where
  abbrev pub IsTold : AlertState → Type 0
  IsTold s = is_some (first (is_event r.id key) s.deliveries) ≡ true

  -- The event is told already, or the row of the rule is as it was.
  abbrev IsOpen : AlertState → Type 0
  IsOpen s = IsTold s ⊎ (first (is_rule r.id) s.rules ≡ some r)

  stays : (c : ℕ) (d : Delivery) (s : AlertState) → IsTold s → IsTold (queue_delivery c d s)
  stays c d s h =
      queue_keeps IsTold c d s h
        (λ q f e n. elim (Bool-cases (is_event r.id key d)) [ inl k ↦ rw k refl | inr k ↦ rw k h ])

  inserted :
      (d : Delivery) (s : AlertState)
      → d.event_key ≡ key
      → IsOpen s
      → IsOpen (insert_unless none d s)
  inserted d s e h = elim (Bool-cases (r.id == d.alert_rule_id)) [
    | inl k ↦ inl (rw (k, e, same_refl key) refl)
    | inr k ↦ elim h [
      | inl t ↦ inl (rw k t)
      | inr f ↦ inr (first-touch d.created_at r.id d.alert_rule_id s.rules k ∙ f)
    ]
  ]

  opens :
      (c : ℕ) (d : Delivery) (s : AlertState)
      → d.event_key ≡ key
      → IsOpen s
      → IsOpen (queue_delivery c d s)
  opens c d s e h = queue_keeps IsOpen c d s h (λ q f k n. inserted d s e h)

  module _ (c : ℕ) (d : Delivery) where
    -- The rule has its turn: it is enabled, and the transaction is for its event and out of its cooldown.
    abbrev IsTurn : Type 0
    IsTurn =
        ((d.alert_rule_id ≡ r.id) × (d.event_key ≡ key))
        × ((r.enabled ≡ true) × (in_cooldown d.created_at c r.last_triggered_at ≡ false))

    same_event-IsTold :
        IsTurn
        → (o : Option Delivery) (s : AlertState) → first (same_event d) s.deliveries ≡ o
        → IsTold (insert_unless o d s)
    same_event-IsTold t (some old) s f =
        subst (λ i. is_some (first (is_event i key) s.deliveries) ≡ true) t.0.0
          (subst (λ k. is_some (first (is_event d.alert_rule_id k) s.deliveries) ≡ true) t.0.1
            (rw f refl))
    same_event-IsTold t none s f =
        let k : (r.id == d.alert_rule_id) ≡ true = (==_iff r.id d.alert_rule_id).1 (sym t.0.0) in
        rw (k, t.0.1, same_refl key) refl

    queue-IsTold :
        (s : AlertState)
        → IsTurn
        → first (is_rule d.alert_rule_id) s.rules ≡ some r
        → IsTold (queue_delivery c d s)
    unfolding queue_delivery
    queue-IsTold s t found =
        rw found
          (rw (t.1.0, t.1.1) (same_event-IsTold t (first (same_event d) s.deliveries) s refl))

    told : (s : AlertState) → IsTurn → IsOpen s → IsTold (queue_delivery c d s)
    told s t (inl h) = stays c d s h
    told s t (inr f) =
        queue-IsTold s t (subst (λ i. first (is_rule i) s.rules ≡ some r) (sym t.0.0) f)

  all_stay : (xs : List Transaction) (s : AlertState) → IsTold s → IsTold (queue_all xs s)
  all_stay [] s h = h
  all_stay (x ∷ xs) s h = all_stay xs (queue_delivery x.0 x.1 s) (stays x.0 x.1 s h)

  all-IsTold :
      (c : ℕ) (d : Delivery) (xs : List Transaction) (s : AlertState)
      → All (λ x. x.1.event_key ≡ key) xs
      → Among (c, d) xs
      → IsTurn c d
      → IsOpen s
      → IsTold (queue_all xs s)
  all-IsTold c d [] s a m t o = absurd m
  all-IsTold c d (x ∷ xs) s a (inl q) t o =
      subst (λ y. IsTold (queue_all xs (queue_delivery y.0 y.1 s))) (sym q)
        (all_stay xs (queue_delivery c d s) (told c d s t o))
  all-IsTold c d (x ∷ xs) s a (inr m) t o =
      all-IsTold c d xs (queue_delivery x.0 x.1 s) a.1 m t (opens x.0 x.1 s a.0 o)

-- The rules that a job evaluates, the oldest first.
abbrev pub evaluated : ℕ → AlertState → List AlertRule
evaluated repository s = sort_by is_created_before (keep (is_evaluated repository) s.rules)

module _ (e : Evaluation) (workspace repository job : ℕ) where
  one_event :
      (rules : List AlertRule)
      → All (λ x. x.1.event_key ≡ event_key_of job) (transactions e workspace repository job rules)
  one_event [] = tt
  one_event (rule ∷ rules) =
      All-append _ (transaction e workspace repository job (metric_of e repository rule) rule)
        (transactions e workspace repository job rules) (one (metric_of e repository rule))
        (one_event rules)
    where
      one :
          (o : Option EvaluatedMetric)
          → All
              (λ x. x.1.event_key ≡ event_key_of job)
              (transaction e workspace repository job o rule)
      one none = tt
      one (some metric) = elim (Bool-cases (is_met rule metric)) [
        | inl k ↦ rw k (refl, tt)
        | inr k ↦ rw k tt
      ]

  module _ (r : AlertRule) (metric : EvaluatedMetric) where
    abbrev own : Transaction
    own = (r.cooldown_minutes, delivery_of (e.now r.id) workspace repository job r metric)

    has_transaction :
        (rules : List AlertRule)
        → Among r rules
        → metric_of e repository r ≡ some metric
        → is_met r metric ≡ true
        → Among own (transactions e workspace repository job rules)
    has_transaction [] m f h = absurd m
    has_transaction (rule ∷ rules) (inl q) f h =
        subst
          (λ x. Among own (
            transaction e workspace repository job (metric_of e repository x) x
            ++ transactions e workspace repository job rules))
          (sym q) (rw (f, h) (inl refl))
    has_transaction (rule ∷ rules) (inr m) f h =
        Among-append_right own
          (transaction e workspace repository job (metric_of e repository rule) rule)
          (transactions e workspace repository job rules) (has_transaction rules m f h)

    -- A job tells of every enabled rule of its repository whose condition is met, unless the rule is
    -- in its cooldown at the time of its transaction: then there is a delivery of the rule for the job,
    -- whatever the other rules do.
    pub evaluate_rules-IsTold :
        (s : AlertState)
        → first (is_rule r.id) s.rules ≡ some r
        → r.repository_id ≡ repository
        → r.enabled ≡ true
        → metric_of e repository r ≡ some metric
        → is_met r metric ≡ true
        → in_cooldown (e.now r.id) r.cooldown_minutes r.last_triggered_at ≡ false
        → IsTold r
            (event_key_of job)
            (evaluate_rules e workspace repository job (evaluated repository s) s)
    evaluate_rules-IsTold s row own_repository on f h out =
        let k : is_evaluated repository r ≡ true = rw on (ground arith) in
        let listed =
          Among-sort_by is_created_before r (keep (is_evaluated repository) s.rules)
            (Among-keep (is_evaluated repository) r s.rules (first-Among r.id r s.rules row) k) in
        rw (evaluate_rules_lem e workspace repository job (evaluated repository s) s) (
          all-IsTold r (event_key_of job) own.0 own.1
            (transactions e workspace repository job (evaluated repository s)) s
            (one_event (evaluated repository s))
            (has_transaction (evaluated repository s) listed f h) ((refl, refl), (on, out))
            (inr row))
