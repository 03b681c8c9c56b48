-- ===== src/Alerts/Cooldown.antt =====
-- What a transaction of app/jobs/handlers/evaluate_alerts.py keeps of the deliveries.
pub mod Runs
pub mod Told
use adept_engine.Base.{
  ℕ, ◌+◌, ◌*◌, ◌≡◌, ◌≤◌, refl, sym, ap, ◌∙◌, Bool, true, false, ◌&&◌, ◌||◌, not, Option, none, some,
  List, [], ◌∷◌, ◌++◌, map, keep, Text, codes, ◌==◌, ltb, leb, if◌then◌else◌, same, count_if, arith,
  All, All-append, Bool-cases, inl, inr, ==_iff, &&-true, not-true, same_iff, same_refl, subst,
}
use adept_engine.Base.Among.{All-keep}
use adept_engine.Base.Sorting.{sort_by, All-sort_by}
use adept_engine.Base.Upsert.{first}
use adept_engine.Alerts.Aggregate.{EvaluatedMetric}
use adept_engine.Alerts.Evaluate.{
  AlertRule, Delivery, AlertState, Evaluation, minute, is_rule, in_cooldown, same_event, touch,
  delivery_of, insert_unless, queue_if, queue_delivery, evaluate, evaluate_rules, metric_of, is_met,
  event_key_of, is_evaluated, is_created_before, evaluate_ids, handle_evaluate_alerts,
}
use adept_engine.Values.Json.{Fields, get, or_else, is_true}
use adept_engine.Values.Uuid.{uuid_of}
use adept_engine.Jobs.Errors.{Result, ok, err}

-- Deliveries, newest first, the newest at least `gap` before `t`.
abbrev pub IsSpacedFrom : ℕ → ℕ → List Delivery → Type 0
IsSpacedFrom gap t [] = Unit
IsSpacedFrom gap t (d ∷ ds) = (d.created_at + gap ≤ t) × IsSpacedFrom gap d.created_at ds

-- The same after a rule that was last triggered at `last`.
abbrev pub IsSpaced : ℕ → Option ℕ → List Delivery → Type 0
IsSpaced gap last [] = Unit
IsSpaced gap none (d ∷ ds) = ⊥
IsSpaced gap (some t) (d ∷ ds) = (d.created_at ≤ t) × IsSpacedFrom gap d.created_at ds

abbrev pub last_of : Option AlertRule → Option ℕ
last_of none = none
last_of (some r) = r.last_triggered_at

abbrev pub is_delivery : ℕ → Delivery → Bool
is_delivery i d = i == d.alert_rule_id

abbrev pub is_event : ℕ → Text → Delivery → Bool
is_event i key d = i == d.alert_rule_id && same key d.event_key

-- The deliveries of rule `i` are spaced by its cooldown, and none of them has the key of another.
abbrev pub IsCalm : ℕ → ℕ → AlertState → Type 0
IsCalm i cooldown s =
    IsSpaced (cooldown * minute) (last_of (first (is_rule i) s.rules))
      (keep (is_delivery i) s.deliveries)

abbrev pub IsOnce : ℕ → Text → AlertState → Type 0
IsOnce i key s = count_if (is_event i key) s.deliveries ≤ 1

spaced_more :
    (gap now : ℕ) (last : Option ℕ) (ds : List Delivery) (cooldown : ℕ)
    → gap ≡ cooldown * minute
    → in_cooldown now cooldown last ≡ false
    → IsSpaced gap last ds
    → IsSpacedFrom gap now ds
spaced_more gap now last [] c e h s = tt
spaced_more gap now none (d ∷ ds) c e h s = absurd s
spaced_more gap now (some t) (d ∷ ds) c e h s = (ground arith, s.1)

last-touch :
    (now i j : ℕ) (rs : List AlertRule)
    → (i == j) ≡ false
    → last_of (first (is_rule i) (map (touch now j) rs)) ≡ last_of (first (is_rule i) rs)
last-touch now i j [] h = refl
last-touch now i j (r ∷ rs) h = elim (Bool-cases (j == r.id)) [
  | inl e ↦ let n : (i == r.id) ≡ false = ground arith in rw (e, n) (last-touch now i j rs h)
  | inr e ↦ elim (Bool-cases (i == r.id)) [
    | inl f ↦ rw (e, f) refl
    | inr f ↦ rw (e, f) (last-touch now i j rs h)
  ]
]

last-touch_own :
    (now i : ℕ) (rs : List AlertRule) (r : AlertRule)
    → first (is_rule i) rs ≡ some r
    → last_of (first (is_rule i) (map (touch now i) rs)) ≡ some now
last-touch_own now i [] r h = absurd (ground arith)
last-touch_own now i (q ∷ rs) r h = elim (Bool-cases (i == q.id)) [
  | inl e ↦ rw (e, e) refl
  | inr e ↦ rw (e, e) (last-touch_own now i rs r (rw e at h))
]

none_counted :
    (i : ℕ) (key : Text) (ds : List Delivery)
    → first (is_event i key) ds ≡ none
    → count_if (is_event i key) ds ≡ 0
none_counted i key [] h = refl
none_counted i key (d ∷ ds) h = elim (Bool-cases (is_event i key d)) [
  | inl e ↦ absurd (ground arith)
  | inr e ↦ rw e (omega (arith, none_counted i key ds (rw e at h)))
]

-- A rule that the query finds, out of its cooldown, and no delivery of the event: what is left then
-- and in every other case.
pub queue_keeps :
    (P : AlertState → Type 0) (cooldown : ℕ) (d : Delivery) (s : AlertState)
    → P s
    → ((r : AlertRule)
        → first (is_rule d.alert_rule_id) s.rules ≡ some r
        → in_cooldown d.created_at cooldown r.last_triggered_at ≡ false
        → first (same_event d) s.deliveries ≡ none
        → P (insert_unless none d s))
    → P (queue_delivery cooldown d s)
unfolding queue_delivery
queue_keeps P cooldown d s p step = found (first (is_rule d.alert_rule_id) s.rules) refl
  where
    queued :
        (o : Option Delivery) (r : AlertRule)
        → first (same_event d) s.deliveries ≡ o
        → first (is_rule d.alert_rule_id) s.rules ≡ some r
        → in_cooldown d.created_at cooldown r.last_triggered_at ≡ false
        → P (insert_unless o d s)
    queued none r e f c = step r f c e
    queued (some old) r e f c = p

    chosen :
        (b : Bool) (r : AlertRule)
        → (r.enabled && not (in_cooldown d.created_at cooldown r.last_triggered_at)) ≡ b
        → first (is_rule d.alert_rule_id) s.rules ≡ some r
        → P (if b then insert_unless (first (same_event d) s.deliveries) d s else s)
    chosen false r e f = p
    chosen true r e f =
        queued (first (same_event d) s.deliveries) r refl f (not-true _ (&&-true r.enabled _ e).1)

    found :
        (o : Option AlertRule)
        → first (is_rule d.alert_rule_id) s.rules ≡ o
        → P (queue_if o d.created_at cooldown d s)
    found none e = p
    found (some r) e = chosen _ r refl e

-- The cooldown is that of rule `i`, should the transaction be for it.
abbrev pub agrees : ℕ → ℕ → ℕ → ℕ → Bool
agrees i cooldown j c = not (i == j) || c == cooldown

own_spaced :
    (cooldown : ℕ) (d : Delivery) (s : AlertState) (r : AlertRule)
    → first (is_rule d.alert_rule_id) s.rules ≡ some r
    → in_cooldown d.created_at cooldown r.last_triggered_at ≡ false
    → IsCalm d.alert_rule_id cooldown s
    → IsCalm d.alert_rule_id cooldown (insert_unless none d s)
own_spaced cooldown d s r f q h =
    let own : (d.alert_rule_id == d.alert_rule_id) ≡ true = ground arith in
    let spaced =
      spaced_more (cooldown * minute) d.created_at r.last_triggered_at
        (keep (is_delivery d.alert_rule_id) s.deliveries) cooldown refl q (rw f at h) in
    rw (own, last-touch_own d.created_at d.alert_rule_id s.rules r f) (omega arith, spaced)

pub queue_delivery-IsCalm :
    (i cooldown c : ℕ) (d : Delivery) (s : AlertState)
    → agrees i cooldown d.alert_rule_id c ≡ true
    → IsCalm i cooldown s
    → IsCalm i cooldown (queue_delivery c d s)
queue_delivery-IsCalm i cooldown c d s a h = queue_keeps (IsCalm i cooldown) c d s h (λ r f q e.
    elim (Bool-cases (i == d.alert_rule_id)) [
      | inl k ↦
          let m = (==_iff i d.alert_rule_id).0 k in
          let w = (==_iff c cooldown).0 (ground (arith, a, k)) in
          subst (λ j. IsCalm j cooldown s → IsCalm j cooldown (insert_unless none d s)) (sym m)
            (own_spaced cooldown d s r f
              (subst (λ g. in_cooldown d.created_at g r.last_triggered_at ≡ false) w q))
            h
      | inr k ↦ rw (k, last-touch d.created_at i d.alert_rule_id s.rules k) h
    ])

own-IsOnce :
    (d : Delivery) (s : AlertState)
    → first (same_event d) s.deliveries ≡ none
    → IsOnce d.alert_rule_id d.event_key (insert_unless none d s)
own-IsOnce d s e =
    let own : (d.alert_rule_id == d.alert_rule_id) ≡ true = ground arith in
    rw (own, same_refl d.event_key)
      (omega (arith, none_counted d.alert_rule_id d.event_key s.deliveries e))

own_event :
    (d : Delivery) (s : AlertState)
    → first (same_event d) s.deliveries ≡ none
    → (i : ℕ) (key : Text) → i ≡ d.alert_rule_id
    → key ≡ d.event_key
    → IsOnce i key (insert_unless none d s)
own_event d s e i key m w =
    subst (λ j. IsOnce j key (insert_unless none d s)) (sym m)
      (subst (λ k. IsOnce d.alert_rule_id k (insert_unless none d s)) (sym w) (own-IsOnce d s e))

pub queue_delivery-IsOnce :
    (i : ℕ) (key : Text) (c : ℕ) (d : Delivery) (s : AlertState)
    → IsOnce i key s
    → IsOnce i key (queue_delivery c d s)
queue_delivery-IsOnce i key c d s h = queue_keeps (IsOnce i key) c d s h (λ r f q e.
    elim (Bool-cases (is_event i key d)) [
      | inl k ↦
          let (m, w) = &&-true (i == d.alert_rule_id) _ k in
          own_event d s e i key ((==_iff i d.alert_rule_id).0 m) ((same_iff key d.event_key).0 w)
      | inr k ↦ rw k (omega arith)
    ])
