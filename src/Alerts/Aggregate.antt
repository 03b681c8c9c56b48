-- ===== src/Alerts/Aggregate.antt =====
-- `aggregate_dora_metric` and `matches` of app/jobs/handlers/evaluate_alerts.py. A `Decimal` is a whole
-- number of a unit that is small enough for all values of a run, `scale` of which make 1; an aggregate is
-- a fraction of such numbers. Values and thresholds are not negative.
pub mod Window
use adept_engine.Base.{
  ℕ, zero, suc, ◌+◌, ◌*◌, ◌≡◌, refl, Bool, true, false, ◌&&◌, ◌||◌, not, Option, none, some, List,
  [], ◌∷◌, ◌++◌, map, Text, codes, ◌==◌, ltb, leb, if◌then◌else◌, length, count_if, same, is_some,
}
use adept_engine.Jobs.Errors.{Result, ok, err, value_error}
use adept_engine.Risk.Matching.{decimal}
use adept_engine.Values.Uuid.{uuid_text}
use adept_engine.Normalization.Patterns.{strip}
use adept_engine.Alerts.Median.{median}

-- An item of the list of observations, as it is read: one that is no object; or its time (`none` where
-- it does not parse or has no time zone), its value (`none` where it is no finite decimal), and the
-- `str` of its key (`none` where the key is missing).
pub data RawObservation : Type 0 where
  other : RawObservation
  observation : Option ℕ → Option ℕ → Option Text → RawObservation

pub record RawSnapshot : Type 0 where
  pub id : ℕ
  pub period_start : Option ℕ
  pub calculated_at : Option ℕ
  -- `none` where there is no list
  pub observations : Option (List RawObservation)

pub record Fraction : Type 0 where
  pub numerator : ℕ
  pub denominator : ℕ

pub record EvaluatedMetric : Type 0 where
  pub actual : Fraction
  pub source_entity_id : ℕ
  pub observation_count : ℕ
  pub period_start : ℕ
  pub period_end : ℕ

abbrev pub Observations : Type 0
Observations = List (Text × ℕ)

unfoldable pub has_key : Text → Observations → Bool
unfolding same
has_key key [] = false
has_key key ((k, v) ∷ os) = same k key || has_key key os

-- `observations.setdefault(key, value)`
unfoldable pub setdefault : Text → ℕ → Observations → Observations
unfolding has_key
setdefault key value os = if has_key key os then os else os ++ (key, value) ∷ []

-- `str(raw_key).strip()`, or the snapshot's id and the index.
abbrev pub or_index : Text → ℕ → ℕ → Text
or_index [] snapshot index = uuid_text snapshot ++ codes ":" ++ decimal index
or_index (c ∷ key) snapshot index = c ∷ key

abbrev pub key_of : Option Text → ℕ → ℕ → Text
key_of none snapshot index = or_index [] snapshot index
key_of (some key) snapshot index = or_index (strip key) snapshot index

abbrev pub or_default : Option ℕ → ℕ → ℕ
or_default none d = d
or_default (some a) d = a

module _ (window_start window_end : ℕ) where
  -- The body of the loop over the observations of a snapshot.
  unfoldable pub observe : ℕ → ℕ → RawObservation → Observations → Observations
  unfolding setdefault
  observe snapshot index other os = os
  observe snapshot index (observation none value key) os = os
  observe snapshot index (observation (some at) none key) os = os
  observe snapshot index (observation (some at) (some value) key) os =
      if leb window_start at && ltb at window_end
      then setdefault (key_of key snapshot index) value os
      else os

  unfoldable pub observe_list : ℕ → ℕ → List RawObservation → Observations → Observations
  unfolding observe
  observe_list snapshot index [] os = os
  observe_list snapshot index (r ∷ rs) os =
      observe_list snapshot (suc index) rs (observe snapshot index r os)

  abbrev pub observe_snapshot : ℕ → Option (List RawObservation) → Observations → Observations
  observe_snapshot snapshot none os = os
  observe_snapshot snapshot (some rs) os = observe_list snapshot 0 rs os

  unfoldable pub observe_all : List RawSnapshot → Observations → Observations
  unfolding observe_list
  observe_all [] os = os
  observe_all (s ∷ ss) os = observe_all ss (observe_snapshot s.id s.observations os)

  -- The key of `max`: a later snapshot wins only if its key is greater.
  abbrev pub is_newer : RawSnapshot → RawSnapshot → Bool
  is_newer a b =
      ltb (or_default b.period_start window_start) (or_default a.period_start window_start)
      || (or_default a.period_start window_start == or_default b.period_start window_start
          && ltb (or_default b.calculated_at window_start)
              (or_default a.calculated_at window_start))

  abbrev pub newest : RawSnapshot → List RawSnapshot → RawSnapshot
  newest s [] = s
  newest s (t ∷ ts) = newest (if is_newer t s then t else s) ts

abbrev pub whole : ℕ → Fraction
whole n = record { numerator = n; denominator = 1 }

abbrev pub values_of : Observations → List ℕ
values_of os = map (λ (o : Text × ℕ). o.1) os

-- `value >= Decimal("0.5")`
abbrev pub is_failure : ℕ → ℕ → Bool
is_failure scale value = leb scale (2 * value)

abbrev pub unless_empty : List ℕ → Fraction → Option Fraction
unless_empty [] f = none
unless_empty (v ∷ vs) f = some f

-- `actual`, by the type of the metric
unfoldable pub aggregate : ℕ → Text → List ℕ → Option Fraction
unfolding same median
aggregate scale metric_type values =
    if same metric_type (codes "DEPLOYMENT_FREQUENCY")
    then some (whole (scale * length values))
    else if same metric_type (codes "CHANGE_FAILURE_RATE_PERCENT")
    then unless_empty values (record {
      numerator = count_if (is_failure scale) values * (100 * scale);
      denominator = length values;
    })
    else if same metric_type (codes "CHANGE_LEAD_TIME_HOURS")
        || same metric_type (codes "FAILED_DEPLOYMENT_RECOVERY_TIME_HOURS")
    then unless_empty values (record { numerator = median values; denominator = 2 })
    else none

abbrev pub evaluated : ℕ → ℕ → ℕ → ℕ → Option Fraction → Option EvaluatedMetric
evaluated source count window_start window_end none = none
evaluated source count window_start window_end (some actual) = some (record {
  actual = actual;
  source_entity_id = source;
  observation_count = count;
  period_start = window_start;
  period_end = window_end;
})

unfoldable pub aggregate_dora_metric : ℕ → Text → List RawSnapshot → ℕ → ℕ → Option EvaluatedMetric
unfolding aggregate observe_all
aggregate_dora_metric scale metric_type [] window_start window_end = none
aggregate_dora_metric scale metric_type (s ∷ ss) window_start window_end =
    let values = values_of (observe_all window_start window_end (s ∷ ss) []) in
    evaluated (newest window_start window_end s ss).id (length values) window_start window_end
      (aggregate scale metric_type values)

-- `matches`
unfoldable pub matches : Text → Fraction → ℕ → Result Bool
unfolding same
matches comparator actual threshold =
    let a = actual.numerator in
    let t = threshold * actual.denominator in
    if same comparator (codes "GT")
    then ok (ltb t a)
    else if same comparator (codes "GTE")
    then ok (leb t a)
    else if same comparator (codes "LT")
    then ok (ltb a t)
    else if same comparator (codes "LTE")
    then ok (leb a t)
    else if same comparator (codes "EQ")
    then ok (a == t)
    else err (value_error (codes "Unsupported comparator: " ++ comparator))
