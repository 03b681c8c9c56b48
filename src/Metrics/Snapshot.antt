-- ===== src/Metrics/Snapshot.antt =====
-- `MetricSnapshotResult` of app/metrics/calculator.py, and what the calculations share. An instant is
-- a number of microseconds, a value a number of hundredths.
use adept_engine.Base.{
  ℕ, ◌-◌, Bool, false, ◌&&◌, Option, none, some, List, [], ◌∷◌, map, Text, codes, leb, ltb,
  if◌then◌else◌, same,
}

pub record MetricSnapshotResult (D : Type 0) : Type 0 where
  pub metric_type : Text
  pub granularity : Text
  pub period_start : ℕ
  pub period_end : ℕ
  pub value : ℕ
  pub unit : Text
  pub sample_size : ℕ
  pub calculation_version : Text
  pub dimensions : D

-- `{"key": ..., "at": ..., "value": ...}`
pub record Observation : Type 0 where
  pub key : Text
  pub at : ℕ
  pub value : ℕ

abbrev pub calculation_version : Text
calculation_version = codes "dora-v3"

abbrev pub upper_char : ℕ → ℕ
upper_char c = if leb 97 c && leb c 122 then c - 32 else c

-- `granularity.upper()`; the names of granularities are ASCII.
abbrev pub upper : Text → Text
upper [] = []
upper (c ∷ cs) = upper_char c ∷ upper cs

-- `period_start <= at < period_end`
abbrev pub in_period : ℕ → ℕ → ℕ → Bool
in_period period_start period_end at = leb period_start at && ltb at period_end

-- `status == text`
abbrev pub is_status : Option Text → Text → Bool
is_status none text = false
is_status (some s) text = same s text

abbrev pub or_option : Option ℕ → Option ℕ → Option ℕ
or_option none b = b
or_option (some a) b = some a

abbrev pub values : List Observation → List ℕ
values observations = map (λ (o : Observation). o.value) observations

-- Microseconds in an hour.
abbrev pub hour : ℕ
hour = 3_600_000_000
