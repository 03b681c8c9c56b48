-- ===== src/Alerts/Median.antt =====
-- `_median` of app/jobs/handlers/evaluate_alerts.py, which aggregates the observations of a window.
use adept_engine.Base.{ℕ, ◌+◌, ◌-◌, ◌*◌, ◌/◌, ◌%◌, List, ◌==◌, if◌then◌else◌, length}
use adept_engine.Metrics.Percentiles.{at, sorted}

-- Twice the middle of values in order, which keeps the mean of two whole.
abbrev pub doubled_middle : List ℕ → ℕ
doubled_middle ordered =
    let midpoint = length ordered / 2 in
    if length ordered % 2 == 1
    then 2 * at ordered midpoint
    else at ordered (midpoint - 1) + at ordered midpoint

-- Twice the median.
unfoldable pub median : List ℕ → ℕ
median values = doubled_middle (sorted values)
