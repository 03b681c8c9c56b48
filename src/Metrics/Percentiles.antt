-- ===== src/Metrics/Percentiles.antt =====
-- `compute_percentiles` of app/metrics/calculator.py, in exact arithmetic. A value is a whole number
-- of `1 / unit`-th parts, so an interpolated percentile is a whole number of hundredths of those, and
-- a result is a whole number of hundredths, as `round(_, 2)` leaves it. (The program's doubles can
-- differ from this in their last bits, and so at a tie.)
use adept_engine.Base.{
  ℕ, zero, suc, ◌+◌, ◌-◌, ◌*◌, ◌/◌, ◌%◌, ◌≡◌, refl, Option, none, some, List, [], ◌∷◌, leb, ◌==◌,
  if◌then◌else◌, length, min,
}
use adept_engine.Base.Sorting.{sort_by}
use adept_engine.Metrics.Rounding.{round_div}

-- `values[i]`, for an index in range.
abbrev pub at : List ℕ → ℕ → ℕ
at [] i = 0
at (v ∷ vs) zero = v
at (v ∷ vs) (suc i) = at vs i

abbrev pub sum : List ℕ → ℕ
sum [] = 0
sum (v ∷ vs) = v + sum vs

abbrev pub sorted : List ℕ → List ℕ
sorted = sort_by leb

-- `_percentile(p / 100)`, in hundredths: the rank is `p * (n - 1) / 100`, the weight its remainder.
unfoldable pub percentile : ℕ → List ℕ → ℕ
percentile p values =
    let n = length values in
    if n == 1
    then 100 * at values 0
    else (let lower = p * (n - 1) / 100 in
        let upper = min (lower + 1) (n - 1) in
        let weight = p * (n - 1) % 100 in
        at values lower * (100 - weight) + at values upper * weight)

pub record Percentiles : Type 0 where
  pub mean : ℕ
  pub p50 : ℕ
  pub p75 : ℕ
  pub p90 : ℕ

abbrev pub summary : ℕ → List ℕ → Percentiles
summary unit vs = record {
  mean = round_div (100 * sum vs) (length vs * unit);
  p50 = round_div (percentile 50 vs) unit;
  p75 = round_div (percentile 75 vs) unit;
  p90 = round_div (percentile 90 vs) unit;
}

-- The empty dict of an empty list is `none`.
unfoldable pub compute_percentiles : ℕ → List ℕ → Option Percentiles
unfolding percentile round_div
compute_percentiles unit [] = none
compute_percentiles unit (v ∷ vs) = some (summary unit (sorted (v ∷ vs)))

four_values :
    compute_percentiles 1 (4 ∷ 1 ∷ 3 ∷ 2 ∷ [])
    ≡ some (record { mean = 250; p50 = 250; p75 = 325; p90 = 370 })
unfolding compute_percentiles
four_values = refl
