-- ===== src/Metrics/Calendar.antt =====
-- The proleptic Gregorian calendar of Python's `datetime`. A day is the number of days since
-- 0001-01-01, a Monday; a month is the number of months since January of the year 1.
use native.Mathlib.Decide.{dec_lt}
use adept_engine.Base.{
  ℕ, zero, suc, ◌+◌, ◌-◌, ◌*◌, ◌/◌, ◌%◌, ◌≡◌, ◌≤◌, ◌<◌, refl, Bool, true, false, ◌&&◌, ◌||◌, not,
  arith, leb, ◌==◌, if◌then◌else◌, ◌⊎◌, inl, inr, Bool-cases, leb→le,
}

-- The year that follows `y` whole years is a leap year.
abbrev is_leap : ℕ → Bool
is_leap y = (y + 1) % 4 == 0 && (not ((y + 1) % 100 == 0) || (y + 1) % 400 == 0)

abbrev days_before_year : ℕ → ℕ
days_before_year y = 365 * y + y / 4 - y / 100 + y / 400

-- Days of a common year before its month `k`, from 0.
abbrev days_before_month : ℕ → ℕ
days_before_month k =
    if k == 0
    then 0
    else if k == 1
    then 31
    else if k == 2
    then 59
    else if k == 3
    then 90
    else if k == 4
    then 120
    else if k == 5
    then 151
    else if k == 6
    then 181
    else if k == 7
    then 212
    else if k == 8
    then 243
    else if k == 9
    then 273
    else if k == 10
    then 304
    else 334

abbrev leap_day : ℕ → ℕ → ℕ
leap_day y k = if leb 2 k && is_leap y then 1 else 0

-- The first day of a month.
unfoldable pub first_day : ℕ → ℕ
first_day m = days_before_year (m / 12) + days_before_month (m % 12) + leap_day (m / 12) (m % 12)

-- The last month from `m` on, and within `fuel` of it, that has begun on the day.
unfoldable pub month_from : ℕ → ℕ → ℕ → ℕ
month_from zero m day = m
month_from (suc fuel) m day = elim (leb (first_day (suc m)) day) [
  | true ↦ month_from fuel (suc m) day
  | false ↦ m
]

-- The month that a day lies in; no month has more than 31 days.
unfoldable pub month_of : ℕ → ℕ
unfolding month_from
month_of day = month_from day (day / 31) day

epoch : first_day 23_628 ≡ 719_162
unfolding first_day
epoch = refl

leap_year : month_of 738_944 ≡ 24_277
unfolding month_of first_day
leap_year = refl

-- Two months of a year.
later_month :
    (y k : ℕ)
    → k < 11
    → days_before_month k + leap_day y k < days_before_month (suc k) + leap_day y (suc k)
later_month y k h = ground arith

last_month : (y : ℕ) → days_before_year y + 335 < days_before_year (suc y)
last_month y = omega arith

december : (y : ℕ) → days_before_month 11 + leap_day y 11 ≤ 335
december y = ground arith

month_cases :
    (m : ℕ)
    → ((suc m / 12 ≡ m / 12) × (suc m % 12 ≡ suc (m % 12)) × (m % 12 < 11))
      ⊎ ((suc m / 12 ≡ suc (m / 12)) × (suc m % 12 ≡ 0) × (m % 12 ≡ 11))
month_cases m = elim (dec_lt (m % 12) 11) [
  | yes h ↦ inl (omega arith, omega arith, h)
  | no h ↦ inr (omega arith, omega arith, omega arith)
]

-- Months follow one another.
pub first_day-lt : (m : ℕ) → first_day m < first_day (suc m)
unfolding first_day
first_day-lt m = elim (month_cases m) [
  | inl c ↦ rw (c.0, c.1) (omega (arith, later_month (m / 12) (m % 12) c.2))
  | inr c ↦ rw (c.0, c.1, c.2) (omega (arith, last_month (m / 12), december (m / 12)))
]

month_from-le : (fuel m day : ℕ) → first_day m ≤ day → first_day (month_from fuel m day) ≤ day
unfolding month_from
month_from-le zero m day h = h
month_from-le (suc fuel) m day h = elim (Bool-cases (leb (first_day (suc m)) day)) [
  | inl e ↦ rw (e, month_from) (month_from-le fuel (suc m) day (leb→le (first_day (suc m)) day e))
  | inr e ↦ rw (e, month_from) h
]

early_month : (y k : ℕ) → k < 12 → days_before_month k + leap_day y k ≤ 31 * k
early_month y k h = ground arith

early_year : (y : ℕ) → days_before_year y ≤ 372 * y
early_year y = omega arith

-- A month starts no later than if every month before it had 31 days.
first_day-le : (m : ℕ) → first_day m ≤ 31 * m
unfolding first_day
first_day-le m = omega (arith, early_year (m / 12), early_month (m / 12) (m % 12) (omega arith))

-- The day's month has begun on it.
pub month_of-le : (day : ℕ) → first_day (month_of day) ≤ day
unfolding month_of
month_of-le day = month_from-le day (day / 31) day (omega (arith, first_day-le (day / 31)))

first_day-ge : (m : ℕ) → m ≤ first_day m
first_day-ge zero = omega arith
first_day-ge (suc m) = omega (arith, first_day-ge m, first_day-lt m)

month_from-lt : (fuel m day : ℕ) → day ≤ fuel + m → day < first_day (suc (month_from fuel m day))
unfolding month_from
month_from-lt zero m day h = omega (arith, first_day-ge (suc m))
month_from-lt (suc fuel) m day h = elim (Bool-cases (leb (first_day (suc m)) day)) [
  | inl e ↦ rw (e, month_from) (month_from-lt fuel (suc m) day (omega arith))
  | inr e ↦ rw (e, month_from) (ground (arith, e))
]

-- The month after it has not.
pub month_of-lt : (day : ℕ) → day < first_day (suc (month_of day))
unfolding month_of
month_of-lt day = month_from-lt day (day / 31) day (omega arith)

month_length :
    (y k : ℕ)
    → k < 11
    → days_before_month (suc k) + leap_day y (suc k) ≤ days_before_month k + leap_day y k + 31
month_length y k h = ground arith

last_month_length : (y : ℕ) → days_before_year (suc y) ≤ days_before_year y + leap_day y 11 + 365
last_month_length y = ground arith

-- No month is longer than 31 days.
pub first_day-suc_le : (m : ℕ) → first_day (suc m) ≤ first_day m + 31
unfolding first_day
first_day-suc_le m = elim (month_cases m) [
  | inl c ↦ rw (c.0, c.1) (omega (arith, month_length (m / 12) (m % 12) c.2))
  | inr c ↦ rw (c.0, c.1, c.2) (omega (arith, last_month_length (m / 12)))
]
