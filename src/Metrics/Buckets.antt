-- ===== src/Metrics/Buckets.antt =====
-- `get_period_buckets` and `get_recalculation_buckets` of app/metrics/calculator.py. An instant is a
-- number of microseconds of UTC since 0001-01-01. The zone database is a parameter: `day_of` is the
-- local date of an instant and `midnight` the instant at which a local date begins, each date a
-- number of days since 0001-01-01.
pub mod Loop
pub mod Cover
pub mod Recalculation
pub mod Index
pub mod Preceding
use adept_engine.Base.{
  ℕ, zero, suc, ◌+◌, ◌-◌, ◌*◌, ◌/◌, ◌%◌, ◌≡◌, ◌≤◌, ◌<◌, refl, Bool, true, false, ◌&&◌, ◌||◌, Option,
  none, some, List, [], ◌∷◌, ◌++◌, Text, codes, same, arith, leb, ltb, ◌==◌, if◌then◌else◌, length,
  take, drop,
}
use adept_engine.Jobs.Errors.{JobError, Result, ok, err, ◌>>=◌, value_error, overflow_error}
use adept_engine.Metrics.Snapshot.{upper}
use adept_engine.Metrics.Calendar.{first_day, month_of}

pub record Zone : Type 0 where
  pub day_of : ℕ → ℕ
  pub midnight : ℕ → ℕ

pub data Granularity : Type 0 where
  day week month : Granularity

-- The three names that the program knows.
unfoldable pub granularity_of : Text → Option Granularity
unfolding same
granularity_of name =
    if same name (codes "DAY")
    then some Granularity.day
    else if same name (codes "WEEK")
    then some Granularity.week
    else if same name (codes "MONTH")
    then some Granularity.month
    else none

-- The period that a local date lies in, counted from the one of 0001-01-01.
abbrev pub period_of : Granularity → ℕ → ℕ
period_of Granularity.day date = date
period_of Granularity.week date = date / 7
period_of Granularity.month date = month_of date

-- The first date of a period.
abbrev pub first_date : Granularity → ℕ → ℕ
first_date Granularity.day i = i
first_date Granularity.week i = 7 * i
first_date Granularity.month i = first_day i

abbrev pub Bucket : Type 0
Bucket = ℕ × ℕ

-- The last period that begins before the year 10000.
abbrev pub last_period : Granularity → ℕ
last_period Granularity.day = 3_652_058
last_period Granularity.week = 521_722
last_period Granularity.month = 119_987

-- What the step past it raises: `timedelta` an `OverflowError`, the constructor a `ValueError`.
abbrev pub past_the_end : Granularity → JobError
past_the_end Granularity.day = overflow_error (codes "date value out of range")
past_the_end Granularity.week = overflow_error (codes "date value out of range")
past_the_end Granularity.month = value_error (codes "year 10000 is out of range")

-- The `while` loop, from the period `i` on, with the number of periods that are left after it:
-- `starts` gives the instants at which periods begin, and `e` is raised by the step past the last one.
unfoldable pub buckets_from : ℕ → JobError → (ℕ → ℕ) → ℕ → ℕ → Result (List Bucket)
buckets_from zero e starts to i = if ltb (starts i) to then err e else ok []
buckets_from (suc left) e starts to i = elim (ltb (starts i) to) [
  | true ↦ buckets_from left e starts to (suc i) >>= (λ bs. ok ((starts i, starts (suc i)) ∷ bs))
  | false ↦ ok []
]

abbrev pub start_of : Zone → Granularity → ℕ → ℕ
start_of zone g i = zone.midnight (first_date g i)

-- The calendar's periods from the one of `from` on that begin before `to`.
abbrev pub periods : Zone → Granularity → ℕ → ℕ → Result (List Bucket)
periods zone g from to =
    let i = period_of g (zone.day_of from) in
    buckets_from (last_period g - i) (past_the_end g) (start_of zone g) to i

abbrev unknown_timezone : Text → Text
unknown_timezone name = codes "Unknown timezone: " ++ name

abbrev unsupported : Text → Text
unsupported name = codes "Unsupported granularity: " ++ name

abbrev pub with_granularity : Zone → Text → Option Granularity → ℕ → ℕ → Result (List Bucket)
with_granularity zone name none from to = err (value_error (unsupported name))
with_granularity zone name (some g) from to = periods zone g from to

abbrev pub with_zone : Text → Text → Option Zone → ℕ → ℕ → Result (List Bucket)
with_zone timezone_name name none from to = err (value_error (unknown_timezone timezone_name))
with_zone timezone_name name (some zone) from to =
    with_granularity zone name (granularity_of name) from to

-- `zones` is the zone database.
unfoldable pub get_period_buckets :
    (Text → Option Zone) → ℕ → ℕ → Text → Text → Result (List Bucket)
unfolding buckets_from granularity_of
get_period_buckets zones from_date to_date granularity timezone_name =
    if leb to_date from_date
    then ok []
    else with_zone timezone_name (upper granularity) (zones timezone_name) from_date to_date

abbrev pub day_length : ℕ
day_length = 86_400_000_000

abbrev pub padding_days : Granularity → ℕ
padding_days Granularity.day = 2
padding_days Granularity.week = 14
padding_days Granularity.month = 62

-- `period_end > affected_from and period_start <= affected_to`
abbrev pub is_affected : ℕ → ℕ → Bucket → Bool
is_affected from to (start, end) = ltb from end && leb start to

abbrev pub next_index : Option ℕ → Option ℕ
next_index none = none
next_index (some i) = some (suc i)

abbrev pub last_of : Option ℕ → Bool → Option ℕ
last_of none affected = if affected then some 0 else none
last_of (some i) affected = some (suc i)

-- `affected_indexes[0]`, if there is one.
abbrev pub first_affected : ℕ → ℕ → List Bucket → Option ℕ
first_affected from to [] = none
first_affected from to (b ∷ bs) =
    let rest = first_affected from to bs in
    if is_affected from to b then some 0 else next_index rest

-- `affected_indexes[-1]`, if there is one.
abbrev pub last_affected : ℕ → ℕ → List Bucket → Option ℕ
last_affected from to [] = none
last_affected from to (b ∷ bs) = last_of (last_affected from to bs) (is_affected from to b)

-- `candidates[first:last]`
abbrev pub slice : Option ℕ → Option ℕ → List Bucket → List Bucket
slice none last candidates = []
slice (some first) none candidates = []
slice (some first) (some last) candidates = drop (first - 1) (take (suc last) candidates)

abbrev pub affected_buckets : ℕ → ℕ → Result (List Bucket) → Result (List Bucket)
affected_buckets from to (err e) = err e
affected_buckets from to (ok candidates) =
    ok (slice (first_affected from to candidates) (last_affected from to candidates) candidates)

-- The instant at which the year 10000 would begin.
abbrev pub end_of_time : ℕ
end_of_time = 3_652_059 * day_length

-- An instant before the year 1 or after the year 9999 is an `OverflowError`.
abbrev pub padded :
    (Text → Option Zone) → ℕ → ℕ → Text → Option Granularity → Text → Result (List Bucket)
padded zones from to name none timezone_name = err (value_error (unsupported name))
padded zones from to name (some g) timezone_name =
    let padding = padding_days g * day_length in
    if ltb from padding || leb end_of_time (to + padding)
    then err (overflow_error (codes "date value out of range"))
    else affected_buckets from to
        (get_period_buckets zones (from - padding) (to + padding) (upper name) timezone_name)

unfoldable pub get_recalculation_buckets :
    (Text → Option Zone) → ℕ → ℕ → Text → Text → Result (List Bucket)
unfolding get_period_buckets
get_recalculation_buckets zones affected_from affected_to granularity timezone_name =
    if ltb affected_to affected_from
    then err (value_error (codes "affected_from must not be after affected_to"))
    else padded zones affected_from affected_to granularity (granularity_of (upper granularity))
        timezone_name
