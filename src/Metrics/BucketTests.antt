-- ===== src/Metrics/BucketTests.antt =====
-- The theorems on the buckets of app/metrics/calculator.py in a zone without daylight saving, and
-- runs at the borders.
use adept_engine.Base.{
  ◌+◌, ◌-◌, leb, ltb, if◌then◌else◌, ◌*◌, ◌/◌, count_if, ◌≡◌, ◌≤◌, refl, some, List, [], ◌∷◌, codes,
  arith, same,
}
use native.Mathlib.Nat.{div-mul-le_self}
use adept_engine.Jobs.Errors.{ok, err, overflow_error}
use adept_engine.Metrics.Snapshot.{upper}
use adept_engine.Metrics.Buckets.{
  Zone, Granularity, granularity_of, Bucket, day_length, start_of, get_period_buckets,
  get_recalculation_buckets,
}
use adept_engine.Metrics.Buckets.Cover.{contains, IsChain, IsCalendar, get_period_buckets_cover}
use adept_engine.Metrics.Buckets.Preceding.{IsPresent, get_recalculation_buckets_preceding}
use adept_engine.Metrics.Buckets.Recalculation.{get_recalculation_buckets_cover}

-- A zone without daylight saving.
abbrev utc : Zone
utc = record { day_of = λ at. at / day_length; midnight = λ date. date * day_length }

utc-IsCalendar : IsCalendar utc
utc-IsCalendar = record { grows = λ date. omega arith; begun = λ at. div-mul-le_self at day_length }

weekly : granularity_of (upper (codes "week")) ≡ some Granularity.week
unfolding granularity_of same
weekly = refl

-- Two weeks and some days from a Thursday on.
two_weeks :
    get_period_buckets
      (λ name. some utc)
      (17 * day_length)
      (22 * day_length)
      (codes "week")
      (codes "UTC")
    ≡ ok ((14 * day_length, 21 * day_length) ∷ (21 * day_length, 28 * day_length) ∷ [])
unfolding get_period_buckets same
two_weeks = refl

get_period_buckets_cover_example :
    (buckets : List Bucket) × (get_period_buckets
        (λ name. some utc)
        (17 * day_length)
        (22 * day_length)
        (codes "week")
        (codes "UTC")
      ≡ ok buckets)
    × IsChain (22 * day_length) (start_of utc Granularity.week 2) buckets
    × (start_of utc Granularity.week 2 ≤ 17 * day_length)
    × (count_if (contains (20 * day_length)) buckets ≡ 1)
get_period_buckets_cover_example =
    get_period_buckets_cover (λ name. some utc) (17 * day_length) (22 * day_length) (codes "week")
      (codes "UTC") utc Granularity.week refl weekly utc-IsCalendar (omega arith) (20 * day_length)
      (omega arith) (omega arith)

get_recalculation_buckets_cover_example :
    (buckets : List Bucket) × (get_recalculation_buckets
        (λ name. some utc)
        (17 * day_length)
        (22 * day_length)
        (codes "week")
        (codes "UTC")
      ≡ ok buckets)
    × (count_if (contains (22 * day_length)) buckets ≡ 1)
get_recalculation_buckets_cover_example =
    get_recalculation_buckets_cover (λ name. some utc) (17 * day_length) (22 * day_length)
      (codes "week") (codes "UTC") utc Granularity.week refl weekly utc-IsCalendar (omega arith)
      (omega arith) (omega arith) (22 * day_length) (omega arith) (omega arith)

-- The week before the affected ones is recalculated too.
three_weeks :
    get_recalculation_buckets
      (λ name. some utc)
      (17 * day_length)
      (22 * day_length)
      (codes "week")
      (codes "UTC")
    ≡ ok (
        (7 * day_length, 14 * day_length)
        ∷ (14 * day_length, 21 * day_length)
        ∷ (21 * day_length, 28 * day_length)
        ∷ [])
unfolding get_recalculation_buckets same
three_weeks = refl

present : IsPresent utc utc-IsCalendar Granularity.week (17 * day_length)
present = (omega arith, omega arith)

get_recalculation_buckets_preceding_example :
    (buckets : List Bucket) × (get_recalculation_buckets
        (λ name. some utc)
        (17 * day_length)
        (22 * day_length)
        (codes "week")
        (codes "UTC")
      ≡ ok buckets)
    × (count_if (contains (8 * day_length)) buckets ≡ 1)
get_recalculation_buckets_preceding_example =
    get_recalculation_buckets_preceding (λ name. some utc) (17 * day_length) (22 * day_length)
      (codes "week") (codes "UTC") utc Granularity.week refl weekly utc-IsCalendar present
      (omega arith) (omega arith) (omega arith) (omega arith) (8 * day_length) (omega arith)
      (omega arith)

-- A zone that skips the local date 15, as Pacific/Apia skipped 2011-12-30: the bucket of that day is
-- empty, and the days around it are as long as ever.
abbrev skipping : Zone
skipping = record {
  day_of = λ at. if ltb at (15 * day_length) then at / day_length else at / day_length + 1;
  midnight = λ date. if leb date 15 then date * day_length else (date - 1) * day_length;
}

a_skipped_day :
    get_period_buckets
      (λ name. some skipping)
      (14 * day_length)
      (16 * day_length)
      (codes "day")
      (codes "Pacific/Apia")
    ≡ ok (
        (14 * day_length, 15 * day_length)
        ∷ (15 * day_length, 15 * day_length)
        ∷ (15 * day_length, 16 * day_length)
        ∷ [])
unfolding get_period_buckets same
a_skipped_day = refl

-- The day after 9999-12-31 does not exist, nor does the time two days after it.
no_next_day :
    get_period_buckets
      (λ name. some utc)
      (3_652_058 * day_length)
      (3_652_058 * day_length + 1)
      (codes "day")
      (codes "UTC")
    ≡ err (overflow_error (codes "date value out of range"))
unfolding get_period_buckets same
no_next_day = refl

no_padding :
    get_recalculation_buckets
      (λ name. some utc)
      (3_652_057 * day_length)
      (3_652_057 * day_length)
      (codes "day")
      (codes "UTC")
    ≡ err (overflow_error (codes "date value out of range"))
unfolding get_recalculation_buckets same
no_padding = refl
