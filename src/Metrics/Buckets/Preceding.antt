-- ===== src/Metrics/Buckets/Preceding.antt =====
-- The bucket before the affected ones (app/metrics/calculator.py).
use native.Mathlib.Decide.{dec_lt}
use adept_engine.Base.{
  ℕ, suc, ◌+◌, ◌-◌, ◌*◌, ◌≡◌, ◌≤◌, ◌<◌, refl, ap, false, Option, some, List, Text, arith, leb, ltb,
  count_if, subst, sym, ◌∙◌,
}
use adept_engine.Jobs.Errors.{ok}
use adept_engine.Metrics.Snapshot.{upper}
use adept_engine.Metrics.Buckets.{
  Zone, Granularity, granularity_of, Bucket, get_recalculation_buckets, first_affected,
  last_affected, slice, padding_days, day_length, start_of, period_of, end_of_time, last_period,
}
use adept_engine.Metrics.Buckets.Recalculation.{upper_idem, roomy_padding, has_padding}
use adept_engine.Metrics.Buckets.Cover.{
  contains, IsCalendar, count_once, start_of-grows, start_of-le, starts-le, reaches, chain_of,
  periods-chain_of,
}
use adept_engine.Metrics.Buckets.Index.{
  first_affected-chain, count_if-take_early, count_if-drop_late, first_affected-le, slice-once,
}

module _ (zone : Zone) (calendar : IsCalendar zone) where
  -- The period of `from` has not ended then, and it is shorter than its padding.
  abbrev pub IsPresent : Granularity → ℕ → Type 0
  IsPresent g from =
      let p = period_of g (zone.day_of from) in
      (from < start_of zone g (suc p))
      × (start_of zone g (suc p) < start_of zone g p + padding_days g * day_length)

  earlier :
      (g : Granularity) (from : ℕ)
      → IsPresent g from
      → padding_days g * day_length ≤ from
      → period_of g (zone.day_of (from - padding_days g * day_length))
        < period_of g (zone.day_of from)
  earlier g from present h =
      let padding = padding_days g * day_length in
      let i = period_of g (zone.day_of (from - padding)) in
      let p = period_of g (zone.day_of from) in
      let starts = start_of zone g in
      elim (dec_lt i p) [
        | yes l ↦ l
        | no n ↦ absurd (
            omega (
              arith,
              starts-le starts (start_of-grows zone calendar g) p i (omega arith),
              start_of-le zone calendar g (from - padding),
              present.0,
              present.1,
            ))
      ]

  -- The buckets that the recalculation of `[from, to]` chooses from, and its choice.
  module _ (g : Granularity) (from to t : ℕ) (room : padding_days g * day_length ≤ from)
      (ordered : from ≤ to) where
    abbrev padding : ℕ
    padding = padding_days g * day_length

    abbrev candidates : List Bucket
    candidates = chain_of zone calendar g (from - padding) (to + padding)

    preceding_once :
        IsPresent g from
        → to + padding ≤ start_of zone g (last_period g)
        → start_of zone g (period_of g (zone.day_of from) - 1) ≤ t
        → t < from
        → count_if (contains t) (
            slice (first_affected from to candidates) (last_affected from to candidates) candidates)
          ≡ 1
    preceding_once present last_one h k =
        let starts = start_of zone g in
        let grows = start_of-grows zone calendar g in
        let end = to + padding in
        let i = period_of g (zone.day_of (from - padding)) in
        let p = period_of g (zone.day_of from) in
        let left = last_period g - i in
        let before : i < p = earlier g from present room in
        let positive = has_padding g in
        let enough =
          reaches zone calendar g (from - padding) end (omega (arith, positive)) last_one in
        let first =
          first_affected-chain starts grows end from to left i (p - i) p (omega (arith, before))
            ordered (omega (arith, positive)) (start_of-le zone calendar g from) present.0 enough in
        let (j, last, later) = first_affected-le from to candidates (p - i) first in
        let early =
          count_if-take_early starts grows end t left i (p - i - 1) (p - 1) (omega (arith, before))
            h in
        let late = count_if-drop_late starts grows end t left i (suc j) (i + suc j) refl (
          omega (
            arith,
            k,
            present.0,
            starts-le starts grows (suc p) (i + suc j) (omega (arith, later, before)),
          )) in
        let once =
          count_once starts grows end t left i (omega arith)
            (omega (arith, h, starts-le starts grows i (p - 1) (omega (arith, before)))) enough in
        subst
          (λ o. count_if (contains t) (slice o (last_affected from to candidates) candidates) ≡ 1)
          (sym first)
          (subst (λ o. count_if (contains t) (slice (some (p - i)) o candidates) ≡ 1) (sym last)
            (slice-once t (p - i) j candidates early late once))

-- The period before the affected time is recalculated too: every instant from the start of the period
-- before the one of `affected_from`, up to `affected_from`, lies in exactly one of the buckets. The
-- affected time is in order and does not begin within the padding of the year 1 or end within it of the last period
-- of the year 9999; the period that the local date of `affected_from` lies in has not ended at
-- `affected_from` and is shorter than the padding; a local date of the zone begins no sooner than the
-- one before, and the date of an instant no later than the instant.
pub get_recalculation_buckets_preceding :
    (zones : Text → Option Zone) (from to : ℕ) (granularity timezone_name : Text) (zone : Zone)
    (g : Granularity)
    → zones timezone_name ≡ some zone
    → granularity_of (upper granularity) ≡ some g
    → (calendar : IsCalendar zone) → IsPresent zone calendar g from
    → padding_days g * day_length ≤ from
    → to + padding_days g * day_length < end_of_time
    → to + padding_days g * day_length ≤ start_of zone g (last_period g)
    → from ≤ to
    → (t : ℕ) → start_of zone g (period_of g (zone.day_of from) - 1) ≤ t
    → t < from
    → (buckets : List Bucket) × (get_recalculation_buckets zones from to granularity timezone_name
        ≡ ok buckets)
      × (count_if (contains t) buckets ≡ 1)
unfolding get_recalculation_buckets
get_recalculation_buckets_preceding zones from to granularity timezone_name zone g known named
      calendar present room before last ordered t h k =
    let padding = padding_days g * day_length in
    let again : granularity_of (upper (upper granularity)) ≡ some g =
      ap granularity_of (upper_idem granularity) ∙ named in
    let cs = chain_of zone calendar g (from - padding) (to + padding) in
    let positive = has_padding g in
    let forwards : ltb to from ≡ false = ground arith in
    let roomy = roomy_padding from to padding room before in
    let nonempty : leb (to + padding) (from - padding) ≡ false = ground (arith, positive) in
    let loop =
      periods-chain_of zone calendar g (from - padding) (to + padding) (omega (arith, positive))
        last in
    (
      slice (first_affected from to cs) (last_affected from to cs) cs,
      rw forwards (rw named (rw roomy (rw nonempty (rw known (rw again (rw loop refl)))))),
      preceding_once zone calendar g from to t room ordered present last h k,
    )
