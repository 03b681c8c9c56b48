-- ===== src/Metrics/Buckets/Cover.antt =====
-- The buckets of app/metrics/calculator.py against the time that they are asked for.
use native.Mathlib.Decide.{dec_lt}
use adept_engine.Base.{
  ℕ, zero, suc, ◌+◌, ◌-◌, ◌*◌, ◌≡◌, ◌≤◌, ◌<◌, refl, Bool, false, Option, some, List, [], ◌∷◌, Text,
  arith, leb, ltb, count_if, inl, inr, Bool-cases, ltb→lt, lt→ltb, subst,
}
use adept_engine.Jobs.Errors.{ok}
use adept_engine.Metrics.Snapshot.{upper, in_period}
use adept_engine.Metrics.Calendar.{first_day, first_day-lt, month_of-le}
use adept_engine.Metrics.Buckets.Loop.{chain, buckets_from-chain}
use adept_engine.Metrics.Buckets.{
  Zone, Granularity, granularity_of, period_of, first_date, Bucket, start_of, periods, last_period,
  past_the_end, get_period_buckets,
}

-- The instant lies in the bucket.
abbrev pub contains : ℕ → Bucket → Bool
contains t (start, end) = in_period start end t

-- Each bucket ends where the next one starts, the first one starts at `at`, and all start before
-- `to`.
abbrev pub IsChain : ℕ → ℕ → List Bucket → Type 0
IsChain to at [] = Unit
IsChain to at ((start, end) ∷ rest) =
    (start ≡ at) × (start ≤ end) × (start < to) × IsChain to end rest

pub starts-le :
    (starts : ℕ → ℕ)
    → ((i : ℕ) → starts i ≤ starts (suc i))
    → (i j : ℕ) → i ≤ j
    → starts i ≤ starts j
starts-le starts grows i zero h =
    let e : 0 ≡ i = omega arith in subst (λ k. starts k ≤ starts 0) e (omega arith)
starts-le starts grows i (suc j) h = elim (dec_lt j i) [
  | yes l ↦
      let e : suc j ≡ i = omega arith in subst (λ k. starts k ≤ starts (suc j)) e (omega arith)
  | no n ↦ omega (arith, starts-le starts grows i j (omega arith), grows j)
]

module _ (starts : ℕ → ℕ) (grows : (i : ℕ) → starts i ≤ starts (suc i)) (to : ℕ) where
  chain-IsChain : (fuel i : ℕ) → IsChain to (starts i) (chain fuel starts to i)
  unfolding chain
  chain-IsChain zero i = tt
  chain-IsChain (suc fuel) i = elim (Bool-cases (ltb (starts i) to)) [
    | inl e ↦ rw (e, chain) (refl, grows i, ltb→lt (starts i) to e, chain-IsChain fuel (suc i))
    | inr e ↦ rw (e, chain) tt
  ]

  pub count_none :
      (t fuel i : ℕ) → t < starts i → count_if (contains t) (chain fuel starts to i) ≡ 0
  unfolding chain
  count_none t zero i h = refl
  count_none t (suc fuel) i h = elim (Bool-cases (ltb (starts i) to)) [
    | inl e ↦ rw (e, chain) (ground (arith, count_none t fuel (suc i), grows i))
    | inr e ↦ rw (e, chain) refl
  ]

  pub count_once :
      (t fuel i : ℕ)
      → t < to
      → starts i ≤ t
      → to ≤ starts (i + fuel)
      → count_if (contains t) (chain fuel starts to i) ≡ 1
  unfolding chain
  count_once t zero i h k f =
      let same : i + 0 ≡ i = omega arith in
      let f' : to ≤ starts i = subst (λ j. to ≤ starts j) same f in absurd (omega arith)
  count_once t (suc fuel) i h k f =
      let same : i + suc fuel ≡ suc i + fuel = omega arith in
      let f' : to ≤ starts (suc i + fuel) = subst (λ j. to ≤ starts j) same f in
      let none = count_none t fuel (suc i) in
      let once = λ (l : starts (suc i) ≤ t). count_once t fuel (suc i) h l f' in
      rw (lt→ltb (starts i) to (omega arith), chain) (ground (arith, none, once))

-- A local date begins no sooner than the one before (at once with it where a zone skips a date), and
-- the date of an instant has begun.
pub record IsCalendar (zone : Zone) : Type 0 where
  pub grows : (date : ℕ) → zone.midnight date ≤ zone.midnight (suc date)
  pub begun : (at : ℕ) → zone.midnight (zone.day_of at) ≤ at

module _ (zone : Zone) (calendar : IsCalendar zone) where
  later : (a k : ℕ) → zone.midnight a ≤ zone.midnight (a + k)
  later a zero =
      let e : a ≡ a + 0 = omega arith in
      subst (λ b. zone.midnight a ≤ zone.midnight b) e (omega arith)
  later a (suc k) =
      let e : suc (a + k) ≡ a + suc k = omega arith in
      subst (λ b. zone.midnight a ≤ zone.midnight b) e
        (omega (arith, later a k, calendar.grows (a + k)))

  pub midnight-le : (a b : ℕ) → a ≤ b → zone.midnight a ≤ zone.midnight b
  midnight-le a b h =
      let e : a + (b - a) ≡ b = omega arith in
      subst (λ c. zone.midnight a ≤ zone.midnight c) e (later a (b - a))

  pub start_of-grows : (g : Granularity) (i : ℕ) → start_of zone g i ≤ start_of zone g (suc i)
  start_of-grows Granularity.day i = calendar.grows i
  start_of-grows Granularity.week i = midnight-le (7 * i) (7 * suc i) (omega arith)
  start_of-grows Granularity.month i =
      midnight-le (first_day i) (first_day (suc i)) (omega (arith, first_day-lt i))

  first_date-le : (g : Granularity) (date : ℕ) → first_date g (period_of g date) ≤ date
  first_date-le Granularity.day date = omega arith
  first_date-le Granularity.week date = omega arith
  first_date-le Granularity.month date = month_of-le date

  pub start_of-le : (g : Granularity) (at : ℕ) → start_of zone g (period_of g (zone.day_of at)) ≤ at
  start_of-le g at = omega (
    arith,
    calendar.begun at,
    midnight-le (first_date g (period_of g (zone.day_of at))) (zone.day_of at)
        (first_date-le g (zone.day_of at)),
  )

  -- An instant before the last period of the calendar lies in a period before it.
  pub period_of-le :
      (g : Granularity) (at last : ℕ)
      → at < start_of zone g last
      → period_of g (zone.day_of at) ≤ last
  period_of-le g at last h =
      let i = period_of g (zone.day_of at) in
      elim (dec_lt last i) [
        | yes l ↦ absurd (
            omega (
              arith,
              start_of-le g at,
              starts-le (start_of zone g) (start_of-grows g) last i (omega arith),
            ))
        | no l ↦ omega arith
      ]

  abbrev pub chain_of : Granularity → ℕ → ℕ → List Bucket
  chain_of g from to =
      let i = period_of g (zone.day_of from) in chain (last_period g - i) (start_of zone g) to i

  pub reaches :
      (g : Granularity) (from to : ℕ)
      → from < to
      → to ≤ start_of zone g (last_period g)
      → to
        ≤ start_of zone g
            (period_of g (zone.day_of from) + (last_period g - period_of g (zone.day_of from)))
  reaches g from to h l =
      let i = period_of g (zone.day_of from) in
      let le = period_of-le g from (last_period g) (omega arith) in
      let same : last_period g ≡ i + (last_period g - i) = omega (arith, le) in
      subst (λ k. to ≤ start_of zone g k) same l

  pub periods-chain_of :
      (g : Granularity) (from to : ℕ)
      → from < to
      → to ≤ start_of zone g (last_period g)
      → periods zone g from to ≡ ok (chain_of g from to)
  periods-chain_of g from to h l =
      let i = period_of g (zone.day_of from) in
      buckets_from-chain (last_period g - i) (past_the_end g) (start_of zone g) to i
        (reaches g from to h l)

  periods_once :
      (g : Granularity) (from to t : ℕ)
      → to ≤ start_of zone g (last_period g)
      → from ≤ t
      → t < to
      → count_if (contains t) (chain_of g from to) ≡ 1
  periods_once g from to t l h k =
      let i = period_of g (zone.day_of from) in
      count_once (start_of zone g) (start_of-grows g) to t (last_period g - i) i k
        (omega (arith, start_of-le g from)) (reaches g from to (omega arith) l)

-- Of a known zone and granularity, for a range that ends no later than the last period of the year
-- 9999 begins: the buckets are contiguous and all start before `to`; the first one starts with the
-- period that the local date of `from` lies in, no later than `from`; and every instant of
-- `[from, to)` lies in exactly one of them. Of the zone it is assumed that a local date begins no
-- sooner than the one before, and the date of an instant no later than the instant.
pub get_period_buckets_cover :
    (zones : Text → Option Zone) (from to : ℕ) (granularity timezone_name : Text) (zone : Zone)
    (g : Granularity)
    → zones timezone_name ≡ some zone
    → granularity_of (upper granularity) ≡ some g
    → IsCalendar zone
    → to ≤ start_of zone g (last_period g)
    → (t : ℕ) → from ≤ t
    → t < to
    → (buckets : List Bucket) × (get_period_buckets zones from to granularity timezone_name
        ≡ ok buckets)
      × IsChain to (start_of zone g (period_of g (zone.day_of from))) buckets
      × (start_of zone g (period_of g (zone.day_of from)) ≤ from)
      × (count_if (contains t) buckets ≡ 1)
unfolding get_period_buckets
get_period_buckets_cover zones from to granularity timezone_name zone g known named calendar l t h
      k =
    let i = period_of g (zone.day_of from) in
    (
      chain_of zone calendar g from to,
      rw (nonempty from to (omega arith))
          (rw known (rw named (periods-chain_of zone calendar g from to (omega arith) l))),
      chain-IsChain (start_of zone g) (start_of-grows zone calendar g) to (last_period g - i) i,
      start_of-le zone calendar g from,
      periods_once zone calendar g from to t l h k,
    )
  where
    nonempty : (from to : ℕ) → from < to → leb to from ≡ false
    nonempty from to h = ground arith
