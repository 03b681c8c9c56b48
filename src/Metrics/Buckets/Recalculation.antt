-- ===== src/Metrics/Buckets/Recalculation.antt =====
-- What app/metrics/calculator.py recalculates of the affected time.
use adept_engine.Base.{
  ℕ, zero, suc, ◌+◌, ◌-◌, ◌*◌, ◌≡◌, ◌≤◌, ◌<◌, refl, ap, Bool, true, false, Option, none, some, List,
  [], ◌∷◌, Text, arith, ltb, leb, ◌||◌, count_if, inl, inr, Bool-cases, take, drop, ◌∙◌,
}
use adept_engine.Jobs.Errors.{ok}
use adept_engine.Metrics.Snapshot.{upper, upper_char}
use adept_engine.Metrics.Buckets.{
  Zone, Granularity, granularity_of, Bucket, get_recalculation_buckets, is_affected, next_index,
  last_of, first_affected, last_affected, slice, padding_days, day_length, end_of_time, last_period,
  start_of,
}
use adept_engine.Metrics.Buckets.Cover.{contains, IsCalendar, get_period_buckets_cover}

next_index-some : (o : Option ℕ) (i : ℕ) → next_index o ≡ some (suc i) → o ≡ some i
next_index-some none i e = ground arith
next_index-some (some j) i e = ground arith

next_index-none : (o : Option ℕ) → next_index o ≡ none → o ≡ none
next_index-none none e = refl
next_index-none (some j) e = absurd (ground arith)

last_of-none : (o : Option ℕ) (b : Bool) → last_of o b ≡ none → (o ≡ none) × (b ≡ false)
last_of-none none true e = absurd (ground arith)
last_of-none none false e = (refl, refl)
last_of-none (some i) b e = absurd (ground arith)

last_of-zero : (o : Option ℕ) (b : Bool) → last_of o b ≡ some 0 → o ≡ none
last_of-zero none b e = refl
last_of-zero (some i) b e = absurd (ground arith)

last_of-suc : (o : Option ℕ) (b : Bool) (i : ℕ) → last_of o b ≡ some (suc i) → o ≡ some i
last_of-suc none true i e = absurd (ground arith)
last_of-suc none false i e = absurd (ground arith)
last_of-suc (some j) b i e = ground arith

pub count_if-take-drop :
    (p : Bucket → Bool) (n : ℕ) (bs : List Bucket)
    → count_if p bs ≡ count_if p (take n bs) + count_if p (drop n bs)
count_if-take-drop p zero bs = omega arith
count_if-take-drop p (suc n) [] = omega arith
count_if-take-drop p (suc n) (b ∷ bs) = omega (arith, count_if-take-drop p n bs)

pub count_if-take-take :
    (p : Bucket → Bool) (m n : ℕ) (bs : List Bucket)
    → count_if p (take m (take n bs)) ≤ count_if p (take m bs)
count_if-take-take p zero n bs = omega arith
count_if-take-take p (suc m) zero bs = omega arith
count_if-take-take p (suc m) (suc n) [] = omega arith
count_if-take-take p (suc m) (suc n) (b ∷ bs) = omega (arith, count_if-take-take p m n bs)

module _ (from to t : ℕ) (h : from ≤ t) (k : t ≤ to) where
  affected : (b : Bucket) → is_affected from to b ≡ false → contains t b ≡ false
  affected (start, end) e = ground arith

  none_before :
      (bs : List Bucket) (i j : ℕ)
      → first_affected from to bs ≡ some i
      → j ≤ i
      → count_if (contains t) (take j bs) ≡ 0
  none_before bs i zero e l = refl
  none_before [] i (suc j) e l = refl
  none_before (b ∷ bs) zero (suc j) e l = absurd (omega arith)
  none_before (b ∷ bs) (suc i) (suc j) e l = elim (Bool-cases (is_affected from to b)) [
    | inl a ↦ absurd (ground (arith, a, e))
    | inr a ↦ ground (
      arith,
      affected b a,
      none_before bs i j (next_index-some (first_affected from to bs) i (rw a at e)) (omega arith),
    )
  ]

  none_last : (bs : List Bucket) → last_affected from to bs ≡ none → count_if (contains t) bs ≡ 0
  none_last [] e = refl
  none_last (b ∷ bs) e =
      let x = last_of-none (last_affected from to bs) (is_affected from to b) e in
      ground (arith, affected b x.1, none_last bs x.0)

  none_after :
      (bs : List Bucket) (i : ℕ)
      → last_affected from to bs ≡ some i
      → count_if (contains t) (drop (suc i) bs) ≡ 0
  none_after [] i e = absurd (ground arith)
  none_after (b ∷ bs) zero e =
      none_last bs (last_of-zero (last_affected from to bs) (is_affected from to b) e)
  none_after (b ∷ bs) (suc i) e =
      none_after bs i (last_of-suc (last_affected from to bs) (is_affected from to b) i e)

  none_first : (bs : List Bucket) → first_affected from to bs ≡ none → count_if (contains t) bs ≡ 0
  none_first [] e = refl
  none_first (b ∷ bs) e = elim (Bool-cases (is_affected from to b)) [
    | inl a ↦ absurd (ground (arith, a, e))
    | inr a ↦ ground (
      arith,
      affected b a,
      none_first bs (next_index-none (first_affected from to bs) (rw a at e)),
    )
  ]

  -- The slice keeps every bucket that contains the instant.
  slice-count :
      (bs : List Bucket)
      → count_if (contains t) (slice (first_affected from to bs) (last_affected from to bs) bs)
        ≡ count_if (contains t) bs
  slice-count bs = go (first_affected from to bs) (last_affected from to bs) refl refl
    where
      go :
          (i j : Option ℕ)
          → first_affected from to bs ≡ i
          → last_affected from to bs ≡ j
          → count_if (contains t) (slice i j bs) ≡ count_if (contains t) bs
      go none j e f = omega (arith, none_first bs e)
      go (some i) none e f = omega (arith, none_last bs f)
      go (some i) (some j) e f =
          let p = contains t in
          omega (
            arith,
            none_before bs i (i - 1) e (omega arith),
            none_after bs j f,
            count_if-take-drop p (suc j) bs,
            count_if-take-drop p (i - 1) (take (suc j) bs),
            count_if-take-take p (i - 1) (suc j) bs,
          )

upper_char_idem : (c : ℕ) → upper_char (upper_char c) ≡ upper_char c
upper_char_idem c = ground arith

pub upper_idem : (s : Text) → upper (upper s) ≡ upper s
upper_idem [] = refl
upper_idem (c ∷ cs) = ap₂ (upper_char_idem c) (upper_idem cs)
  where
    ap₂ : {a b : ℕ} {s r : Text} → a ≡ b → s ≡ r → a ∷ s ≡ b ∷ r
    ap₂ h k = cc

pub roomy_padding :
    (from to padding : ℕ)
    → padding ≤ from
    → to + padding < end_of_time
    → (ltb from padding || leb end_of_time (to + padding)) ≡ false
roomy_padding from to padding h k = ground arith

pub has_padding : (g : Granularity) → 0 < padding_days g * day_length
has_padding Granularity.day = omega arith
has_padding Granularity.week = omega arith
has_padding Granularity.month = omega arith

-- Of a known zone and granularity, and an affected time that does not begin within the padding of
-- the year 1 or end within it of the last period of the year 9999: every instant from `affected_from`
-- to `affected_to`, both included, lies in exactly one of the buckets that are recalculated. Of the
-- zone it is assumed that a local date begins no sooner than the one before, and the date of an
-- instant no later than the instant.
pub get_recalculation_buckets_cover :
    (zones : Text → Option Zone) (from to : ℕ) (granularity timezone_name : Text) (zone : Zone)
    (g : Granularity)
    → zones timezone_name ≡ some zone
    → granularity_of (upper granularity) ≡ some g
    → IsCalendar zone
    → padding_days g * day_length ≤ from
    → to + padding_days g * day_length < end_of_time
    → to + padding_days g * day_length ≤ start_of zone g (last_period g)
    → (t : ℕ) → from ≤ t
    → t ≤ to
    → (buckets : List Bucket) × (get_recalculation_buckets zones from to granularity timezone_name
        ≡ ok buckets)
      × (count_if (contains t) buckets ≡ 1)
unfolding get_recalculation_buckets
get_recalculation_buckets_cover zones from to granularity timezone_name zone g known named calendar
      room before last t h k =
    let padding = padding_days g * day_length in
    let again : granularity_of (upper (upper granularity)) ≡ some g =
      ap granularity_of (upper_idem granularity) ∙ named in
    let (candidates, e, chain, begun, once) =
      get_period_buckets_cover zones (from - padding) (to + padding) (upper granularity)
        timezone_name zone g known again calendar last t (omega arith)
        (omega (arith, has_padding g)) in
    let ordered : ltb to from ≡ false = ground arith in
    let roomy = roomy_padding from to padding room before in
    (
      slice (first_affected from to candidates) (last_affected from to candidates) candidates,
      rw ordered (rw named (rw roomy (rw e refl))),
      slice-count from to t h k candidates ∙ once,
    )
