-- ===== src/Metrics/Service/Recalculate/Returns.antt =====
-- When the calculation in `recalculate_repository_metrics` of app/metrics/service.py succeeds, and what
-- it then covers.
use adept_engine.Base.{
  ℕ, ◌+◌, ◌-◌, ◌*◌, ◌≡◌, ◌≤◌, ◌<◌, refl, ap, sym, subst, ◌∙◌, false, Option, none, some, List, [],
  ◌∷◌, ◌++◌, Text, codes, same, ltb, leb, arith, All, Bool-cases, inl, inr,
}
use adept_engine.Base.Among.{Among, Among-append_left, Among-append_right}
use adept_engine.Jobs.Errors.{Result, ok}
use adept_engine.Metrics.Snapshot.{upper}
use adept_engine.Metrics.Calendar.{first_day}
use adept_engine.Metrics.Buckets.Cover.{IsCalendar, midnight-le, periods-chain_of}
use adept_engine.Metrics.Buckets.Recalculation.{roomy_padding}
use adept_engine.Metrics.Buckets.{
  end_of_time, start_of, last_period, Zone, Granularity, Bucket, granularity_of, padding_days,
  day_length, affected_buckets, get_period_buckets, get_recalculation_buckets,
}
use adept_engine.Metrics.Service.Snapshots.{Snapshot}
use adept_engine.Metrics.Service.Database.{Database, Environment}
use adept_engine.Metrics.Service.Recalculate.{
  Inputs, or_default, buckets_of, bucket_snapshots, all_buckets, all_granularities, granularities,
  cycle_buckets, cycle_affected_from, cycle_of, cycle_time_snapshots, inputs_of, calculated,
  no_later,
}
use adept_engine.Metrics.Service.Queries.{earliest_merge}

abbrev pub Returns : {A : Type 0} → Result A → Type 0
Returns {A} r = (a : A) × (r ≡ ok a)

module _ (zones : Text → Option Zone) (timezone : Text) (zone : Zone)
    (known : zones timezone ≡ some zone) (calendar : IsCalendar zone) where
  get_period_buckets-Returns :
      (from to : ℕ) (name : Text) (g : Granularity)
      → granularity_of (upper name) ≡ some g
      → to ≤ start_of zone g (last_period g)
      → Returns (get_period_buckets zones from to name timezone)
  unfolding get_period_buckets
  get_period_buckets-Returns from to name g e l = elim (Bool-cases (leb to from)) [
    | inl s ↦ ([], rw s refl)
    | inr s ↦ rw (s, known, e) (_, periods-chain_of zone calendar g from to (ground arith) l)
  ]

  affected-Returns :
      (from to : ℕ) (r : Result (List Bucket)) → Returns r → Returns (affected_buckets from to r)
  affected-Returns from to r (bs, e) = rw e (_, refl)

  get_recalculation_buckets-Returns :
      (from to : ℕ) (name : Text) (g : Granularity)
      → granularity_of (upper name) ≡ some g
      → granularity_of (upper (upper name)) ≡ some g
      → from ≤ to
      → padding_days g * day_length ≤ from
      → to + padding_days g * day_length < end_of_time
      → to + padding_days g * day_length ≤ start_of zone g (last_period g)
      → Returns (get_recalculation_buckets zones from to name timezone)
  unfolding get_recalculation_buckets
  get_recalculation_buckets-Returns from to name g e u le early late last =
      let ordered : ltb to from ≡ false = ground arith in
      let roomy = roomy_padding from to (padding_days g * day_length) early late in
      rw (ordered, e, roomy)
        (affected-Returns from to _ (
          get_period_buckets-Returns (from - padding_days g * day_length)
            (to + padding_days g * day_length) (upper name) g u last))

-- The last month of the year 9999 begins on its 1st of December.
last_month : first_day 119_987 ≡ 3_652_028
unfolding first_day
last_month = refl

-- When the last month of the calendar begins.
abbrev pub last_begin : Zone → ℕ
last_begin zone = zone.midnight 3_652_028

last_begin-le :
    (zone : Zone)
    → IsCalendar zone
    → (g : Granularity) → last_begin zone ≤ start_of zone g (last_period g)
last_begin-le zone calendar Granularity.day =
    midnight-le zone calendar 3_652_028 3_652_058 (omega arith)
last_begin-le zone calendar Granularity.week =
    midnight-le zone calendar 3_652_028 (7 * 521_722) (omega arith)
last_begin-le zone calendar Granularity.month =
    midnight-le zone calendar 3_652_028 (first_day 119_987) (omega (arith, last_month))

-- A range that ends before the last month of the calendar; or an affected range in order, which with
-- the padding of a month lies between the year 1 and that month, as does the first merge that it affects.
abbrev pub IsFeasible : Zone → ℕ → Database → Option ℕ → Option ℕ → ℕ → Type 0
IsFeasible zone repository db none affected_to to = to ≤ last_begin zone
IsFeasible zone repository db (some at) affected_to to =
    (at ≤ or_default affected_to at)
    × (62 * day_length
        ≤ no_later at (
            earliest_merge repository at (or_default affected_to at) db.deployments db.links
              db.pull_requests))
    × (or_default affected_to at + 62 * day_length < end_of_time)
    × (or_default affected_to at + 62 * day_length ≤ last_begin zone)

no_later-le : (at : ℕ) (merge : Option ℕ) → no_later at merge ≤ at
no_later-le at none = omega arith
no_later-le at (some merge) = ground arith

Among-all_buckets :
    (f : Bucket → List Snapshot) (b : Bucket) (bs : List Bucket) (x : Snapshot)
    → Among b bs
    → Among x (f b)
    → Among x (all_buckets f bs)
unfolding all_buckets
Among-all_buckets f b [] x m n = absurd m
Among-all_buckets f b (c ∷ bs) x (inl q) n =
    Among-append_left x (f c) (all_buckets f bs) (subst (λ d. Among x (f d)) (sym q) n)
Among-all_buckets f b (c ∷ bs) x (inr m) n =
    Among-append_right x (f c) (all_buckets f bs) (Among-all_buckets f b bs x m n)

-- A snapshot of the loop over granularities and buckets.
abbrev pub IsDue : Inputs → (Text → Result (List Bucket)) → List Text → Snapshot → Type 0
IsDue i buckets gs x =
    (g : Text) × (bs : List Bucket) × (b : Bucket) × Among g gs
    × (buckets g ≡ ok bs)
    × Among b bs
    × Among x (bucket_snapshots i g b)

ok_inj : {A : Type 0} {a b : A} → ok a ≡ ok b → a ≡ b
ok_inj h = cc

module _ (i : Inputs) (buckets : Text → Result (List Bucket)) where
  covered :
      (g : Text) (gs : List Text) (bs : List Bucket) (rest : List Snapshot)
      → buckets g ≡ ok bs
      → ((x : Snapshot) → IsDue i buckets gs x → Among x rest)
      → (x : Snapshot) → IsDue i buckets (g ∷ gs) x
      → Among x (all_buckets (bucket_snapshots i g) bs ++ rest)
  covered g gs bs rest e covers x (g', bs', b, inl q, e', m, n) =
      let same_buckets : bs' ≡ bs = ok_inj (sym e' ∙ sym (ap buckets q) ∙ e) in
      Among-append_left x (all_buckets (bucket_snapshots i g) bs) rest (
        Among-all_buckets (bucket_snapshots i g) b bs x (subst (λ l. Among b l) same_buckets m)
          (subst (λ h. Among x (bucket_snapshots i h b)) (sym q) n))
  covered g gs bs rest e covers x (g', bs', b, inr l, e', m, n) =
      Among-append_right x (all_buckets (bucket_snapshots i g) bs) rest
        (covers x (g', bs', b, l, e', m, n))

  all_granularities-Returns :
      (gs : List Text)
      → All (λ g. Returns (buckets g)) gs
      → (ss : List Snapshot) × (all_granularities buckets i gs ≡ ok ss)
        × ((x : Snapshot) → IsDue i buckets gs x → Among x ss)
  unfolding all_granularities
  all_granularities-Returns [] h = ([], refl, λ x d. absurd d.3)
  all_granularities-Returns (g ∷ gs) h =
      let (bs, e) = h.0 in
      let (rest, f, covers) = all_granularities-Returns gs h.1 in
      (all_buckets (bucket_snapshots i g) bs ++ rest, rw (e, f) refl, covered g gs bs rest e covers)

module _ (env : Environment) (repository : ℕ) (db : Database) (timezone : Text) (zone : Zone)
    (calendar : IsCalendar zone) where
  buckets-Returns :
      (from to : ℕ) (affected_from affected_to : Option ℕ) (name : Text) (g : Granularity)
      → env.zones timezone ≡ some zone
      → IsFeasible zone repository db affected_from affected_to to
      → padding_days g ≤ 62
      → granularity_of (upper name) ≡ some g
      → granularity_of (upper (upper name)) ≡ some g
      → Returns (buckets_of env timezone affected_from affected_to from to name)
  buckets-Returns from to none affected_to name g known f p e u =
      get_period_buckets-Returns env.zones timezone zone known calendar from to name g e
        (omega (arith, f, last_begin-le zone calendar g))
  buckets-Returns from to (some at) affected_to name g known f p e u =
      get_recalculation_buckets-Returns env.zones timezone zone known calendar at
        (or_default affected_to at) name g e u f.0 (omega (arith, f.1, p, no_later-le at _))
        (omega (arith, f.2, p)) (omega (arith, f.3, p, last_begin-le zone calendar g))

  cycle_buckets-Returns :
      (from to : ℕ) (affected_from affected_to : Option ℕ)
      → env.zones timezone ≡ some zone
      → IsFeasible zone repository db affected_from affected_to to
      → Returns (
          cycle_buckets env timezone
            (cycle_affected_from repository db affected_from affected_to)
            affected_from
            affected_to
            from
            to)
  unfolding granularity_of same
  cycle_buckets-Returns from to none affected_to known f =
      get_period_buckets-Returns env.zones timezone zone known calendar from to (codes "DAY")
        Granularity.day refl (omega (arith, f, last_begin-le zone calendar Granularity.day))
  cycle_buckets-Returns from to (some at) affected_to known f =
      let first = no_later-le at (
        earliest_merge repository at (or_default affected_to at) db.deployments db.links
          db.pull_requests) in
      get_recalculation_buckets-Returns env.zones timezone zone known calendar _
        (or_default affected_to at) (codes "DAY") Granularity.day refl refl
        (omega (arith, f.0, first)) (omega (arith, f.1)) (omega (arith, f.2))
        (omega (arith, f.3, last_begin-le zone calendar Granularity.day))

  -- In a known timezone, and for an affected range that is in order and leaves room for the padding
  -- before it, the calculation succeeds, and it covers the four metrics of every bucket of the three
  -- granularities.
  pub calculated_returns :
      (workspace from to : ℕ) (affected_from affected_to : Option ℕ)
      → env.zones timezone ≡ some zone
      → IsFeasible zone repository db affected_from affected_to to
      → (ss : List Snapshot) × (calculated env workspace repository db timezone from to
            affected_from affected_to
          ≡ ok ss)
        × ((x : Snapshot)
            → IsDue
                (inputs_of env workspace repository db)
                (buckets_of env timezone affected_from affected_to from to)
                granularities
                x
            → Among x ss)
  unfolding calculated cycle_time_snapshots granularity_of same
  calculated_returns workspace from to affected_from affected_to known f =
      let day =
        buckets-Returns from to affected_from affected_to (codes "DAY") Granularity.day known f
          (omega arith) refl refl in
      let week =
        buckets-Returns from to affected_from affected_to (codes "WEEK") Granularity.week known f
          (omega arith) refl refl in
      let month =
        buckets-Returns from to affected_from affected_to (codes "MONTH") Granularity.month known f
          (omega arith) refl refl in
      let (dora, e, covers) =
        all_granularities-Returns (inputs_of env workspace repository db)
          (buckets_of env timezone affected_from affected_to from to) granularities
          (day, (week, (month, tt))) in
      let (bs, k) = cycle_buckets-Returns from to affected_from affected_to known f in
      (
        dora ++ cycle_of repository db bs,
        rw (e, k) refl,
        λ x d. Among-append_left x dora (cycle_of repository db bs) (covers x d),
      )
