-- ===== src/Risk/Stale.antt =====
-- app/risk/stale.py: hours, in microseconds here, since the last activity on a pull request.
use adept_engine.Base.{
  ℕ, ◌-◌, ◌*◌, ◌≡◌, ◌≤◌, ◌<◌, ◌↔◌, refl, Bool, true, ◌&&◌, Option, none, some, List, [], ◌∷◌, ◌++◌,
  map, arith, leb, if◌then◌else◌, max, All,
}
use adept_engine.Jobs.Errors.{Result, ok, ◌>>=◌}
use adept_engine.Metrics.Rounding.{round_div}
use adept_engine.Metrics.Snapshot.{hour}
use adept_engine.Risk.Stamp.{Stamp, or_stamp, strict, lenient}

-- The row of a pull request with its `raw_data`: a commit has a committer's and an author's date, a
-- comment a time of change and one of creation.
pub record PrRow : Type 0 where
  pub updated_at : Stamp
  pub last_synced_at : Stamp
  pub opened_at : Stamp
  pub commits : List (Stamp × Stamp)
  pub reviews : List Stamp
  pub comments : List (Stamp × Stamp)

abbrev pub either : Stamp × Stamp → Stamp
either (a, b) = or_stamp a b

-- What commits, reviews and comments add to `activity_timestamps`.
abbrev pub raw_activity : PrRow → List ℕ
raw_activity pr =
    lenient (map either pr.commits) ++ (lenient pr.reviews ++ lenient (map either pr.comments))

unfoldable pub activity_timestamps : PrRow → Result (List ℕ)
activity_timestamps pr =
    strict (pr.updated_at ∷ pr.last_synced_at ∷ pr.opened_at ∷ [])
    >>= (λ base. ok (base ++ raw_activity pr))

-- `max(...)` of a list that begins with `a`.
abbrev pub latest : ℕ → List ℕ → ℕ
latest a [] = a
latest a (b ∷ bs) = max a (latest b bs)

abbrev pub since_latest : ℕ → List ℕ → ℕ
since_latest now [] = 0
since_latest now (a ∷ activity) = now - latest a activity

-- The subtraction stops at 0, as `max(0.0, ...)` does.
unfoldable pub calculate_hours_since_activity : PrRow → ℕ → Result ℕ
unfolding activity_timestamps
calculate_hours_since_activity pr now =
    activity_timestamps pr >>= (λ activity. ok (since_latest now activity))

pub record Staleness : Type 0 where
  pub is_stale : Bool
  -- in hundredths of an hour
  pub hours_since_last_activity : ℕ
  pub threshold_hours : ℕ
  -- the two numbers of the reason, in tenths of an hour; none if it says active or closed
  pub reason : Option (ℕ × ℕ)

unfoldable pub check_stale : Bool → ℕ → ℕ → Staleness
unfolding round_div
check_stale is_open since threshold = record {
  is_stale = is_open && leb threshold since;
  hours_since_last_activity = round_div (100 * since) hour;
  threshold_hours = threshold;
  reason =
      if is_open && leb threshold since
      then some (round_div (10 * since) hour, round_div (10 * threshold) hour)
      else none;
}

latest_bound : (a : ℕ) (bs : List ℕ) (m : ℕ) → All (λ b. b ≤ m) (a ∷ bs) → latest a bs ≤ m
latest_bound a [] m h = h.0
latest_bound a (b ∷ bs) m h = omega (arith, latest_bound b bs m h.1, h.0)

latest-all : (a : ℕ) (bs : List ℕ) (m : ℕ) → latest a bs ≤ m → All (λ b. b ≤ m) (a ∷ bs)
latest-all a [] m h = (h, tt)
latest-all a (b ∷ bs) m h = (omega arith, latest-all b bs m (omega arith))

-- Of a pull request with some activity, and a threshold above 0 that `now` has passed: it is stale
-- if and only if it is open and no activity is more recent than the threshold.
pub check_stale_iff :
    (is_open : Bool) (pr : PrRow) (now threshold a : ℕ) (activity : List ℕ)
    → activity_timestamps pr ≡ ok (a ∷ activity)
    → 0 < threshold
    → threshold ≤ now
    → (since : ℕ) × (calculate_hours_since_activity pr now ≡ ok since)
      × (((check_stale is_open since threshold).is_stale ≡ true)
          ↔ ((is_open ≡ true) × All (λ at. at ≤ now - threshold) (a ∷ activity)))
unfolding calculate_hours_since_activity check_stale
check_stale_iff is_open pr now threshold a activity h p k = (
  now - latest a activity,
  rw h refl,
  (
    λ e. (ground (arith, e), latest-all a activity (now - threshold) (ground (arith, e))),
    λ (o, all). ground (arith, o, latest_bound a activity (now - threshold) all),
  ),
)
