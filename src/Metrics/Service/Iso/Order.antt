-- ===== src/Metrics/Service/Iso/Order.antt =====
-- Texts of instants compare as the instants do, by code points.
use native.Mathlib.Decide.{dec_lt}
use mathlib.Core.List.{append_assoc}
use adept_engine.Base.{
  ℕ, zero, suc, ◌+◌, ◌-◌, ◌*◌, ◌/◌, ◌%◌, ◌≡◌, ◌≤◌, ◌<◌, refl, ◌∙◌, ap, Bool, true, false, [], ◌∷◌,
  ◌++◌, Text, codes, ◌==◌, ltb, if◌then◌else◌, arith, inl, inr, Bool-cases,
}
use adept_engine.Metrics.Calendar.{
  first_day, first_day-lt, first_day-suc_le, month_of, month_of-le, month_of-lt,
}
use adept_engine.Metrics.Service.Iso.{padded, day_of, second_of, fraction, isoformat}

-- `a < b` on texts
unfoldable pub text_ltb : Text → Text → Bool
text_ltb [] [] = false
text_ltb [] (y ∷ b) = true
text_ltb (x ∷ a) [] = false
text_ltb (x ∷ a) (y ∷ b) = let rest = text_ltb a b in if x == y then rest else ltb x y

pub text_ltb-head_eq : (x : ℕ) (a b : Text) → text_ltb (x ∷ a) (x ∷ b) ≡ text_ltb a b
unfolding text_ltb
text_ltb-head_eq x a b = ground arith

text_ltb-head_lt : (x y : ℕ) (a b : Text) → x < y → text_ltb (x ∷ a) (y ∷ b) ≡ true
unfolding text_ltb
text_ltb-head_lt x y a b h = ground arith

text_ltb-append : (p a b : Text) → text_ltb (p ++ a) (p ++ b) ≡ text_ltb a b
text_ltb-append [] a b = refl
text_ltb-append (x ∷ p) a b = text_ltb-head_eq x (p ++ a) (p ++ b) ∙ text_ltb-append p a b

-- One more than the greatest number of so many digits.
abbrev limit : ℕ → ℕ
limit zero = 1
limit (suc width) = 10 * limit width

padded-suc : (w n : ℕ) (a : Text) → padded (suc w) n ++ a ≡ padded w (n / 10) ++ ((n % 10 + 48) ∷ a)
unfolding padded
padded-suc w n a = append_assoc (padded w (n / 10)) ((n % 10 + 48) ∷ []) a

padded-lt :
    (w m n : ℕ) (a b : Text)
    → m < n
    → n < limit w
    → text_ltb (padded w m ++ a) (padded w n ++ b) ≡ true
padded-lt zero m n a b h k = absurd (omega arith)
padded-lt (suc w) m n a b h k =
    rw (padded-suc w m a, padded-suc w n b)
      (elim (dec_lt (m / 10) (n / 10)) [
        | yes l ↦ padded-lt w (m / 10) (n / 10) _ _ l (omega arith)
        | no l ↦
            let e : m / 10 ≡ n / 10 = omega arith in
            rw e (
              text_ltb-append (padded w (n / 10)) _ _
              ∙ text_ltb-head_lt (m % 10 + 48) (n % 10 + 48) a b (omega arith))
      ])

-- A field of a text: the rest decides where the numbers are equal.
field-lt :
    (w m n : ℕ) (a b : Text)
    → m ≤ n
    → n < limit w
    → (m ≡ n → text_ltb a b ≡ true)
    → text_ltb (padded w m ++ a) (padded w n ++ b) ≡ true
field-lt w m n a b h k rest = elim (dec_lt m n) [
  | yes l ↦ padded-lt w m n a b l k
  | no l ↦ let e : m ≡ n = omega arith in rw e (text_ltb-append (padded w n) a b ∙ rest e)
]

-- The same with a mark behind the number.
marked-lt :
    (w c m n : ℕ) (a b : Text)
    → m ≤ n
    → n < limit w
    → (m ≡ n → text_ltb a b ≡ true)
    → text_ltb (padded w m ++ (c ∷ a)) (padded w n ++ (c ∷ b)) ≡ true
marked-lt w c m n a b h k rest =
    field-lt w m n (c ∷ a) (c ∷ b) h k (λ e. text_ltb-head_eq c a b ∙ rest e)

fraction-lt :
    (m n : ℕ)
    → m < n
    → n < 1_000_000
    → text_ltb (fraction m ++ codes "+00:00") (fraction n ++ codes "+00:00") ≡ true
fraction-lt m n h k =
    let nonzero : (n == 0) ≡ false = ground arith in
    rw nonzero (elim (Bool-cases (m == 0)) [
      | inl e ↦ rw e (text_ltb-head_lt b'+' b'.' _ _ (omega arith))
      | inr e ↦ rw e (text_ltb-head_eq b'.' _ _ ∙ padded-lt 6 m n _ _ h (omega arith))
    ])

first_day_mono : (m k : ℕ) → first_day m ≤ first_day (m + k)
first_day_mono m zero = let e : m + 0 ≡ m = omega arith in rw e (omega arith)
first_day_mono m (suc k) =
    let e : m + suc k ≡ suc (m + k) = omega arith in
    rw e (omega (arith, first_day_mono m k, first_day-lt (m + k)))

month_of_mono : (d e : ℕ) → d ≤ e → month_of d ≤ month_of e
month_of_mono d e h = elim (dec_lt (month_of e) (month_of d)) [
  | no l ↦ omega arith
  | yes l ↦
      let gap : suc (month_of e) + (month_of d - suc (month_of e)) ≡ month_of d = omega arith in
      let le = first_day_mono (suc (month_of e)) (month_of d - suc (month_of e)) in
      absurd (omega (arith, month_of-le d, month_of-lt e, rw gap at le))
]

abbrev time_text : ℕ → Text
time_text t =
    padded 2 (second_of t / 3600)
    ++ (b':'
        ∷ (padded 2 (second_of t / 60 % 60)
            ++ (b':'
                ∷ (padded 2 (second_of t % 60) ++ (fraction (t % 1_000_000) ++ codes "+00:00")))))

-- Two instants of one day.
time-lt : (s t : ℕ) → s < t → day_of s ≡ day_of t → text_ltb (time_text s) (time_text t) ≡ true
time-lt s t h same_day =
    let le : second_of s ≤ second_of t = omega arith in
    let bound : second_of t < 86_400 = omega arith in
    marked-lt 2 b':' (second_of s / 3600) (second_of t / 3600) _ _ (omega arith) (omega arith)
      (λ hour.
        marked-lt 2 b':' (second_of s / 60 % 60) (second_of t / 60 % 60) _ _ (omega arith)
          (omega arith)
          (λ minute.
            field-lt 2 (second_of s % 60) (second_of t % 60) _ _ (omega arith) (omega arith)
              (λ second. fraction-lt (s % 1_000_000) (t % 1_000_000) (omega arith) (omega arith))))

-- Up to the end of the year 9999.
abbrev pub IsDated : ℕ → Type 0
IsDated t = month_of (day_of t) < 119_988

-- Earlier instants have lesser texts.
pub isoformat-lt : (s t : ℕ) → s < t → IsDated t → text_ltb (isoformat s) (isoformat t) ≡ true
unfolding isoformat
isoformat-lt s t h k =
    let m = month_of (day_of s) in
    let n = month_of (day_of t) in
    let days : day_of s ≤ day_of t = omega arith in
    let months = month_of_mono (day_of s) (day_of t) days in
    let sm = month_of-le (day_of s) in
    let tm = month_of-le (day_of t) in
    let tl = month_of-lt (day_of t) in
    let length = first_day-suc_le n in
    marked-lt 4 b'-' (m / 12 + 1) (n / 12 + 1) _ _ (omega arith) (omega arith) (λ year.
      marked-lt 2 b'-' (m % 12 + 1) (n % 12 + 1) _ _ (omega arith) (omega arith) (λ month.
        let same_month : m ≡ n = omega arith in
        let starts = ap first_day same_month in
        marked-lt 2 b'T' (day_of s - first_day m + 1) (day_of t - first_day n + 1) _ _ (omega arith)
          (omega arith)
          (λ day. let same_day : day_of s ≡ day_of t = omega arith in time-lt s t h same_day)))
