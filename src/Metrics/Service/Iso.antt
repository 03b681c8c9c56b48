-- ===== src/Metrics/Service/Iso.antt =====
-- `datetime.isoformat` of an instant of UTC, as app/metrics/service.py writes it into payloads. An
-- instant is a number of microseconds since 0001-01-01.
pub mod Order
use adept_engine.Base.{
  ℕ, zero, suc, ◌+◌, ◌-◌, ◌*◌, ◌/◌, ◌%◌, ◌≡◌, refl, [], ◌∷◌, ◌++◌, Text, codes, ◌==◌, if◌then◌else◌,
}
use adept_engine.Metrics.Calendar.{first_day, month_of}

-- A number in decimal, with leading zeros.
unfoldable pub padded : ℕ → ℕ → Text
padded zero n = []
padded (suc width) n = padded width (n / 10) ++ ((n % 10 + b'0') ∷ [])

abbrev pub day_of : ℕ → ℕ
day_of t = t / 86_400_000_000

abbrev pub second_of : ℕ → ℕ
second_of t = t % 86_400_000_000 / 1_000_000

abbrev pub fraction : ℕ → Text
fraction us = if us == 0 then [] else b'.' ∷ padded 6 us

unfoldable pub isoformat : ℕ → Text
unfolding padded
isoformat t =
    let month = month_of (day_of t) in
    let second = second_of t in
    padded 4 (month / 12 + 1)
    ++ (b'-'
        ∷ (padded 2 (month % 12 + 1)
            ++ (b'-'
                ∷ (padded 2 (day_of t - first_day month + 1)
                    ++ (b'T'
                        ∷ (padded 2 (second / 3600)
                            ++ (b':'
                                ∷ (padded 2 (second / 60 % 60)
                                    ++ (b':'
                                        ∷ (padded 2 (second % 60)
                                            ++ (fraction (t % 1_000_000)
                                                ++ codes "+00:00")))))))))))

whole_second : isoformat 63_839_664_000_000_000 ≡ codes "2024-01-01T00:00:00+00:00"
unfolding isoformat month_of first_day
whole_second = refl
