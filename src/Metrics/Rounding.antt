-- ===== src/Metrics/Rounding.antt =====
-- Python's `round` of an exact quotient: to the nearest integer, and to the even one of two.
use native.Mathlib.Nat.{div-add-mod, mod-lt}
use native.Mathlib.Decide.{dec_lt}
use adept_engine.Base.{
  ℕ, ◌+◌, ◌*◌, ◌/◌, ◌%◌, ◌≡◌, ◌≤◌, ◌<◌, arith, ltb, ◌==◌, if◌then◌else◌, ap, sym, subst,
}

-- The choice between `q` and `q + 1` for the remainder `r`.
abbrev choose : ℕ → ℕ → ℕ → ℕ
choose q r d =
    if ltb (2 * r) d then q else if ltb d (2 * r) then q + 1 else if q % 2 == 0 then q else q + 1

-- `n / d`, rounded.
unfoldable pub round_div : ℕ → ℕ → ℕ
round_div n d = choose (n / d) (n % d) d

choose_bounds : (q r d : ℕ) → (q ≤ choose q r d) × (choose q r d ≤ q + 1)
choose_bounds q r d = ground arith

choose_mono : (q r s d : ℕ) → r ≤ s → choose q r d ≤ choose q s d
choose_mono q r s d h = ground arith

div_mono : (m n d : ℕ) → 0 < d → m ≤ n → m / d ≤ n / d
div_mono m n d p h = grind (arith, div-add-mod m d, div-add-mod n d, mod-lt m p, mod-lt n p)

-- Rounding keeps the order of two quotients by one number.
pub round_div_mono : (m n d : ℕ) → 0 < d → m ≤ n → round_div m d ≤ round_div n d
unfolding round_div
round_div_mono m n d p h = elim (dec_lt (m / d) (n / d)) [
  | yes l ↦ omega (arith, choose_bounds (m / d) (m % d) d, choose_bounds (n / d) (n % d) d)
  | no e ↦
      let same : m / d ≡ n / d = omega (arith, div_mono m n d p h) in
      let less : m % d ≤ n % d =
        omega (arith, div-add-mod m d, div-add-mod n d, ap (λ (k : ℕ). d * k) same) in
      subst (λ q. choose q (m % d) d ≤ choose (n / d) (n % d) d) (sym same)
        (choose_mono (n / d) (m % d) (n % d) d less)
]
