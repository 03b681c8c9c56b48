-- ===== src/Metrics/Buckets/Index.antt =====
-- Which of the buckets of app/metrics/calculator.py are affected, and which
-- `candidates[first:last]` cuts off.
use adept_engine.Base.{
  ℕ, zero, suc, ◌+◌, ◌-◌, ◌≡◌, ◌≤◌, ◌<◌, refl, ap, true, Option, none, some, List, [], ◌∷◌, arith,
  ltb, count_if, inl, inr, Bool-cases, take, drop, subst, lt→ltb, some_inj,
}
use adept_engine.Metrics.Buckets.{
  Bucket, is_affected, next_index, last_of, first_affected, last_affected, slice,
}
use adept_engine.Metrics.Buckets.Recalculation.{count_if-take-drop, count_if-take-take}
use adept_engine.Metrics.Buckets.Cover.{contains, count_none, starts-le}
use adept_engine.Metrics.Buckets.Loop.{chain}

module _ (starts : ℕ → ℕ) (grows : (i : ℕ) → starts i ≤ starts (suc i)) (to : ℕ) where
  -- The first affected bucket is the one of the period `q` that `from` lies in.
  pub first_affected-chain :
      (from until fuel i p q : ℕ)
      → i + p ≡ q
      → from ≤ until
      → from < to
      → starts q ≤ from
      → from < starts (suc q)
      → to ≤ starts (i + fuel)
      → first_affected from until (chain fuel starts to i) ≡ some p
  unfolding chain
  first_affected-chain from until zero i p q c h k b e f =
      let same : i + 0 ≡ i = omega arith in
      let f' : to ≤ starts i = subst (λ j. to ≤ starts j) same f in
      absurd (omega (arith, starts-le starts grows i q (omega arith)))
  first_affected-chain from until (suc fuel) i zero q c h k b e f =
      let same : q ≡ i = omega arith in
      let b' : starts i ≤ from = subst (λ x. starts x ≤ from) same b in
      let e' : from < starts (suc i) = subst (λ x. from < starts (suc x)) same e in
      rw (lt→ltb (starts i) to (omega arith), chain) (ground arith)
  first_affected-chain from until (suc fuel) i (suc p) q c h k b e f =
      let same : i + suc fuel ≡ suc i + fuel = omega arith in
      let rest =
        first_affected-chain from until fuel (suc i) p q (omega arith) h k b e
          (subst (λ j. to ≤ starts j) same f) in
      rw (lt→ltb (starts i) to (omega (arith, starts-le starts grows i q (omega arith))), chain)
        (rw rest (ground (arith, starts-le starts grows (suc i) q (omega arith))))

  pub count_if-take_early :
      (t fuel i j q : ℕ)
      → i + j ≡ q
      → starts q ≤ t
      → count_if (contains t) (take j (chain fuel starts to i)) ≡ 0
  unfolding chain
  count_if-take_early t fuel i zero q c h = refl
  count_if-take_early t zero i (suc j) q c h = refl
  count_if-take_early t (suc fuel) i (suc j) q c h = elim (Bool-cases (ltb (starts i) to)) [
    | inl e ↦
        rw (e, chain)
          (ground (
            arith,
            starts-le starts grows (suc i) q (omega arith),
            count_if-take_early t fuel (suc i) j q (omega arith) h,
          ))
    | inr e ↦ rw (e, chain) refl
  ]

  pub count_if-drop_late :
      (t fuel i j q : ℕ)
      → i + j ≡ q
      → t < starts q
      → count_if (contains t) (drop j (chain fuel starts to i)) ≡ 0
  unfolding chain
  count_if-drop_late t fuel i zero q c h =
      let same : q ≡ i = omega arith in
      count_none starts grows to t fuel i (subst (λ x. t < starts x) same h)
  count_if-drop_late t zero i (suc j) q c h = refl
  count_if-drop_late t (suc fuel) i (suc j) q c h = elim (Bool-cases (ltb (starts i) to)) [
    | inl e ↦ rw (e, chain) (count_if-drop_late t fuel (suc i) j q (omega arith) h)
    | inr e ↦ rw (e, chain) refl
  ]

last_of-true : (o : Option ℕ) → (j : ℕ) × (last_of o true ≡ some j)
last_of-true none = (0, refl)
last_of-true (some j) = (suc j, refl)

next_index-inv :
    (o : Option ℕ) (i : ℕ) → next_index o ≡ some i → (k : ℕ) × (o ≡ some k) × (suc k ≡ i)
next_index-inv none i e = absurd (ground arith)
next_index-inv (some k) i e = (k, refl, some_inj e)

-- The last affected bucket is not before the first one.
pub first_affected-le :
    (from until : ℕ) (bs : List Bucket) (i : ℕ)
    → first_affected from until bs ≡ some i
    → (j : ℕ) × (last_affected from until bs ≡ some j) × (i ≤ j)
first_affected-le from until [] i e = absurd (ground arith)
first_affected-le from until (b ∷ bs) i e = elim (Bool-cases (is_affected from until b)) [
  | inl a ↦
      let (j, l) = last_of-true (last_affected from until bs) in
      let first : 0 ≡ i = some_inj (rw a at e) in rw a (j, l, omega (arith, first))
  | inr a ↦
      let (k, f, same) = next_index-inv (first_affected from until bs) i (rw a at e) in
      let (j, l, h) = first_affected-le from until bs k f in
      (suc j, ap (λ o. last_of o (is_affected from until b)) l, omega (arith, same, h))
]

pub slice-once :
    (t k l : ℕ) (bs : List Bucket)
    → count_if (contains t) (take (k - 1) bs) ≡ 0
    → count_if (contains t) (drop (suc l) bs) ≡ 0
    → count_if (contains t) bs ≡ 1
    → count_if (contains t) (slice (some k) (some l) bs) ≡ 1
slice-once t k l bs early late once =
    let p = contains t in
    omega (
      arith,
      early,
      late,
      once,
      count_if-take-drop p (suc l) bs,
      count_if-take-drop p (k - 1) (take (suc l) bs),
      count_if-take-take p (k - 1) (suc l) bs,
    )
