-- ===== src/Metrics/Buckets/Loop.antt =====
-- The loop of `get_period_buckets` in app/metrics/calculator.py, where it does not come to the year 10000.
use adept_engine.Base.{
  ℕ, zero, suc, ◌+◌, ◌≡◌, ◌≤◌, refl, true, false, List, [], ◌∷◌, arith, ltb, inl, inr, Bool-cases,
  subst,
}
use adept_engine.Jobs.Errors.{JobError, ok}
use adept_engine.Metrics.Buckets.{Bucket, buckets_from}

-- The periods from `i` on that begin before `to`, `left` at most after `i`.
unfoldable pub chain : ℕ → (ℕ → ℕ) → ℕ → ℕ → List Bucket
chain zero starts to i = []
chain (suc left) starts to i = elim (ltb (starts i) to) [
  | true ↦ (starts i, starts (suc i)) ∷ chain left starts to (suc i)
  | false ↦ []
]

-- If a period that is left begins at `to` or later, the loop ends before the last one.
pub buckets_from-chain :
    (left : ℕ) (e : JobError) (starts : ℕ → ℕ) (to i : ℕ)
    → to ≤ starts (i + left)
    → buckets_from left e starts to i ≡ ok (chain left starts to i)
unfolding buckets_from chain
buckets_from-chain zero e starts to i h =
    let same : i + 0 ≡ i = omega arith in
    let h' : to ≤ starts i = subst (λ k. to ≤ starts k) same h in
    let f : ltb (starts i) to ≡ false = ground arith in rw f refl
buckets_from-chain (suc left) e starts to i h =
    let same : i + suc left ≡ suc i + left = omega arith in
    elim (Bool-cases (ltb (starts i) to)) [
      | inl f ↦
          rw (f, buckets_from, chain)
            (rw (buckets_from-chain left e starts to (suc i) (subst (λ k. to ≤ starts k) same h))
              refl)
      | inr f ↦ rw (f, buckets_from, chain) refl
    ]
