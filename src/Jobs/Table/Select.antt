-- ===== src/Jobs/Table/Select.antt =====
-- Rows picked from a table, by a test or in the order of a comparison: they are rows of it, and
-- still have distinct ids.
use adept_engine.Base.{
  ℕ, zero, suc, ◌<◌, ◌+◌, ◌≡◌, refl, ap, Bool, true, ◌&&◌, ◌||◌, none, some, [], ◌∷◌, ◌++◌, arith,
  ◌==◌, All, All-imp, count_if, keep, take, length, is_some, inl, inr, Bool-cases, ◌∙◌,
}
use adept_engine.Base.Sorting.{insert_by, sort_by}
use adept_engine.Jobs.Row.{Row}
use adept_engine.Jobs.Table.ById.{count_if-at_id}
use adept_engine.Jobs.Table.{Table, find, UniqueIds}

module _ {J : Type 0} where
  -- `r` is the row of `t` with its id.
  abbrev pub IsIn : Table J → Row J → Type 0
  IsIn t r = find r.id t ≡ some r

  -- A row of the rest is a row of the whole, if the first row has another id.
  IsIn-cons : (x : Row J) (t : Table J) (r : Row J) → find x.id t ≡ none → IsIn t r → IsIn (x ∷ t) r
  IsIn-cons x t r fresh h = ground (arith, ap (λ (i : ℕ). find i t))

  pub All-IsIn : (t : Table J) → UniqueIds t → All (IsIn t) t
  All-IsIn [] u = tt
  All-IsIn (r ∷ t) u = (ground arith, All-imp (λ x h. IsIn-cons r t x u.0 h) t (All-IsIn t u.1))

  find-keep-none :
      (p : Row J → Bool) (i : ℕ) (t : Table J) → find i t ≡ none → find i (keep p t) ≡ none
  find-keep-none p i [] h = refl
  find-keep-none p i (r ∷ t) h = ground (arith, find-keep-none p i t)

  pub find-keep :
      (p : Row J → Bool) (i : ℕ) (t : Table J) (r : Row J)
      → find i t ≡ some r
      → p r ≡ true
      → is_some (find i (keep p t)) ≡ true
  find-keep p i [] r h e = absurd (ground arith)
  find-keep p i (x ∷ t) r h e = ground (arith, find-keep p i t r)

  pub length-pos_of_find : (i : ℕ) (t : Table J) → is_some (find i t) ≡ true → 0 < length t
  length-pos_of_find i [] h = absurd (ground arith)
  length-pos_of_find i (x ∷ t) h = omega arith

  pub keep-UniqueIds : (p : Row J → Bool) (t : Table J) → UniqueIds t → UniqueIds (keep p t)
  keep-UniqueIds p [] u = tt
  keep-UniqueIds p (r ∷ t) u = elim (Bool-cases (p r)) [
    | inl e ↦ rw e (find-keep-none p r.id t u.0, keep-UniqueIds p t u.1)
    | inr e ↦ rw e (keep-UniqueIds p t u.1)
  ]

  pub length-keep : (p : Row J → Bool) (t : Table J) → length (keep p t) ≡ count_if p t
  length-keep p [] = refl
  length-keep p (r ∷ t) = ground (arith, length-keep p t)

  find-take-none : (n : ℕ) (i : ℕ) (t : Table J) → find i t ≡ none → find i (take n t) ≡ none
  find-take-none zero i t h = refl
  find-take-none (suc n) i [] h = refl
  find-take-none (suc n) i (r ∷ t) h = ground (arith, find-take-none n i t)

  pub take-UniqueIds : (n : ℕ) (t : Table J) → UniqueIds t → UniqueIds (take n t)
  take-UniqueIds zero t u = tt
  take-UniqueIds (suc n) [] u = tt
  take-UniqueIds (suc n) (r ∷ t) u = (find-take-none n r.id t u.0, take-UniqueIds n t u.1)

  pub find-append :
      (i : ℕ) (s t : Table J)
      → is_some (find i (s ++ t)) ≡ (is_some (find i s) || is_some (find i t))
  find-append i [] t = refl
  find-append i (r ∷ s) t = ground (arith, find-append i s t)

  module _ (le : Row J → Row J → Bool) where
    find-insert_by :
        (i : ℕ) (r : Row J) (t : Table J)
        → is_some (find i (insert_by le r t)) ≡ is_some (find i (r ∷ t))
    find-insert_by i r [] = refl
    find-insert_by i r (x ∷ t) = ground (arith, find-insert_by i r t)

    pub find-sort_by : (i : ℕ) (t : Table J) → is_some (find i (sort_by le t)) ≡ is_some (find i t)
    find-sort_by i [] = refl
    find-sort_by i (r ∷ t) = ground (arith, find-insert_by i r (sort_by le t), find-sort_by i t)

    insert_by-UniqueIds :
        (r : Row J) (t : Table J) → UniqueIds (r ∷ t) → UniqueIds (insert_by le r t)
    insert_by-UniqueIds r [] u = u
    insert_by-UniqueIds r (x ∷ t) u = elim (Bool-cases (le r x)) [
      | inl e ↦ rw e u
      | inr e ↦
          rw e
            (ground (arith, find-insert_by x.id r t), insert_by-UniqueIds r t (ground arith, u.1.1))
    ]

    pub sort_by-UniqueIds : (t : Table J) → UniqueIds t → UniqueIds (sort_by le t)
    sort_by-UniqueIds [] u = tt
    sort_by-UniqueIds (r ∷ t) u =
        insert_by-UniqueIds r (sort_by le t)
          (ground (arith, find-sort_by r.id t), sort_by-UniqueIds t u.1)

  -- The rows of `t` whose ids stand in `c`.
  abbrev pub picked : Table J → Row J → Bool
  picked c r = is_some (find r.id c)

  count_if-or :
      (x : Row J) (c t : Table J)
      → find x.id c ≡ none
      → count_if (picked (x ∷ c)) t ≡ count_if (λ r. r.id == x.id && true) t + count_if (picked c) t
  count_if-or x c [] h = omega arith
  count_if-or x c (r ∷ t) h = ground (arith, count_if-or x c t h)

  count_if-picked_none : (t : Table J) → count_if (picked []) t ≡ 0
  count_if-picked_none [] = refl
  count_if-picked_none (r ∷ t) = omega (arith, count_if-picked_none t)

  -- If `c` holds rows of `t` with distinct ids, as many rows of `t` have one of its ids.
  pub count_if-picked :
      (c t : Table J)
      → UniqueIds t
      → UniqueIds c
      → All (IsIn t) c
      → count_if (picked c) t ≡ length c
  count_if-picked [] t u v h = count_if-picked_none t
  count_if-picked (x ∷ c) t u v h =
      count_if-or x c t v.0
      ∙ rw (count_if-at_id (λ r. true) x.id t u)
          (rw (h.0) (omega (arith, count_if-picked c t u v.1 h.1)))
