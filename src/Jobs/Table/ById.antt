-- ===== src/Jobs/Table/ById.antt =====
-- Statements that name one primary key (`WHERE id = :job_id ...`): their row count, and the rows
-- that they leave alone.
use adept_engine.Base.{
  ℕ, ◌≡◌, ◌≢◌, refl, Bool, true, ◌&&◌, Option, none, some, [], ◌∷◌, arith, ◌==◌, if◌then◌else◌,
  count_if, inl, inr, Bool-cases, ==_iff, subst,
}
use adept_engine.Jobs.Row.{Row}
use adept_engine.Jobs.Table.{Table, find, update_where, find-update_where, KeepsId, UniqueIds}

module _ {J : Type 0} (q : Row J → Bool) (i : ℕ) where
  -- `id = i AND q`
  abbrev pub at_id : Row J → Bool
  at_id r = r.id == i && q r

  abbrev pub hits : Option (Row J) → ℕ
  hits none = 0
  hits (some r) = if q r then 1 else 0

  count_if-absent : (t : Table J) → find i t ≡ none → count_if at_id t ≡ 0
  count_if-absent [] h = refl
  count_if-absent (r ∷ t) h = ground (arith, count_if-absent t)

  pub count_if-at_id : (t : Table J) → UniqueIds t → count_if at_id t ≡ hits (find i t)
  count_if-at_id [] h = refl
  count_if-at_id (r ∷ t) h = elim (Bool-cases (r.id == i)) [
    | inl e ↦
        let absent = subst (λ k. find k t ≡ none) ((==_iff r.id i).0 e) h.0 in
        ground (arith, count_if-absent t absent)
    | inr e ↦ rw e (omega (arith, count_if-at_id t h.1))
  ]

module _ {J : Type 0} (p : Row J → Bool) (f : Row J → Row J) (keeps : KeepsId f) (i : ℕ) where
  -- An update that only touches the row `i` leaves every other row.
  pub find-update_where_ne :
      ((r : Row J) → p r ≡ true → r.id ≡ i)
      → (j : ℕ) (t : Table J) → j ≢ i
      → find j (update_where p f t) ≡ find j t
  find-update_where_ne only j [] ne = refl
  find-update_where_ne only j (r ∷ t) ne =
      ground (arith, keeps r, only r, find-update_where_ne only j t ne)

  pub find-update_where_self :
      (t : Table J) (r : Row J)
      → find i t ≡ some r
      → p r ≡ true
      → find i (update_where p f t) ≡ some (f r)
  find-update_where_self t r h e = rw (find-update_where p f keeps i t) (rw h (rw e))
