-- ===== src/Jobs/Table.antt =====
-- The table as a list of rows, and what an SQL `UPDATE ... WHERE` does to it.

pub mod ById
pub mod Select
use adept_engine.Base.{
  subst, some_inj, ℕ, ◌≡◌, ◌≢◌, refl, ap, Bool, true, false, Option, none, some, List, [], ◌∷◌,
  arith, ◌==◌, ◌+◌, if◌then◌else◌, All, count_if, length, inl, inr, Bool-cases, suc,
}
use adept_engine.Jobs.Row.{Row}

abbrev pub Table : Type 0 → Type 0
Table J = List (Row J)

module _ {J : Type 0} where
  -- The row with an id, which is the primary key.
  abbrev pub find : ℕ → Table J → Option (Row J)
  find i [] = none
  find i (r ∷ t) = if r.id == i then some r else find i t

  abbrev pub apply_if : (Row J → Bool) → (Row J → Row J) → Row J → Row J
  apply_if p f r = if p r then f r else r

  -- `UPDATE processing_jobs SET f WHERE p`; its `rowcount` is `count_if p`.
  abbrev pub update_where : (Row J → Bool) → (Row J → Row J) → Table J → Table J
  update_where p f [] = []
  update_where p f (r ∷ t) = apply_if p f r ∷ update_where p f t

  -- No two rows have one id.
  abbrev pub UniqueIds : Table J → Type 0
  UniqueIds [] = Unit
  UniqueIds (r ∷ t) = (find r.id t ≡ none) × UniqueIds t

  -- An update that no statement of the program makes: it would change a primary key.
  abbrev pub KeepsId : (Row J → Row J) → Type 0
  KeepsId f = (r : Row J) → (f r).id ≡ r.id

module _ {J : Type 0} (p : Row J → Bool) (f : Row J → Row J) where
  -- What the row with id `i` is after an update.
  abbrev pub after : Option (Row J) → Option (Row J)
  after none = none
  after (some r) = some (apply_if p f r)

module _ {J : Type 0} (p : Row J → Bool) (f : Row J → Row J) (keeps : KeepsId f) where
  apply_if-KeepsId : KeepsId (apply_if p f)
  apply_if-KeepsId r = ground (arith, keeps r)

  pub find-update_where : (i : ℕ) (t : Table J) → find i (update_where p f t) ≡ after p f (find i t)
  find-update_where i [] = refl
  find-update_where i (r ∷ t) = ground (arith, apply_if-KeepsId r, find-update_where i t)

  pub update_where-UniqueIds : (t : Table J) → UniqueIds t → UniqueIds (update_where p f t)
  update_where-UniqueIds [] h = tt
  update_where-UniqueIds (r ∷ t) h =
      (rw apply_if-KeepsId (rw find-update_where (rw h.0)), update_where-UniqueIds t h.1)

module _ {κ} {J : Type 0} (P : Row J → Type κ) (p : Row J → Bool) (f : Row J → Row J) where
  apply_if-preserves :
      ((r : Row J) → P r → p r ≡ true → P (f r)) → (r : Row J) → P r → P (apply_if p f r)
  apply_if-preserves step r h = elim (Bool-cases (p r)) [
    | inl e ↦ rw e (step r h e)
    | inr e ↦ rw e h
  ]

  pub All-update_where_each :
      (t : Table J) → All (λ r. P (apply_if p f r)) t → All P (update_where p f t)
  All-update_where_each [] h = tt
  All-update_where_each (r ∷ t) h = (h.0, All-update_where_each t h.1)

  pub All-update_where :
      ((r : Row J) → P r → p r ≡ true → P (f r))
      → (t : Table J) → All P t
      → All P (update_where p f t)
  All-update_where step [] h = tt
  All-update_where step (r ∷ t) h = (apply_if-preserves step r h.0, All-update_where step t h.1)

module _ {J : Type 0} where
  pub find-id : (i : ℕ) (t : Table J) (r : Row J) → find i t ≡ some r → r.id ≡ i
  find-id i [] r h = ground arith
  find-id i (x ∷ t) r h = ground (arith, find-id i t r)

  pub All-find {κ} :
      (P : Row J → Type κ) (i : ℕ) (t : Table J) (r : Row J) → All P t → find i t ≡ some r → P r
  All-find P i [] r h e = absurd (ground arith)
  All-find P i (x ∷ t) r h e = elim (Bool-cases (x.id == i)) [
    | inl s ↦ subst P (some_inj (rw s at e)) h.0
    | inr s ↦ All-find P i t r h.1 (rw s at e)
  ]
