-- ===== src/Base/Upsert.antt =====
-- `INSERT ... ON CONFLICT (key) DO UPDATE` on a table as a list of rows. `same` says when two rows
-- have one key, `merge old excluded` is the row that the `DO UPDATE` leaves.
use mathlib.Core.Path.{◌≡◌, refl, ◌∙◌, ap, sym}
use mathlib.Core.Bool.{Bool, true, false}
use mathlib.Core.Logic.{inl, inr}
use mathlib.Core.Option.{Option, none, some}
use mathlib.Core.List.{List, [], ◌∷◌}
use Prim.Native.Nat.{◌≤◌}
use native.Mathlib.Omega.{arith}
use adept_engine.Base.Tests.{if◌then◌else◌, Bool-cases}
use adept_engine.Base.Lists.{All, count_if}
use adept_engine.Base.Among.{Among}

module _ {ℓ} {A : Type ℓ} where
  -- The first element that passes a test.
  abbrev pub first : (A → Bool) → List A → Option A
  first p [] = none
  first p (r ∷ t) = let rest = first p t in if p r then some r else rest

  pub first-true : (p : A → Bool) (t : List A) (r : A) → first p t ≡ some r → p r ≡ true
  first-true p [] r h = absurd (ground arith)
  first-true p (x ∷ t) r h = elim (Bool-cases (p x)) [
    | inl e ↦ ground arith
    | inr e ↦ first-true p t r (rw e at h)
  ]

module _ {ℓ κ} {A : Type ℓ} where
  pub All-first :
      (P : A → Type κ) (p : A → Bool) (t : List A) (r : A) → All P t → first p t ≡ some r → P r
  All-first P p [] r h e = absurd (ground arith)
  All-first P p (x ∷ t) r h e = elim (Bool-cases (p x)) [
    | inl s ↦ ground arith
    | inr s ↦ All-first P p t r h.1 (rw s at e)
  ]

module _ {ℓ} {A : Type ℓ} (same : A → A → Bool) (merge : A → A → A) where
  -- One row of the `VALUES`.
  abbrev pub upsert_one : A → List A → List A
  upsert_one e [] = e ∷ []
  upsert_one e (r ∷ t) = let rest = upsert_one e t in if same e r then merge r e ∷ t else r ∷ rest

  -- The rows one after the other.
  abbrev pub upsert : List A → List A → List A
  upsert [] t = t
  upsert (e ∷ es) t = upsert es (upsert_one e t)

  abbrev pub merged : Option A → A → A
  merged none e = e
  merged (some r) e = merge r e

  -- What rows with their keys do to the row with the key of `x`.
  abbrev pub absorb : A → List A → Option A → Option A
  absorb x [] o = o
  absorb x (e ∷ es) o = absorb x es (if same x e then some (merged o e) else o)

-- No key stands in two rows.
abbrev pub IsUnique {ℓ} : {A : Type ℓ} → (A → A → Bool) → List A → Type ℓ
IsUnique {A} same t = (x : A) → count_if (same x) t ≤ 1

-- `same` compares keys, and an update leaves the key.
pub record IsKey {ℓ} {A : Type ℓ} (same : A → A → Bool) (merge : A → A → A) : Type ℓ where
  pub flip : (a b : A) → same a b ≡ true → same b a ≡ true
  pub agree : (a b c : A) → same a b ≡ true → same a c ≡ same b c
  pub kept : (x old e : A) → same e old ≡ true → same x (merge old e) ≡ same x old

module _ {ℓ} {A : Type ℓ} {same : A → A → Bool} {merge : A → A → A} (k : IsKey same merge) where
  pub same_right : (x e r : A) → same e r ≡ true → same x e ≡ same x r
  same_right x e r h = elim (Bool-cases (same x e)) [
    | inl s ↦ rw (k.agree x e r s, s) (sym h)
    | inr s ↦ elim (Bool-cases (same x r)) [
      | inl u ↦ absurd (ground (arith, k.agree x r e u, k.flip e r h))
      | inr u ↦ s ∙ sym u
    ]
  ]

  pub first-upsert_one :
      (x e : A) (t : List A)
      → first (same x) (upsert_one same merge e t)
        ≡ (if same x e then some (merged same merge (first (same x) t) e) else first (same x) t)
  first-upsert_one x e [] = refl
  first-upsert_one x e (r ∷ t) = elim (Bool-cases (same e r)) [
    | inl s ↦ ground (arith, k.kept x r e s, same_right x e r s)
    | inr s ↦ ground (arith, k.agree x e r, first-upsert_one x e t)
  ]

  -- A batch does to the row of each key what its rows with that key do one after the other.
  pub first-upsert :
      (x : A) (es t : List A)
      → first (same x) (upsert same merge es t) ≡ absorb same merge x es (first (same x) t)
  first-upsert x [] t = refl
  first-upsert x (e ∷ es) t =
      first-upsert x es (upsert_one same merge e t)
      ∙ ap (absorb same merge x es) (first-upsert_one x e t)

  count_if-upsert_other :
      (x e : A) (t : List A)
      → same x e ≡ false
      → count_if (same x) (upsert_one same merge e t) ≡ count_if (same x) t
  count_if-upsert_other x e [] h = ground arith
  count_if-upsert_other x e (r ∷ t) h = elim (Bool-cases (same e r)) [
    | inl s ↦ ground (arith, k.kept x r e s, same_right x e r s)
    | inr s ↦ ground (arith, count_if-upsert_other x e t h)
  ]

  count_if-upsert_one :
      (x e : A) (t : List A)
      → count_if (same x) t ≤ 1
      → count_if (same x) (upsert_one same merge e t) ≤ 1
  count_if-upsert_one x e [] h = ground arith
  count_if-upsert_one x e (r ∷ t) h = elim (Bool-cases (same e r)) [
    | inl s ↦ ground (arith, k.kept x r e s)
    | inr s ↦ ground (
      arith,
      k.agree x r e,
      k.flip e r,
      k.agree x e r,
      count_if-upsert_other x e t,
      count_if-upsert_one x e t,
    )
  ]

  -- A batch leaves no key twice.
  pub upsert-IsUnique : (es t : List A) → IsUnique same t → IsUnique same (upsert same merge es t)
  upsert-IsUnique [] t h = h
  upsert-IsUnique (e ∷ es) t h =
      upsert-IsUnique es (upsert_one same merge e t) (λ x. count_if-upsert_one x e t (h x))

module _ {ℓ κ} {A : Type ℓ} (same : A → A → Bool) (merge : A → A → A) (P : A → Type κ) where
  All-upsert_one :
      ((old e : A) → P old → P e → same e old ≡ true → P (merge old e))
      → (e : A) (t : List A) → P e
      → All P t
      → All P (upsert_one same merge e t)
  All-upsert_one step e [] p h = (p, tt)
  All-upsert_one step e (r ∷ t) p h = elim (Bool-cases (same e r)) [
    | inl s ↦ rw s (step r e h.0 p s, h.1)
    | inr s ↦ rw s (h.0, All-upsert_one step e t p h.1)
  ]

  pub All-upsert :
      ((old e : A) → P old → P e → same e old ≡ true → P (merge old e))
      → (es t : List A) → All P es
      → All P t
      → All P (upsert same merge es t)
  All-upsert step [] t p h = h
  All-upsert step (e ∷ es) t p h =
      All-upsert step es (upsert_one same merge e t) p.1 (All-upsert_one step e t p.0 h)

-- `DO NOTHING`
abbrev pub keep_old {ℓ} : {A : Type ℓ} → A → A → A
keep_old old excluded = old

module _ {ℓ κ} {A : Type ℓ} (same : A → A → Bool) where
  -- A row that stands in the table stays, where a conflict does nothing.
  pub All-upsert_keep :
      (P : A → Type κ) (es t : List A) → All P es → All P t → All P (upsert same keep_old es t)
  All-upsert_keep P es t p h = All-upsert same keep_old P (λ old e o q s. o) es t p h

module _ {A : Type 0} (same : A → A → Bool) (merge : A → A → A) (x : A) (P : A → Type 0) where
  abbrev pub IsHeld : Option A → Type 0
  IsHeld none = ⊥
  IsHeld (some a) = P a

  -- Whatever stood there, a row with the key of `x` leaves a row with `P`.
  abbrev pub Gives : A → Type 0
  Gives e = same x e ≡ true → (o : Option A) → P (merged same merge o e)

  absorb_keeps :
      (es : List A) (o : Option A) → All Gives es → IsHeld o → IsHeld (absorb same merge x es o)
  absorb_keeps [] o h d = d
  absorb_keeps (e ∷ es) o h d = elim (Bool-cases (same x e)) [
    | inl s ↦ rw s (absorb_keeps es (some (merged same merge o e)) h.1 (h.0 s o))
    | inr s ↦ rw s (absorb_keeps es o h.1 d)
  ]

  pub absorb_hits :
      (es : List A) (o : Option A) (e : A)
      → All Gives es
      → Among e es
      → same x e ≡ true
      → IsHeld (absorb same merge x es o)
  absorb_hits [] o e h m t = absurd m
  absorb_hits (y ∷ es) o e h (inl q) t =
      let s : same x y ≡ true = rw q t in
      rw s (absorb_keeps es (some (merged same merge o y)) h.1 (h.0 s o))
  absorb_hits (y ∷ es) o e h (inr m) t = elim (Bool-cases (same x y)) [
    | inl s ↦ rw s (absorb_keeps es (some (merged same merge o y)) h.1 (h.0 s o))
    | inr s ↦ rw s (absorb_hits es o e h.1 m t)
  ]
