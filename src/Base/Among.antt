-- ===== src/Base/Among.antt =====
-- Membership in a list, by recursion, and what keeping and mapping do to it.
use mathlib.Core.Path.{◌≡◌, refl, ap, subst}
use mathlib.Core.Bool.{Bool, true, false}
use mathlib.Core.Logic.{◌⊎◌, inl, inr}
use mathlib.Core.List.{List, [], ◌∷◌, ◌++◌, map}
use native.Mathlib.Omega.{arith}
use adept_engine.Base.Tests.{Bool-cases}
use adept_engine.Base.Lists.{All, All-imp, keep}

pub true≢false_of : {b : Bool} → b ≡ true → b ≡ false → ⊥
true≢false_of h k = ground arith

module _ {A : Type 0} where
  abbrev pub Among : A → List A → Type 0
  Among a [] = ⊥
  Among a (x ∷ xs) = (x ≡ a) ⊎ Among a xs

  pub All-Among {κ} : (P : A → Type κ) (a : A) (xs : List A) → All P xs → Among a xs → P a
  All-Among P a [] h m = absurd m
  All-Among P a (x ∷ xs) h (inl q) = subst P q h.0
  All-Among P a (x ∷ xs) h (inr m) = All-Among P a xs h.1 m

  pub All-keep {κ} : (P : A → Type κ) (p : A → Bool) (xs : List A) → All P xs → All P (keep p xs)
  All-keep P p [] h = tt
  All-keep P p (x ∷ xs) h = elim (Bool-cases (p x)) [
    | inl e ↦ rw e (h.0, All-keep P p xs h.1)
    | inr e ↦ rw e (All-keep P p xs h.1)
  ]

  -- What is kept passes the test.
  pub All-keep_test : (p : A → Bool) (xs : List A) → All (λ x. p x ≡ true) (keep p xs)
  All-keep_test p [] = tt
  All-keep_test p (x ∷ xs) = elim (Bool-cases (p x)) [
    | inl e ↦ rw e (e, All-keep_test p xs)
    | inr e ↦ rw e (All-keep_test p xs)
  ]

  pub Among-keep :
      (p : A → Bool) (a : A) (xs : List A) → Among a xs → p a ≡ true → Among a (keep p xs)
  Among-keep p a [] m h = absurd m
  Among-keep p a (x ∷ xs) (inl q) h = rw q (rw h (inl refl))
  Among-keep p a (x ∷ xs) (inr m) h = elim (Bool-cases (p x)) [
    | inl e ↦ rw e (inr (Among-keep p a xs m h))
    | inr e ↦ rw e (Among-keep p a xs m h)
  ]

module _ {A B : Type 0} where
  pub Among-map : (f : A → B) (a : A) (xs : List A) → Among a xs → Among (f a) (map f xs)
  Among-map f a [] m = absurd m
  Among-map f a (x ∷ xs) (inl q) = inl (ap f q)
  Among-map f a (x ∷ xs) (inr m) = inr (Among-map f a xs m)

pub Among-self : {A : Type 0} (xs : List A) → All (λ x. Among x xs) xs
Among-self [] = tt
Among-self (x ∷ xs) = (inl refl, All-imp (λ y m. inr m) xs (Among-self xs))

pub Among-append_left : {A : Type 0} (a : A) (xs ys : List A) → Among a xs → Among a (xs ++ ys)
Among-append_left a [] ys m = absurd m
Among-append_left a (x ∷ xs) ys (inl q) = inl q
Among-append_left a (x ∷ xs) ys (inr m) = inr (Among-append_left a xs ys m)

pub Among-append_right : {A : Type 0} (a : A) (xs ys : List A) → Among a ys → Among a (xs ++ ys)
Among-append_right a [] ys m = m
Among-append_right a (x ∷ xs) ys m = inr (Among-append_right a xs ys m)
