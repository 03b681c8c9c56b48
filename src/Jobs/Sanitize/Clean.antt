-- ===== src/Jobs/Sanitize/Clean.antt =====
-- What `sanitize_error` leaves of an error text (app/jobs/retry.py).
use adept_engine.Base.{
  ℕ, ◌≡◌, ◌≢◌, refl, ap, Bool, true, false, not, List, [], ◌∷◌, ◌++◌, Text, arith, if◌then◌else◌,
  keep, take, length, ◌≤◌, length-take-le, Bool-cases, inl, inr, zero, suc, ◌∙◌, All, All-append,
  sym, subst,
}
use adept_engine.Jobs.Sanitize.{is_space, flush, split_from, split, join_space, sanitize_error}
use mathlib.Core.List.{append_assoc, append-nil}

-- No blank first or after a blank, and no whitespace but the blank. `start` says that nothing, or
-- a blank, stands before.
abbrev pub IsClean : Bool → Text → Type 0
IsClean start [] = Unit
IsClean start (c ∷ s) =
    if is_space c then (start ≡ false) × (c ≡ 32) × IsClean true s else IsClean false s

abbrev pub visible : Text → Text
visible = keep (λ c. not (is_space c))

abbrev IsWord : Text → Type 0
IsWord w = (w ≢ []) × All (λ c. is_space c ≡ false) w

abbrev IsSolid : Text → Type 0
IsSolid = All (λ c. is_space c ≡ false)

flush-words : (w : Text) (ws : List Text) → IsSolid w → All IsWord ws → All IsWord (flush w ws)
flush-words [] ws h k = k
flush-words (c ∷ w) ws h k = (((λ e. cc), h), k)

IsSolid-snoc : (w : Text) (c : ℕ) → IsSolid w → is_space c ≡ false → IsSolid (w ++ c ∷ [])
IsSolid-snoc w c h e = All-append (λ c. is_space c ≡ false) w (c ∷ []) h (e, tt)

split_from-words : (cur s : Text) → IsSolid cur → All IsWord (split_from cur s)
unfolding split_from
split_from-words cur [] h = flush-words cur [] h tt
split_from-words cur (c ∷ s) h = elim (Bool-cases (is_space c)) [
  | inl e ↦ rw e (flush-words cur (split_from [] s) h (split_from-words [] s tt))
  | inr e ↦ rw e (split_from-words (cur ++ c ∷ []) s (IsSolid-snoc cur c h e))
]

IsClean-word :
    (start : Bool) (w rest : Text) → IsWord w → IsClean false rest → IsClean start (w ++ rest)
IsClean-word start [] rest h k = absurd (h.0 refl)
IsClean-word start (c ∷ []) rest h k = rw (h.1.0) k
IsClean-word start (c ∷ d ∷ w) rest h k =
    rw (h.1.0) (IsClean-word false (d ∷ w) rest ((λ e. cc), h.1.1) k)

is_space-blank : is_space 32 ≡ true
unfolding is_space
is_space-blank = refl

IsClean-join_space : (start : Bool) (ws : List Text) → All IsWord ws → IsClean start (join_space ws)
unfolding join_space
IsClean-join_space start [] h = tt
IsClean-join_space start (w ∷ []) h =
    subst (IsClean start) (append-nil w) (IsClean-word start w [] h.0 tt)
IsClean-join_space start (w ∷ v ∷ ws) h =
    IsClean-word start w (32 ∷ join_space (v ∷ ws)) h.0
      (rw is_space-blank (refl, refl, IsClean-join_space true (v ∷ ws) h.1))

IsClean-take : (start : Bool) (n : ℕ) (s : Text) → IsClean start s → IsClean start (take n s)
IsClean-take start zero s h = tt
IsClean-take start (suc n) [] h = tt
IsClean-take start (suc n) (c ∷ s) h = elim (Bool-cases (is_space c)) [
  | inl e ↦ let k = rw e at h in rw e (k.0, k.1, IsClean-take true n s k.2)
  | inr e ↦ rw e (IsClean-take false n s (rw e at h))
]

visible-append : (a b : Text) → visible (a ++ b) ≡ visible a ++ visible b
visible-append [] b = refl
visible-append (c ∷ a) b = ground (arith, visible-append a b)

visible-solid : (w : Text) → IsSolid w → visible w ≡ w
visible-solid [] h = refl
visible-solid (c ∷ w) h = ground (arith, visible-solid w h.1)

abbrev concat : List Text → Text
concat [] = []
concat (w ∷ ws) = w ++ concat ws

visible-blank : (s : Text) → visible (32 ∷ s) ≡ visible s
visible-blank s = rw is_space-blank

visible-join_space : (ws : List Text) → visible (join_space ws) ≡ visible (concat ws)
unfolding join_space
visible-join_space [] = refl
visible-join_space (w ∷ []) = rw append-nil
visible-join_space (w ∷ v ∷ ws) =
    visible-append w (32 ∷ join_space (v ∷ ws))
    ∙ ap (λ t. visible w ++ t) (visible-blank (join_space (v ∷ ws)) ∙ visible-join_space (v ∷ ws))
    ∙ sym (visible-append w (concat (v ∷ ws)))

concat-flush : (w : Text) (ws : List Text) → concat (flush w ws) ≡ w ++ concat ws
concat-flush [] ws = refl
concat-flush (c ∷ w) ws = refl

visible-snoc :
    (w : Text) (c : ℕ) (s : Text)
    → is_space c ≡ false
    → visible (w ++ c ∷ []) ++ visible s ≡ visible w ++ (c ∷ visible s)
visible-snoc w c s e =
    ap (λ t. t ++ visible s) (visible-append w (c ∷ []) ∙ ap (λ t. visible w ++ t) (rw e))
    ∙ append_assoc (visible w) (c ∷ []) (visible s)

visible-concat-split_from :
    (cur s : Text) → visible (concat (split_from cur s)) ≡ visible cur ++ visible s
unfolding split_from
visible-concat-split_from cur [] = rw concat-flush (visible-append cur [])
visible-concat-split_from cur (c ∷ s) = elim (Bool-cases (is_space c)) [
  | inl e ↦ rw e (
      rw concat-flush (
        visible-append cur (concat (split_from [] s))
        ∙ ap (λ t. visible cur ++ t) (visible-concat-split_from [] s)))
  | inr e ↦ rw e (visible-concat-split_from (cur ++ c ∷ []) s ∙ visible-snoc cur c s e)
]

-- The stored error text is the first 2000 characters of a text that is clean (single blanks between
-- words, none first, no other whitespace) and holds exactly the visible characters of the error.
-- What is stored is itself clean.
pub sanitize_error-IsClean :
    (error : Text)
    → (full : Text) × IsClean true full
      × (visible full ≡ visible error)
      × (sanitize_error error ≡ take 2000 full)
      × IsClean true (sanitize_error error)
      × (length (sanitize_error error) ≤ 2000)
unfolding sanitize_error split
sanitize_error-IsClean error =
    let words = split_from [] error in
    let clean = IsClean-join_space true words (split_from-words [] error tt) in
    (
      join_space words,
      clean,
      visible-join_space words ∙ visible-concat-split_from [] error,
      refl,
      IsClean-take true 2000 (join_space words) clean,
      length-take-le 2000 (join_space words),
    )
