-- ===== src/Normalization/Fnmatch/Words.antt =====
-- Patterns without special characters, and patterns that look for a word, against what they mean.
use adept_engine.Base.{
  ℕ, ◌≡◌, refl, ap, ◌↔◌, inl, inr, Bool, true, false, List, [], ◌∷◌, ◌++◌, arith, Text, ◌==◌, ◌∙◌,
  Bool-cases, All, ==_iff, &&-true,
}
use adept_engine.Normalization.Fnmatch.{
  Item, star, literal, some_end, matches_items, translate, fnmatch,
}

-- `w in s`
abbrev pub Contains : Text → Text → Type 0
Contains w s = (before : Text) × (behind : Text) × (s ≡ before ++ (w ++ behind))

abbrev pub IsOrdinary : ℕ → Type 0
IsOrdinary c = ((c == b'*') ≡ false) × ((c == b'?') ≡ false) × ((c == b'[') ≡ false)

-- A text that is a pattern for itself.
abbrev pub IsPlain : Text → Type 0
IsPlain = All IsOrdinary

abbrev word_then : Text → List Item → List Item
word_then [] p = p
word_then (c ∷ w) p = literal c ∷ word_then w p

word_then_sound :
    (w : Text) (p : List Item) (s : Text)
    → matches_items (word_then w p) s ≡ true
    → (rest : Text) × (s ≡ w ++ rest) × (matches_items p rest ≡ true)
unfolding matches_items
word_then_sound [] p s h = (s, refl, h)
word_then_sound (c ∷ w) p [] h = absurd (ground arith)
word_then_sound (c ∷ w) p (d ∷ s) h =
    let (e, m) = &&-true (c == d) _ h in
    let (rest, t, k) = word_then_sound w p s m in
    let q : c ≡ d = (==_iff c d).0 e in (rest, rw (q, t) refl, k)

word_then_complete :
    (w : Text) (p : List Item) (rest : Text)
    → matches_items p rest ≡ true
    → matches_items (word_then w p) (w ++ rest) ≡ true
unfolding matches_items
word_then_complete [] p rest h = h
word_then_complete (c ∷ w) p rest h = rw (word_then_complete w p rest h) (ground arith)

some_end_sound :
    (p : Text → Bool) (s : Text)
    → some_end p s ≡ true
    → (before : Text) × (rest : Text) × (s ≡ before ++ rest) × (p rest ≡ true)
unfolding some_end
some_end_sound p [] h = ([], [], refl, h)
some_end_sound p (c ∷ s) h = elim (Bool-cases (p (c ∷ s))) [
  | inl e ↦ ([], c ∷ s, refl, e)
  | inr e ↦
      let (before, rest, t, k) = some_end_sound p s (rw e at h) in
      (c ∷ before, rest, ap (λ l. c ∷ l) t, k)
]

some_end_complete :
    (p : Text → Bool) (before rest : Text) → p rest ≡ true → some_end p (before ++ rest) ≡ true
unfolding some_end
some_end_complete p [] [] h = h
some_end_complete p [] (c ∷ s) h = rw h refl
some_end_complete p (c ∷ before) rest h = rw (some_end_complete p before rest h) (ground arith)

star_matches : (s : Text) → matches_items (star ∷ []) s ≡ true
unfolding matches_items some_end
star_matches [] = refl
star_matches (c ∷ s) = star_matches s

-- A word between two stars matches the texts that contain it.
pub word_iff :
    (w s : Text) → (matches_items (star ∷ word_then w (star ∷ [])) s ≡ true) ↔ Contains w s
unfolding matches_items
word_iff w s = (
  λ h.
      let (before, rest, t, k) = some_end_sound (matches_items (word_then w (star ∷ []))) s h in
      let (behind, u, _) = word_then_sound w (star ∷ []) rest k in
      (before, behind, t ∙ ap (λ l. before ++ l) u),
  λ (before, behind, t). rw t (
      some_end_complete (matches_items (word_then w (star ∷ []))) before (w ++ behind)
        (word_then_complete w (star ∷ []) behind (star_matches behind))),
)

translate_plain : (w : Text) → IsPlain w → translate w ≡ word_then w []
unfolding translate
translate_plain [] h = refl
translate_plain (c ∷ w) h =
    let (star_no, any_no, set_no) = h.0 in
    rw (star_no, any_no, set_no) (ap (λ l. literal c ∷ l) (translate_plain w h.1))

exact_sound : (w s : Text) → matches_items (word_then w []) s ≡ true → s ≡ w
unfolding matches_items
exact_sound [] [] h = refl
exact_sound [] (c ∷ s) h = absurd (ground arith)
exact_sound (c ∷ w) [] h = absurd (ground arith)
exact_sound (c ∷ w) (d ∷ s) h =
    let (e, m) = &&-true (c == d) _ h in
    let q : c ≡ d = (==_iff c d).0 e in rw (q, exact_sound w s m) refl

exact_complete : (w : Text) → matches_items (word_then w []) w ≡ true
unfolding matches_items
exact_complete [] = refl
exact_complete (c ∷ w) = rw (exact_complete w) (ground arith)

-- A plain text matches itself only.
pub fnmatch_plain : (w s : Text) → IsPlain w → (fnmatch s w ≡ true) ↔ (s ≡ w)
unfolding fnmatch
fnmatch_plain w s h = rw (translate_plain w h) (exact_sound w s, λ e. rw e (exact_complete w))
