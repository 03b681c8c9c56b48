-- ===== src/Jobs/Sanitize.antt =====
-- `sanitize_error` of app/jobs/retry.py, with `str.split()` and `" ".join`.
pub mod Clean
use adept_engine.Base.{
  ℕ, ◌≡◌, refl, ap, Bool, true, false, ◌||◌, ◌&&◌, not, List, [], ◌∷◌, ◌++◌, Text, codes, arith,
  ◌==◌, leb, if◌then◌else◌, keep, take, length, ◌≤◌, length-take-le, Bool-cases, inl, inr, zero,
  suc, ◌∙◌,
}

-- `str.isspace` of one code point, the separators of `str.split()`.
unfoldable pub is_space : ℕ → Bool
is_space c =
    (leb 9 c && leb c 13)
    || (leb 28 c && leb c 32)
    || c == 133
    || c == 160
    || c == 5760
    || (leb 8192 c && leb c 8202)
    || c == 8232
    || c == 8233
    || c == 8239
    || c == 8287
    || c == 12288

abbrev flush : Text → List Text → List Text
flush [] ws = ws
flush (c ∷ w) ws = (c ∷ w) ∷ ws

-- The words that are left, `cur` being the part of the present word that is read.
split_from : Text → Text → List Text
split_from cur [] = flush cur []
split_from cur (c ∷ s) =
    let closed = flush cur (split_from [] s) in
    let grown = split_from (cur ++ c ∷ []) s in if is_space c then closed else grown

-- `s.split()`
pub split : Text → List Text
unfolding split_from is_space
split s = split_from [] s

-- `" ".join(ws)`
pub join_space : List Text → Text
join_space [] = []
join_space (w ∷ []) = w
join_space (w ∷ v ∷ ws) = w ++ (b' ' ∷ join_space (v ∷ ws))

unfoldable pub sanitize_error : Text → Text
unfolding split join_space
sanitize_error error = take 2000 (join_space (split error))

sanitize_two_lines : sanitize_error (codes " a\n\t bc  d ") ≡ codes "a bc d"
unfolding sanitize_error
sanitize_two_lines = refl
