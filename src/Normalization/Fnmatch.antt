-- ===== src/Normalization/Fnmatch.antt =====
-- `fnmatch.fnmatch` of Python, with which app/normalization/deployments.py reads configured patterns.
pub mod Words
use adept_engine.Base.{
  ℕ, zero, suc, ◌≡◌, refl, Bool, true, false, ◌&&◌, ◌||◌, not, Option, none, some, List, [], ◌∷◌,
  arith, Text, codes, ◌==◌, leb, ltb, if◌then◌else◌, length, keep,
}

-- A piece of a character set: one character, or a range.
pub data Token : Type 0 where
  single : ℕ → Token
  range : ℕ → ℕ → Token

pub data Item : Type 0 where
  star any_char : Item
  literal : ℕ → Item
  char_set : Bool → List Token → Item

prepend : ℕ → Option (Text × Text) → Option (Text × Text)
prepend c none = none
prepend c (some (body, rest)) = some (c ∷ body, rest)

until_bracket : Text → Option (Text × Text)
unfolding prepend
until_bracket [] = none
until_bracket (c ∷ s) =
    let rest = until_bracket s in if c == b']' then some ([], s) else prepend c rest

-- A `]` that stands first is a member of the set.
after_bang : Text → Option (Text × Text)
unfolding until_bracket prepend
after_bang [] = none
after_bang (c ∷ s) = if c == b']' then prepend c (until_bracket s) else until_bracket (c ∷ s)

-- The text between the brackets and what follows them; `none` where no bracket closes.
set_body : Text → Option (Text × Text)
unfolding after_bang prepend
set_body [] = none
set_body (c ∷ s) = if c == b'!' then prepend c (after_bang s) else after_bang (c ∷ s)

tokens : Text → List Token
tokens (a ∷ d ∷ b ∷ rest) =
    let ranged = range a b ∷ tokens rest in
    let alone = single a ∷ tokens (d ∷ b ∷ rest) in if d == b'-' then ranged else alone
tokens (a ∷ rest) = single a ∷ tokens rest
tokens [] = []

-- A leading `!` is no end of a range.
body_tokens : Text → List Token
unfolding tokens
body_tokens [] = []
body_tokens (c ∷ s) = if c == b'!' then single c ∷ tokens s else tokens (c ∷ s)

is_possible : Token → Bool
is_possible (single c) = true
is_possible (range lo hi) = leb lo hi

-- What is left once the empty ranges are gone decides on the negation.
negated : List Token → Item
negated [] = char_set false []
negated (single c ∷ ts) = if c == b'!' then char_set true ts else char_set false (single c ∷ ts)
negated (range lo hi ∷ ts) =
    if lo == b'!'
    then char_set true (single b'-' ∷ single hi ∷ ts)
    else char_set false (range lo hi ∷ ts)

-- The item that begins a pattern, and how many characters of the rest belong to it.
bracketed : Option (Text × Text) → Item × ℕ
unfolding negated body_tokens is_possible
bracketed none = (literal b'[', 0)
bracketed (some (body, rest)) = (negated (keep is_possible (body_tokens body)), suc (length body))

first_item : ℕ → Text → Item × ℕ
unfolding bracketed set_body
first_item c pat =
    if c == b'*'
    then (star, 0)
    else if c == b'?'
    then (any_char, 0)
    else if c == b'['
    then bracketed (set_body pat)
    else (literal c, 0)

-- The items of a pattern, where `skip` characters of it are still part of the last one.
translate_from : ℕ → Text → List Item
unfolding first_item
translate_from skip [] = []
translate_from (suc skip) (c ∷ pat) = translate_from skip pat
translate_from zero (c ∷ pat) =
    let (item, skip) = first_item c pat in item ∷ translate_from skip pat

unfoldable pub translate : Text → List Item
unfolding translate_from
translate pat = translate_from 0 pat

in_token : Token → ℕ → Bool
in_token (single x) c = x == c
in_token (range lo hi) c = leb lo c && leb c hi

in_tokens : List Token → ℕ → Bool
unfolding in_token
in_tokens [] c = false
in_tokens (t ∷ ts) c = in_token t c || in_tokens ts c

-- One character of the text against an item that is no star.
accepts : Item → ℕ → Bool
unfolding in_tokens
accepts star c = false
accepts any_char c = true
accepts (literal x) c = x == c
accepts (char_set negate ts) c = if negate then not (in_tokens ts c) else in_tokens ts c

-- Some end of the text passes a test.
unfoldable pub some_end : (Text → Bool) → Text → Bool
some_end p [] = p []
some_end p (c ∷ s) = p (c ∷ s) || some_end p s

one_char : Item → (Text → Bool) → Text → Bool
unfolding accepts
one_char i p [] = false
one_char i p (c ∷ s) = accepts i c && p s

is_empty : Text → Bool
is_empty [] = true
is_empty (c ∷ s) = false

unfoldable pub matches_items : List Item → Text → Bool
unfolding some_end one_char is_empty
matches_items [] s = is_empty s
matches_items (star ∷ p) s = some_end (matches_items p) s
matches_items (any_char ∷ p) s = one_char any_char (matches_items p) s
matches_items (literal c ∷ p) s = one_char (literal c) (matches_items p) s
matches_items (char_set negate ts ∷ p) s = one_char (char_set negate ts) (matches_items p) s

-- `fnmatch.fnmatch(name, pattern)`, on a system whose paths keep their case
unfoldable pub fnmatch : Text → Text → Bool
unfolding translate matches_items
fnmatch name pattern_text = matches_items (translate pattern_text) name

-- Sets, negations and the end of a text.
sets_match : fnmatch (codes "v1.2-rc") (codes "v[0-9].[!x]*rc") ≡ true
unfolding fnmatch
sets_match = refl

empty_range : fnmatch (codes "a") (codes "[z-b]") ≡ false
unfolding fnmatch
empty_range = refl

unclosed : fnmatch (codes "[a") (codes "[a") ≡ true
unfolding fnmatch
unclosed = refl
