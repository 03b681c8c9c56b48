-- ===== src/Risk/Matching.antt =====
-- The two regular expressions of app/risk/outcomes.py, by the ways in which Python's `re` tries them:
-- a matcher gives the ends of its matches at one place, the preferred one first. `\w`, `\d` and the
-- letters that case is ignored of are those of ASCII; `\s` is Unicode's.
use adept_engine.Base.{
  ℕ, zero, suc, ◌+◌, ◌-◌, ◌*◌, ◌/◌, ◌%◌, ◌≡◌, refl, Bool, true, false, ◌&&◌, ◌||◌, not, Option,
  none, some, List, [], ◌∷◌, ◌++◌, Text, codes, ◌==◌, leb, ltb, if◌then◌else◌,
}
use adept_engine.Jobs.Sanitize.{is_space}

-- A place in a text: the character before it, the rest, and the number that the group holds.
pub record Cursor : Type 0 where
  pub before : Option ℕ
  pub rest : Text
  pub group : Option ℕ

abbrev pub Matcher : Type 0
Matcher = Cursor → List Cursor

is_digit : ℕ → Bool
is_digit c = leb b'0' c && leb c b'9'

is_word : ℕ → Bool
unfolding is_digit
is_word c = is_digit c || c == b'_' || (leb b'a' c && leb c b'z') || (leb b'A' c && leb c b'Z')

lower : ℕ → ℕ
lower c = if leb b'A' c && leb c b'Z' then c + 32 else c

each : Matcher → List Cursor → List Cursor
each m [] = []
each m (c ∷ cs) = m c ++ each m cs

-- `mn`, `m|n` and `m?`
then_match : Matcher → Matcher → Matcher
unfolding each
then_match m n c = each n (m c)

or_match : Matcher → Matcher → Matcher
or_match m n c = m c ++ n c

maybe : Matcher → Matcher
maybe m c = m c ++ (c ∷ [])

-- A word, written in small letters.
word_at : Text → Option ℕ → Text → Option ℕ → List Cursor
unfolding lower
word_at [] before rest group = record { before = before; rest = rest; group = group } ∷ []
word_at (w ∷ ws) before [] group = []
word_at (w ∷ ws) before (c ∷ rest) group =
    let later = word_at ws (some c) rest group in if lower c == w then later else []

word : Text → Matcher
unfolding word_at
word w c = word_at w c.before c.rest c.group

-- `\s*`, the longest first, and `\s+`
spaces_at : Option ℕ → Text → Option ℕ → List Cursor
spaces_at before [] group = record { before = before; rest = []; group = group } ∷ []
spaces_at before (c ∷ rest) group =
    let later = spaces_at (some c) rest group in
    let here : List Cursor = record { before = before; rest = c ∷ rest; group = group } ∷ [] in
    if is_space c then later ++ here else here

any_spaces : Matcher
unfolding spaces_at
any_spaces c = spaces_at c.before c.rest c.group

spaces_after : Text → Option ℕ → List Cursor
unfolding spaces_at is_space
spaces_after [] group = []
spaces_after (c ∷ rest) group = if is_space c then spaces_at (some c) rest group else []

some_spaces : Matcher
unfolding spaces_after
some_spaces c = spaces_after c.rest c.group

-- `(\d+)`, the longest first, of which the group holds the value.
digits_at : Text → ℕ → List Cursor
unfolding is_digit
digits_at [] n = []
digits_at (c ∷ rest) n =
    let value = 10 * n + (c - b'0') in
    let later = digits_at rest value in
    let here : List Cursor = record { before = some c; rest = rest; group = some value } ∷ [] in
    if is_digit c then later ++ here else []

digits : Matcher
unfolding digits_at
digits c = digits_at c.rest 0

starts_word : Text → Bool
unfolding is_word
starts_word [] = false
starts_word (c ∷ rest) = is_word c

ends_word : Option ℕ → Bool
unfolding is_word
ends_word none = false
ends_word (some c) = is_word c

differ : Bool → Bool → Bool
differ true b = not b
differ false b = b

-- `\b`
boundary : Matcher
unfolding starts_word ends_word differ
boundary c = if differ (ends_word c.before) (starts_word c.rest) then c ∷ [] else []

is_start : Option ℕ → Bool
is_start none = true
is_start (some c) = false

-- `^`
at_start : Matcher
unfolding is_start
at_start c = if is_start c.before then c ∷ [] else []

infixr 40 ◌>>>◌
abbrev ◌>>>◌ : Matcher → Matcher → Matcher
m >>> n = then_match m n

-- `_REVERT_PATTERN`
revert_pattern : Matcher
unfolding at_start word boundary some_spaces maybe digits or_match then_match
revert_pattern = or_match (at_start >>> word (codes "revert") >>> boundary) (
    or_match
      (word (codes "reverts")
        >>> some_spaces
        >>> maybe (word (codes "pr") >>> some_spaces)
        >>> maybe (word (codes "#"))
        >>> digits)
      (or_match (word (codes "reverting") >>> boundary) (word (codes "rollback") >>> boundary)))

-- `_HOTFIX_PATTERN`
hotfix_pattern : Matcher
unfolding word boundary some_spaces any_spaces maybe digits or_match then_match
hotfix_pattern =
    boundary
    >>> or_match (word (codes "hotfix")) (
        or_match (word (codes "emergency") >>> some_spaces >>> word (codes "fix"))
          (word (codes "patch")))
    >>> some_spaces
    >>> maybe
        (or_match (word (codes "for")) (or_match (word (codes "to")) (word (codes "referencing"))))
    >>> any_spaces
    >>> maybe (word (codes "pr") >>> any_spaces)
    >>> maybe (word (codes "#"))
    >>> digits
    >>> boundary

first_match : List Cursor → Option Cursor
first_match [] = none
first_match (c ∷ cs) = some c

or_cursor : Option Cursor → Option Cursor → Option Cursor
or_cursor none b = b
or_cursor (some a) b = some a

-- `pattern.search(text)`: the first place that matches.
search_from : Matcher → Option ℕ → Text → Option Cursor
unfolding first_match or_cursor
search_from m before [] = first_match (m (record { before = before; rest = []; group = none }))
search_from m before (c ∷ rest) =
    or_cursor (first_match (m (record { before = before; rest = c ∷ rest; group = none })))
      (search_from m (some c) rest)

-- The match, if any, with its group.
unfoldable pub search_revert : Text → Option Cursor
unfolding search_from revert_pattern
search_revert title = search_from revert_pattern none title

unfoldable pub search_hotfix : Text → Option Cursor
unfolding search_from hotfix_pattern
search_hotfix title = search_from hotfix_pattern none title

group_of : Option Cursor → Option (Option ℕ)
group_of none = none
group_of (some c) = some c.group

starts_with : Text → Text → Bool
starts_with [] text = true
starts_with (p ∷ ps) [] = false
starts_with (p ∷ ps) (c ∷ text) = p == c && starts_with ps text

-- `part in text`
unfoldable pub is_part : Text → Text → Bool
unfolding starts_with
is_part part [] = starts_with part []
is_part part (c ∷ text) = starts_with part (c ∷ text) || is_part part text

digits_of : ℕ → ℕ → Text
digits_of zero n = []
digits_of (suc fuel) n = elim (ltb n 10) [
  | true ↦ (b'0' + n) ∷ []
  | false ↦ digits_of fuel (n / 10) ++ ((b'0' + n % 10) ∷ [])
]

-- `str(n)`; a number has no more digits than it counts, but for 0.
unfoldable pub decimal : ℕ → Text
unfolding digits_of
decimal n = digits_of (suc n) n

reverts_twelve : group_of (search_revert (codes "This Reverts PR #12")) ≡ some (some 12)
unfolding group_of search_revert
reverts_twelve = refl

reverted : group_of (search_revert (codes "Revert: x")) ≡ some none
unfolding group_of search_revert
reverted = refl

not_a_revert : group_of (search_revert (codes "a revert")) ≡ none
unfolding group_of search_revert
not_a_revert = refl

hotfix_seven : group_of (search_hotfix (codes "Hotfix for PR7")) ≡ some (some 7)
unfolding group_of search_hotfix
hotfix_seven = refl

no_hotfix : group_of (search_hotfix (codes "patch 12a")) ≡ none
unfolding group_of search_hotfix
no_hotfix = refl

a_part : is_part (decimal 305) (codes "x 13054") ≡ true
unfolding is_part decimal
a_part = refl
