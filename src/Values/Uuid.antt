-- ===== src/Values/Uuid.antt =====
-- `uuid.UUID` and `str` of it, as the program uses them; a UUID is its 128-bit number.
use mathlib.Core.List.{reverse}
use adept_engine.Base.{
  ℕ, zero, suc, ◌+◌, ◌-◌, ◌*◌, ◌/◌, ◌%◌, ◌≡◌, refl, Bool, true, false, ◌&&◌, ◌||◌, not, Option,
  none, some, [], ◌∷◌, ◌++◌, Text, codes, ◌==◌, leb, ltb, if◌then◌else◌, keep, length, take, drop,
}
use adept_engine.Values.Json.{Json}

hex_digit : ℕ → ℕ
hex_digit d = if ltb d 10 then d + b'0' else d - 10 + b'a'

-- The last `width` hexadecimal digits of `n`.
hex : ℕ → ℕ → Text
hex zero n = []
hex (suc width) n = hex width (n / 16) ++ (hex_digit (n % 16) ∷ [])

-- `str(uuid)`
unfoldable pub uuid_text : ℕ → Text
unfolding hex hex_digit
uuid_text n =
    let s = hex 32 n in
    take 8 s
    ++ (b'-'
        ∷ (take 4 (drop 8 s)
            ++ (b'-'
                ∷ (take 4 (drop 12 s) ++ (b'-' ∷ (take 4 (drop 16 s) ++ (b'-' ∷ drop 20 s)))))))

-- `s.startswith(p)`
starts_with : Text → Text → Bool
starts_with [] s = true
starts_with (c ∷ p) [] = false
starts_with (c ∷ p) (d ∷ s) = c == d && starts_with p s

-- `s.replace(p, "")`, where `skip` characters of a match are still to be left out.
remove_from : Text → ℕ → Text → Text
remove_from p skip [] = []
remove_from p (suc skip) (c ∷ s) = remove_from p skip s
remove_from p zero (c ∷ s) =
    let kept = c ∷ remove_from p zero s in
    let gone = remove_from p (length p - 1) s in if starts_with p (c ∷ s) then gone else kept

is_brace : ℕ → Bool
is_brace c = c == b'{' || c == b'}'

drop_braces : Text → Text
drop_braces [] = []
drop_braces (c ∷ s) = let rest = drop_braces s in if is_brace c then rest else c ∷ s

hex_value : ℕ → Option ℕ
hex_value c =
    if leb b'0' c && leb c b'9'
    then some (c - b'0')
    else if leb b'a' c && leb c b'f'
    then some (c - b'a' + 10)
    else if leb b'A' c && leb c b'F'
    then some (c - b'A' + 10)
    else none

add_digit : ℕ → Option ℕ → Option ℕ
add_digit acc none = none
add_digit acc (some d) = some (acc * 16 + d)

hex_number : Option ℕ → Text → Option ℕ
hex_number acc [] = acc
hex_number none (c ∷ s) = none
hex_number (some acc) (c ∷ s) = hex_number (add_digit acc (hex_value c)) s

-- `UUID(s)`: `none` stands for the `ValueError`. Of the 32 characters that are left the program's
-- UUIDs have 32 hexadecimal digits; other spellings that `int(_, 16)` would take are refused here.
unfoldable pub parse_uuid : Text → Option ℕ
unfolding starts_with remove_from is_brace drop_braces hex_value add_digit hex_number
parse_uuid s =
    let bare = remove_from (codes "uuid:") 0 (remove_from (codes "urn:") 0 s) in
    let inner = reverse (drop_braces (reverse (drop_braces bare))) in
    let digits = keep (λ c. not (c == b'-')) inner in
    if length digits == 32 then hex_number (some 0) digits else none

-- `UUID(str(value))` of what is no text or number: `True`, `[...]` and `{...}` are never
-- 32 hexadecimal digits.
unfoldable pub uuid_of : Json → Option ℕ
unfolding parse_uuid
uuid_of (Json.string s) = parse_uuid s
uuid_of (Json.number is_zero repr) = parse_uuid repr
uuid_of _ = none

abbrev sample : ℕ
sample = 0x0123456789abcdef0011223344556677

sample_text : uuid_text sample ≡ codes "01234567-89ab-cdef-0011-223344556677"
unfolding uuid_text
sample_text = refl

sample_parsed : parse_uuid (codes "{01234567-89AB-cdef-0011-223344556677}") ≡ some sample
unfolding parse_uuid
sample_parsed = refl
