-- ===== src/Values/Json.antt =====
-- A decoded JSON value, as `job.payload` holds them (app/db/models.py). A number is kept as the
-- text that `str` gives, with the test whether it is zero.
use adept_engine.Base.{Bool, true, false, not, Text, same, [], Option, none, some, codes}

mutual
  pub data Json : Type 0 where
    null : Json
    boolean : Bool → Json
    number : Bool → Text → Json
    string : Text → Json
    array : Items → Json
    object : Fields → Json

  pub data Items : Type 0 where
    end_items : Items
    item : Json → Items → Items

  pub data Fields : Type 0 where
    end_fields : Fields
    field : Text → Json → Fields → Fields

-- `bool(value)`
abbrev pub is_true : Json → Bool
is_true Json.null = false
is_true (Json.boolean b) = b
is_true (Json.number is_zero repr) = not is_zero
is_true (Json.string []) = false
is_true (Json.string s) = true
is_true (Json.array end_items) = false
is_true (Json.array xs) = true
is_true (Json.object end_fields) = false
is_true (Json.object fs) = true

-- `payload.get(key)`: a missing key and a JSON null are both `None`.
unfoldable pub get : Text → Fields → Json
unfolding same
get key end_fields = Json.null
get key (field k v fs) = let rest = get key fs in elim (same k key) [ true ↦ v | false ↦ rest ]

-- `a or b`
abbrev pub or_else : Json → Json → Json
or_else a b = elim (is_true a) [ true ↦ a | false ↦ b ]

-- `value -> key` and `value ->> key` of PostgreSQL; the texts that the program reads so are no lists
-- and no objects.
abbrev pub arrow : Text → Json → Json
arrow key (Json.object fs) = get key fs
arrow key _ = Json.null

abbrev pub as_text : Json → Option Text
as_text (Json.string s) = some s
as_text (Json.number is_zero repr) = some repr
as_text (Json.boolean true) = some (codes "true")
as_text (Json.boolean false) = some (codes "false")
as_text _ = none
