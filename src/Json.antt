-- ===== src/Json.antt =====
-- internal/gateway/util.go, openai.go, copilot_http.go and backend.go: dynamically typed JSON values
-- (Go's `any`) and the helpers on them. A number is given by what `int(v)` keeps of it and by the
-- text that it prints as.
pub mod Print
pub mod Parse
pub mod Coerce
pub mod Tools
use ghcp_pool_go.Base.{
  ℕ, zero, suc, ◌+◌, ◌-◌, ◌*◌, ◌^◌, leb, ltb, ◌==◌, not, ◌&&◌, ◌||◌, pos, negsuc, is_empty, Bool,
  true, false, Option, none, some, List, [], ◌∷◌, if◌then◌else◌, ℤ, Text, text, text_eq,
}

-- `maps` is Go's []map[string]any, which a type switch tells from []any.
mutual
  pub data Value : Type 0 where
    null : Value
    boolean : Bool → Value
    number : ℤ → Text → Value
    string : Text → Value
    array : Items → Value
    object : Fields → Value
    maps : Maps → Value

  pub data Items : Type 0 where
    no_items : Items
    item : Value → Items → Items

  pub data Fields : Type 0 where
    no_fields : Fields
    field : Text → Value → Fields → Fields

  pub data Maps : Type 0 where
    no_maps : Maps
    a_map : Fields → Maps → Maps

-- `m[key]`, which is nil where the key is missing.
unfoldable pub get : Text → Fields → Value
unfolding text_eq
get k no_fields = null
get k (field j v m) = if text_eq j k then v else get k m

unfoldable pub has_key : Text → Fields → Bool
unfolding text_eq
has_key k no_fields = false
has_key k (field j v m) = if text_eq j k then true else has_key k m

-- `m[key] = v`
unfoldable pub set_field : Text → Value → Fields → Fields
unfolding text_eq
set_field k v no_fields = field k v no_fields
set_field k v (field j w m) = if text_eq j k then field k v m else field j w (set_field k v m)

abbrev pub is_null : Value → Bool
is_null null = true
is_null v = false

abbrev pub is_object : Value → Bool
is_object (object m) = true
is_object v = false

-- `len(m) == 0`
abbrev pub is_bare : Fields → Bool
is_bare no_fields = true
is_bare (field k v m) = false

-- `s, _ := v.(string)`
abbrev pub string_or_empty : Value → Text
string_or_empty (string s) = s
string_or_empty v = []

unfoldable pub string_param : Fields → Text → Text
unfolding get
string_param params key = string_or_empty (get key params)

-- The nil map is `none`.
abbrev pub any_map : Value → Option Fields
any_map (object m) = some m
any_map v = none

-- A lookup in a map that may be nil.
unfoldable pub get_in : Text → Option Fields → Value
unfolding get
get_in k none = null
get_in k (some m) = get k m

unfoldable pub option_value : Option Fields → Text → Value → Value
unfolding get
option_value none key fallback = fallback
option_value (some m) key fallback = let v = get key m in if is_null v then fallback else v

unfoldable pub first_any : List Value → Value
first_any [] = null
first_any (value ∷ values) = if is_null value then first_any values else value

abbrev pub items_of : Maps → Items
items_of no_maps = no_items
items_of (a_map m rest) = item (object m) (items_of rest)

unfoldable pub any_slice : Value → Items
any_slice (array items) = items
any_slice (maps ms) = items_of ms
any_slice v = no_items

abbrev pub maps_list : Maps → List Fields
maps_list no_maps = []
maps_list (a_map m rest) = m ∷ maps_list rest

-- `tools, _ := v.([]map[string]any)`
abbrev pub maps_of : Value → List Fields
maps_of (maps ms) = maps_list ms
maps_of v = []

abbrev pub is_digit : ℕ → Bool
is_digit c = leb b'0' c && leb c b'9'

unfoldable pub is_digits : Text → Bool
is_digits [] = true
is_digits (c ∷ s) = if is_digit c then is_digits s else false

-- The number that the digits spell after those read so far.
unfoldable pub digits_value : ℕ → Text → ℕ
digits_value n [] = n
digits_value n (c ∷ s) = digits_value (10 * n + (c - b'0')) s

abbrev pub negated : ℕ → ℤ
negated zero = pos 0
negated (suc n) = negsuc n

-- strconv.Atoi on a sign and a text: digits only, at least one, within 64 bits.
abbrev number_of : Bool → Text → Option ℤ
number_of minus digits =
    let n = digits_value 0 digits in
    if is_empty digits || not (is_digits digits) || not (ltb n (2 ^ 63 + (if minus then 1 else 0)))
    then none
    else some (if minus then negated n else pos n)

unfoldable pub atoi : Text → Option ℤ
unfolding is_digits digits_value
atoi [] = none
atoi (c ∷ s) =
    if c == b'-'
    then number_of true s
    else if c == b'+'
    then number_of false s
    else number_of false (c ∷ s)

-- The printed form of a value of another type is no number.
unfoldable pub int_from_any : Value → ℤ → ℤ
unfolding atoi
int_from_any (number n t) fallback = n
int_from_any (string s) fallback = elim (atoi s) [ some n ↦ n | none ↦ fallback ]
int_from_any v fallback = fallback

unfoldable pub forced_tool_name : Value → Text
unfolding get text string_param
forced_tool_name (object m) = elim (get (text "name") m) [
  | string name ↦ name
  | other ↦ elim (get (text "function") m) [
    | object fn ↦ string_param fn (text "name")
    | not_a_map ↦ []
  ]
]
forced_tool_name v = []
