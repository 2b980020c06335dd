-- ===== src/Json/Print.antt =====
-- What Go's `fmt.Sprint` and `json.Marshal` print of a value (util.go: toJSONString).
use ghcp_pool_go.Base.{
  ℕ, ◌+◌, ◌-◌, ◌/◌, ◌%◌, ◌||◌, ◌==◌, List, [], ◌∷◌, ◌++◌, map, if◌then◌else◌, ltb, Text, text,
  sort_by, text_lt, join_by,
}
use ghcp_pool_go.Json.{
  Value, null, boolean, number, string, array, object, maps, Items, no_items, item, Fields,
  no_fields, field, Maps, no_maps, a_map,
}

abbrev hex_digit : ℕ → ℕ
hex_digit n = if ltb n 10 then b'0' + n else b'a' + n - 10

-- `\u00xx`, for a character below 256.
abbrev pub unicode_escape : ℕ → Text
unicode_escape c = b'\\' ∷ b'u' ∷ b'0' ∷ b'0' ∷ hex_digit (c / 16) ∷ hex_digit (c % 16) ∷ []

unfoldable pub escape : ℕ → Text
escape c =
    if c == b'"' || c == b'\\'
    then b'\\' ∷ c ∷ []
    else if c == 8
    then b'\\' ∷ b'b' ∷ []
    else if c == 12
    then b'\\' ∷ b'f' ∷ []
    else if c == b'\n'
    then b'\\' ∷ b'n' ∷ []
    else if c == 13
    then b'\\' ∷ b'r' ∷ []
    else if c == b'\t'
    then b'\\' ∷ b't' ∷ []
    else if ltb c 32 || c == b'<' || c == b'>' || c == b'&'
    then unicode_escape c
    else if c == 0x2028
    then text "\\u2028"
    else if c == 0x2029
    then text "\\u2029"
    else c ∷ []

unfoldable pub escaped : Text → Text
unfolding escape
escaped [] = []
escaped (c ∷ s) = escape c ++ escaped s

abbrev pub quoted : Text → Text
quoted s = b'"' ∷ escaped s ++ b'"' ∷ []

-- The entries of a map come out in the order of their keys.
abbrev in_order : List (Text × Text) → List (Text × Text)
in_order = sort_by (λ a b. text_lt a.0 b.0)

unfoldable pub json_object : List (Text × Text) → Text
json_object entries =
    b'{' ∷ join_by (text ",") (map (λ e. quoted e.0 ++ b':' ∷ e.1) (in_order entries)) ++ b'}' ∷ []

unfoldable mutual
  pub to_json : Value → Text
  to_json null = text "null"
  to_json (boolean b) = if b then text "true" else text "false"
  to_json (number n t) = t
  to_json (string s) = quoted s
  to_json (array items) = b'[' ∷ join_by (text ",") (json_items items) ++ b']' ∷ []
  to_json (object m) = json_object (json_fields m)
  to_json (maps ms) = b'[' ∷ join_by (text ",") (json_maps ms) ++ b']' ∷ []

  json_items : Items → List Text
  json_items no_items = []
  json_items (item v rest) = to_json v ∷ json_items rest

  json_fields : Fields → List (Text × Text)
  json_fields no_fields = []
  json_fields (field k v m) = (k, to_json v) ∷ json_fields m

  json_maps : Maps → List Text
  json_maps no_maps = []
  json_maps (a_map m rest) = json_object (json_fields m) ∷ json_maps rest

unfoldable pub sprint_map : List (Text × Text) → Text
sprint_map entries =
    text "map[" ++ join_by (text " ") (map (λ e. e.0 ++ b':' ∷ e.1) (in_order entries)) ++ text "]"

unfoldable mutual
  pub sprint : Value → Text
  sprint null = text "<nil>"
  sprint (boolean b) = if b then text "true" else text "false"
  sprint (number n t) = t
  sprint (string s) = s
  sprint (array items) = b'[' ∷ join_by (text " ") (sprint_items items) ++ b']' ∷ []
  sprint (object m) = sprint_map (sprint_fields m)
  sprint (maps ms) = b'[' ∷ join_by (text " ") (sprint_maps ms) ++ b']' ∷ []

  sprint_items : Items → List Text
  sprint_items no_items = []
  sprint_items (item v rest) = sprint v ∷ sprint_items rest

  sprint_fields : Fields → List (Text × Text)
  sprint_fields no_fields = []
  sprint_fields (field k v m) = (k, sprint v) ∷ sprint_fields m

  sprint_maps : Maps → List Text
  sprint_maps no_maps = []
  sprint_maps (a_map m rest) = sprint_map (sprint_fields m) ∷ sprint_maps rest

-- `stringFromAny`
unfoldable pub string_from_any : Value → Text
unfolding to_json
string_from_any null = []
string_from_any (string s) = s
string_from_any v = to_json v
