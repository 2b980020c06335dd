-- ===== src/Json/Coerce.antt =====
-- internal/gateway/util.go: coerceText, the text of a message's content.
use ghcp_pool_go.Base.{
  Bool, false, not, ◌&&◌, ◌||◌, List, [], ◌∷◌, ◌++◌, if◌then◌else◌, any, Text, text, text_eq,
  is_empty, join_by,
}
use ghcp_pool_go.Json.{
  Value, null, string, array, object, Items, no_items, item, Fields, no_fields, field, get,
  string_param, is_null,
}
use ghcp_pool_go.Json.Print.{sprint}

-- The literals of a `switch` on a text.
abbrev one_of : Text → List Text → Bool
one_of s = any (λ t. text_eq s t)

unfoldable pub is_text_part : Text → Bool
unfolding text text_eq
is_text_part ptype = one_of ptype (
    text "text"
    ∷ text "input_text"
    ∷ text "output_text"
    ∷ text "summary_text"
    ∷ text "refusal"
    ∷ [])

unfoldable pub is_tool_result_part : Text → Bool
unfolding text text_eq
is_tool_result_part ptype = one_of ptype (
    text "tool_result"
    ∷ text "web_search_tool_result"
    ∷ text "web_fetch_tool_result"
    ∷ text "code_execution_tool_result"
    ∷ text "bash_code_execution_tool_result"
    ∷ text "text_editor_code_execution_tool_result"
    ∷ text "tool_search_tool_result"
    ∷ [])

-- The text of a part that is dropped when it is empty.
abbrev if_any : Text → List Text
if_any s = if is_empty s then [] else s ∷ []

-- A printed field of a block, where it is set.
unfoldable pub shown : Fields → Text → List Text
unfolding get sprint text
shown p key = if is_null (get key p) then [] else sprint (get key p) ∷ []

abbrev lines_of : List Text → List Text
lines_of [] = []
lines_of (s ∷ rest) = join_by (text "\n") (s ∷ rest) ∷ []

abbrev is_set : Fields → Text → Bool
is_set p key = not (is_null (get key p))

abbrev is_plain_text : Value → Bool
is_plain_text (string s) = text_eq s (text "text/plain")
is_plain_text v = false

-- The parts that a block gives; `source` and `content` are the texts of the two fields.
unfoldable pub block_parts : Fields → Text → Text → List Text
unfolding get string_param sprint shown is_text_part is_tool_result_part text text_eq join_by
block_parts p source content =
    let ptype = string_param p (text "type") in
    if text_eq ptype (text "refusal") && is_set p (text "refusal")
    then shown p (text "refusal")
    else if text_eq ptype (text "thinking") && is_set p (text "thinking")
    then shown p (text "thinking")
    else if is_plain_text (get (text "media_type") p) && is_set p (text "data")
    then shown p (text "data")
    else if is_text_part ptype || (is_empty ptype && is_set p (text "text"))
    then shown p (text "text")
    else if text_eq ptype (text "document")
    then lines_of (shown p (text "title") ++ shown p (text "context") ++ if_any source)
    else if text_eq ptype (text "search_result")
    then lines_of (shown p (text "title") ++ shown p (text "source") ++ if_any content)
    else if is_tool_result_part ptype
    then if_any content
    else if is_set p (text "content")
    then if_any content
    else []

-- `coerce_field key m` is the text of `m[key]`, and `coerce_items` the parts of a list.
unfoldable mutual
  unfolding join_by sprint block_parts text text_eq

  pub coerce_text : Value → Text
  coerce_text null = []
  coerce_text (string s) = s
  coerce_text (object m) =
      join_by (text "\n")
        (block_parts m (coerce_field (text "source") m) (coerce_field (text "content") m))
  coerce_text (array items) = join_by (text "\n") (coerce_items items)
  coerce_text v = sprint v

  pub coerce_items : Items → List Text
  coerce_items no_items = []
  coerce_items (item piece rest) = coerce_piece piece ++ coerce_items rest

  pub coerce_piece : Value → List Text
  coerce_piece null = []
  coerce_piece (string s) = s ∷ []
  coerce_piece (object m) =
      block_parts m (coerce_field (text "source") m) (coerce_field (text "content") m)
  coerce_piece v = sprint v ∷ []

  pub coerce_field : Text → Fields → Text
  coerce_field key no_fields = []
  coerce_field key (field j v m) = if text_eq j key then coerce_text v else coerce_field key m
