-- ===== src/Json/Tools.antt =====
-- internal/gateway/util.go and copilot_http.go: the tools that a request declares.
use ghcp_pool_go.Base.{
  Bool, false, ◌&&◌, ◌||◌, Option, none, some, List, [], ◌∷◌, if◌then◌else◌, any, Text, text,
  text_eq, is_empty, contains, to_lower, trim_space,
}
use ghcp_pool_go.Json.{
  Value, string, object, Fields, no_fields, field, get, string_param, is_null, first_any, maps_of,
}
use ghcp_pool_go.Json.Print.{string_from_any}

unfoldable pub is_web_search_tool_spec : Fields → Bool
unfolding get string_from_any text text_eq contains to_lower
is_web_search_tool_spec tool =
    let kind = to_lower (string_from_any (get (text "type") tool)) in
    let name = to_lower (string_from_any (get (text "name") tool)) in
    contains kind (text "web_search")
    || (text_eq name (text "web_search")
        && (is_empty kind || text_eq kind (text "server_tool") || contains kind (text "web")))

-- A copy without the fields that are nil.
unfoldable pub compact_map : Fields → Fields
compact_map no_fields = no_fields
compact_map (field k v m) = if is_null v then compact_map m else field k v (compact_map m)

-- Where a tool's function is described: its own map, or the nested one.
abbrev function_of : Fields → Fields
function_of tool = elim (get (text "function") tool) [ object nested ↦ nested | other ↦ tool ]

-- What a tool becomes; one without a name is dropped.
unfoldable pub normalized_tool : Fields → Option Fields
unfolding get string_param first_any is_web_search_tool_spec compact_map text text_eq
normalized_tool tool =
    let fn = function_of tool in
    let name = string_param fn (text "name") in
    let kind = string_param tool (text "type") in
    let parameters = get (text "parameters") fn in
    let format = first_any (get (text "format") fn ∷ get (text "format") tool ∷ []) in
    if is_web_search_tool_spec tool
    then some (compact_map tool)
    else if is_empty name
    then none
    else some (
        field (text "type") (string (if is_empty kind then text "function" else kind)) (
          field (text "name") (string name) (
            field (text "description") (string (string_param fn (text "description"))) (
              field (text "parameters")
                (if is_null parameters then get (text "input_schema") fn else parameters)
                (if is_null format then no_fields else field (text "format") format no_fields)))))

-- The nil slice is the empty one.
unfoldable pub normalize_tools : List Fields → List Fields
unfolding normalized_tool
normalize_tools [] = []
normalize_tools (tool ∷ tools) = elim (normalized_tool tool) [
  | none ↦ normalize_tools tools
  | some spec ↦ spec ∷ normalize_tools tools
]

abbrev says_none : Text → Bool
says_none s = text_eq (to_lower (trim_space s)) (text "none")

unfoldable pub tool_choice_is_none : Value → Bool
unfolding get string_from_any text text_eq to_lower trim_space
tool_choice_is_none (string s) = says_none s
tool_choice_is_none (object m) = says_none (string_from_any (get (text "type") m))
tool_choice_is_none v = false

unfoldable pub request_has_web_search_tool : Fields → Bool
unfolding get tool_choice_is_none is_web_search_tool_spec text
request_has_web_search_tool params =
    if tool_choice_is_none (get (text "tool_choice") params)
    then false
    else any is_web_search_tool_spec (maps_of (get (text "tools") params))
