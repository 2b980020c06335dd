-- ===== src/Structured.antt =====
-- internal/gateway/structured_output.go: the requested format, the tool that carries a schema, and
-- the answer that comes back through it. A tool's description, which only the model reads, is left
-- out of the reserved tool.
pub mod Extract
pub mod Payload
pub mod Apply
pub mod Check
pub mod Schemas
pub mod Repair
use ghcp_pool_go.Base.{
  Bool, true, false, not, ◌&&◌, ◌||◌, Option, none, some, List, [], ◌∷◌, ◌++◌, if◌then◌else◌, any,
  Text, text, text_eq, is_empty, contains, to_lower, trim_space,
}
use ghcp_pool_go.Errors.{structured_output_failure}
use ghcp_pool_go.Json.{
  Value, null, boolean, string, object, Fields, no_fields, field, get, get_in, has_key, is_null,
  is_bare, any_map, option_value, maps_of,
}
use ghcp_pool_go.Json.Print.{string_from_any, to_json}
use ghcp_pool_go.Json.Tools.{is_web_search_tool_spec, tool_choice_is_none}

unfoldable pub structured_output_tool_name : Text
unfolding text
structured_output_tool_name = text "ghcp_structured_output"

pub record ResponseFormatSpec : Type 0 where
  pub kind : Text
  pub name : Text
  pub strict : Bool
  pub schema : Fields

abbrev pub no_format : ResponseFormatSpec
no_format = record { kind = []; name = []; strict = false; schema = no_fields }

abbrev pub wants_json : ResponseFormatSpec → Bool
wants_json s = not (is_empty s.kind)

abbrev pub has_schema : ResponseFormatSpec → Bool
has_schema s = not (is_bare s.schema)

abbrev or_else : Option Fields → Option Fields → Option Fields
or_else none other = other
or_else (some m) other = some m

-- `response_format`, or else `text.format` of the options of a Responses request.
abbrev requested_format : Fields → Option Fields
requested_format params = or_else (any_map (get (text "response_format") params)) (
    any_map (
      get_in (text "format") (
        any_map
          (option_value (any_map (get (text "response_options") params)) (text "text") null))))

-- The schema on its container, or the container itself where it reads as one.
abbrev schema_of : Fields → Fields
schema_of container = elim (any_map (get (text "schema") container)) [
  | some schema ↦ schema
  | none ↦
      if has_key (text "type") container && not (is_null (get (text "properties") container))
      then container
      else no_fields
]

abbrev container_of : Fields → Fields
container_of format = elim (any_map (get (text "json_schema") format)) [
  | some nested ↦ nested
  | none ↦ format
]

abbrev is_strict : Value → Bool
is_strict (boolean b) = b
is_strict v = false

abbrev schema_spec : Fields → ResponseFormatSpec
schema_spec container =
    if is_bare (schema_of container)
    then record no_format { kind = text "json_object" }
    else record {
      kind = text "json_schema";
      name = string_from_any (get (text "name") container);
      strict = is_strict (get (text "strict") container);
      schema = schema_of container;
    }

unfoldable pub parse_response_format : Fields → ResponseFormatSpec
unfolding get get_in has_key option_value string_from_any text contains to_lower
parse_response_format params = elim (requested_format params) [
  | none ↦ no_format
  | some format ↦
      let kind = to_lower (string_from_any (get (text "type") format)) in
      if not (contains kind (text "json"))
      then no_format
      else if not (contains kind (text "schema"))
      then record no_format { kind = text "json_object" }
      else schema_spec (container_of format)
]

pub record Tool : Type 0 where
  pub name : Text
  pub description : Text
  pub parameters : Fields

unfoldable pub structured_output_tool : ResponseFormatSpec → Option Tool
unfolding structured_output_tool_name
structured_output_tool spec =
    if has_schema spec
    then some
        (record { name = structured_output_tool_name; description = []; parameters = spec.schema })
    else none

abbrev has_reserved_name : Fields → Bool
has_reserved_name tool =
    text_eq (string_from_any (get (text "name") tool)) structured_output_tool_name

abbrev pub conflict_reason : Text
conflict_reason =
    text
      "tool name \"ghcp_structured_output\" is reserved by the gateway when response_format requests a json_schema; rename the tool"

abbrev pub conflict_message : Text
conflict_message = structured_output_failure ++ text ": " ++ conflict_reason

abbrev pub has_conflict : Fields → Bool
has_conflict params =
    has_schema (parse_response_format params)
    && any has_reserved_name (maps_of (get (text "tools") params))

-- The error, if the caller has a tool with the reserved name.
unfoldable pub structured_output_tool_conflict : Fields → Option Text
unfolding parse_response_format structured_output_tool_name structured_output_failure get
    string_from_any text text_eq
structured_output_tool_conflict params = if has_conflict params then some conflict_message else none

unfoldable pub structured_output_tool_usable : Fields → Bool
unfolding get string_from_any text text_eq to_lower trim_space
structured_output_tool_usable params = elim (get (text "tool_choice") params) [
  | string choice ↦
      let trimmed = to_lower (trim_space choice) in
      not (text_eq trimmed (text "none"))
      && not (text_eq trimmed (text "required"))
      && not (text_eq trimmed (text "any"))
  | object choice ↦
      let kind = to_lower (trim_space (string_from_any (get (text "type") choice))) in
      is_empty kind || text_eq kind (text "auto")
  | other ↦ true
]

abbrev is_named : Text → Tool → Bool
is_named name tool = text_eq tool.name name

unfoldable pub with_structured_output_tool : List Tool → Fields → List Tool
unfolding structured_output_tool_usable structured_output_tool_conflict structured_output_tool
    parse_response_format text_eq
with_structured_output_tool tools params =
    if not (structured_output_tool_usable params)
    then tools
    else elim (structured_output_tool_conflict params) [
      | some e ↦ tools
      | none ↦ elim (structured_output_tool (parse_response_format params)) [
        | none ↦ tools
        | some structured ↦
            if any (is_named structured.name) tools then tools else tools ++ structured ∷ []
      ]
    ]

unfoldable pub structured_output_instruction : ResponseFormatSpec → Bool → Text
unfolding text to_json structured_output_tool_name
structured_output_instruction spec tool_registered =
    if not (wants_json spec)
    then []
    else if has_schema spec && tool_registered
    then text "Deliver the final answer by calling the `"
      ++ structured_output_tool_name
      ++ text
          "` tool exactly once, with arguments conforming to its JSON Schema. Do not answer in prose and do not wrap the arguments in markdown."
    else if has_schema spec
    then text
        "Respond with a single JSON value that conforms to this JSON Schema, and nothing else. Do not wrap it in markdown code fences.\n\nJSON Schema:\n"
      ++ to_json (object spec.schema)
    else text
        "Respond with a single valid JSON value and nothing else. Do not wrap it in markdown code fences."

-- copilot_http.go: sdkToolParameters.
abbrev sdk_tool_parameters : Fields → Fields
sdk_tool_parameters tool = elim (any_map (get (text "parameters") tool)) [
  | some params ↦ params
  | none ↦ elim (any_map (get (text "input_schema") tool)) [
    | some params ↦ params
    | none ↦
        field (text "type") (string (text "object"))
          (field (text "properties") (object no_fields) no_fields)
  ]
]

abbrev is_declarable : Text → Bool
is_declarable kind =
    is_empty kind
    || text_eq kind (text "function")
    || text_eq kind (text "custom")
    || text_eq kind (text "tool")

abbrev declared_tool : Fields → Tool
declared_tool tool = record {
  name = string_from_any (get (text "name") tool);
  description = string_from_any (get (text "description") tool);
  parameters = sdk_tool_parameters tool;
}

-- The loop of sdkCustomToolsFromParams, with the names it has seen.
unfoldable pub custom_tools_from : List Text → List Fields → List Tool
unfolding is_web_search_tool_spec get string_from_any text text_eq to_lower
custom_tools_from seen [] = []
custom_tools_from seen (tool ∷ tools) =
    let name = string_from_any (get (text "name") tool) in
    let skip = custom_tools_from seen tools in
    if is_web_search_tool_spec tool
      || not (is_declarable (to_lower (string_from_any (get (text "type") tool))))
      || is_empty name
      || any (text_eq name) seen
    then skip
    else declared_tool tool ∷ custom_tools_from (name ∷ seen) tools

unfoldable pub sdk_custom_tools_from_params : Fields → List Tool
unfolding tool_choice_is_none custom_tools_from with_structured_output_tool get text
sdk_custom_tools_from_params params =
    if tool_choice_is_none (get (text "tool_choice") params)
    then []
    else with_structured_output_tool (custom_tools_from [] (maps_of (get (text "tools") params)))
        params
