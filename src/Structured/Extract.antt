-- ===== src/Structured/Extract.antt =====
-- internal/gateway/structured_output.go: the JSON payload in what a model has written. The scan
-- counts characters, where the source counts bytes; the ones it looks for are ASCII.
use ghcp_pool_go.Base.{
  ℕ, ◌+◌, ◌-◌, Bool, true, false, not, ◌&&◌, ◌||◌, ◌==◌, Option, none, some, List, [], ◌∷◌, keep,
  if◌then◌else◌, Text, text, is_empty, has_prefix, trim_space, contains_any, drop, text_eq,
}
use ghcp_pool_go.Json.Parse.{json_valid}
use ghcp_pool_go.Results.{ChatResult}
use ghcp_pool_go.Structured.{ResponseFormatSpec, wants_json, structured_output_tool_name}
use ghcp_pool_go.Usage.{ToolCall}

abbrev pub fence : Text
fence = text "```"

-- `s[:strings.LastIndex(s, t)]`, for a text `t` that is not empty.
unfoldable pub before_last : Text → Text → Option Text
unfolding has_prefix
before_last t [] = none
before_last t (c ∷ s) = elim (before_last t s) [
  | some r ↦ some (c ∷ r)
  | none ↦ if has_prefix (c ∷ s) t then some [] else none
]

-- The first line and the rest, where there is a line break.
unfoldable pub first_line : Text → Option (Text × Text)
first_line [] = none
first_line (c ∷ s) = elim (c == b'\n') [
  | true ↦ some ([], s)
  | false ↦ elim (first_line s) [ none ↦ none | some (a, b) ↦ some (c ∷ a, b) ]
]

-- Without the tag of a language on the opening line.
unfoldable pub without_tag : Text → Text
unfolding first_line trim_space text
without_tag rest = elim (first_line rest) [
  | none ↦ rest
  | some (tag, after) ↦ if contains_any (trim_space tag) (text "{}[]\"") then rest else after
]

unfoldable pub up_to_fence : Text → Text
unfolding before_last text
up_to_fence rest = elim (before_last fence rest) [ none ↦ rest | some r ↦ r ]

unfoldable pub strip_code_fence : Text → Text × Bool
unfolding has_prefix trim_space without_tag up_to_fence text
strip_code_fence content =
    if not (has_prefix content fence)
    then (content, false)
    else (trim_space (up_to_fence (without_tag (drop 3 content))), true)

-- The variables of the scan.
pub record Scan : Type 0 where
  pub depth : ℕ
  pub in_string : Bool
  pub escaped : Bool

-- One character of the scan, before the test whether the depth is 0.
unfoldable pub scan_step : ℕ → ℕ → Scan → ℕ → Scan
scan_step opening closing s c =
    if s.escaped
    then record s { escaped = false }
    else if c == b'\\' && s.in_string
    then record s { escaped = true }
    else if c == b'"'
    then record s { in_string = not s.in_string }
    else if s.in_string
    then s
    else if c == opening
    then record s { depth = s.depth + 1 }
    else if c == closing
    then record s { depth = s.depth - 1 }
    else s

abbrev pub closes : ℕ → Scan → ℕ → Bool
closes closing s c = not s.escaped && not s.in_string && c == closing && s.depth == 1

-- The text up to the closing bracket that balances; the scan starts at the opening one, so the depth
-- is at least 1 where it goes down.
unfoldable pub balanced : ℕ → ℕ → Scan → Text → Option Text
unfolding scan_step
balanced opening closing s [] = none
balanced opening closing s (c ∷ t) = elim (closes closing s c) [
  | true ↦ some (c ∷ [])
  | false ↦ elim (balanced opening closing (scan_step opening closing s c) t) [
    | none ↦ none
    | some r ↦ some (c ∷ r)
  ]
]

abbrev pub closing_of : ℕ → ℕ
closing_of c = if c == b'[' then b']' else b'}'

abbrev pub if_valid : Option Text → Option Text
if_valid none = none
if_valid (some s) = if json_valid s then some s else none

unfoldable pub first_json_value : Text → Option Text
unfolding balanced json_valid
first_json_value [] = none
first_json_value (c ∷ s) = elim (c == b'{' || c == b'[') [
  | true ↦
      if_valid (
        balanced c (closing_of c) (record { depth = 0; in_string = false; escaped = false })
          (c ∷ s))
  | false ↦ first_json_value s
]

unfoldable pub extract_json_payload : Text → Option Text
unfolding trim_space strip_code_fence json_valid first_json_value
extract_json_payload content =
    let bare = (strip_code_fence (trim_space content)).0 in
    if is_empty (trim_space content)
    then none
    else if json_valid bare
    then some bare
    else first_json_value bare

abbrev pub is_reserved : ToolCall → Bool
is_reserved call = text_eq call.name structured_output_tool_name

abbrev pub is_kept : ToolCall → Bool
is_kept call = not (is_reserved call)

-- The calls of the caller's own tools.
unfoldable pub kept_calls : List ToolCall → List ToolCall
unfolding text_eq structured_output_tool_name
kept_calls = keep is_kept

-- The content after the arguments of the reserved calls, the last that are not blank.
unfoldable pub lifted : Text → List ToolCall → Text
unfolding text_eq structured_output_tool_name trim_space
lifted content [] = content
lifted content (call ∷ calls) =
    lifted
      (if is_reserved call && not (is_empty (trim_space call.arguments))
        then trim_space call.arguments
        else content)
      calls

abbrev pub has_calls : List ToolCall → Bool
has_calls [] = false
has_calls (call ∷ calls) = true

abbrev pub or_content : Text → Option Text → Text
or_content content none = content
or_content content (some payload) = payload

unfoldable pub apply_structured_output : ChatResult → ResponseFormatSpec → ChatResult
unfolding kept_calls lifted extract_json_payload text text_eq
apply_structured_output result spec =
    let content = lifted result.content result.tool_calls in
    let kept = kept_calls result.tool_calls in
    if not (wants_json spec)
    then result
    else if has_calls kept
    then record result { content = content; tool_calls = kept }
    else record result {
      content = or_content content (extract_json_payload content);
      tool_calls = kept;
      finish_reason =
          if text_eq result.finish_reason (text "tool_calls")
          then text "stop"
          else result.finish_reason;
    }
