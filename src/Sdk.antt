-- ===== src/Sdk.antt =====
-- internal/gateway/copilot_http.go and copilot_sdk_stream.go: how the events of an SDK session become
-- an answer or the items of a stream. The events are those of the SDK, another package; what newID
-- makes for a call without an id is part of the event. A pointer that may be nil is an option.
pub mod Calls
pub mod Numbered
use ghcp_pool_go.Base.{
  ℕ, zero, suc, ◌+◌, ◌-◌, ◌==◌, Bool, true, false, not, ◌&&◌, ◌||◌, Option, none, some, List, [],
  ◌∷◌, ◌++◌, if◌then◌else◌, ℤ, pos, length, Text, text, text_eq, is_empty, has_prefix, drop,
  trim_space, any,
}
use ghcp_pool_go.Constraints.{approx_tokens}
use ghcp_pool_go.Constraints.Stream.{no_usage, no_call, plain_item, is_zero_ℤ}
use ghcp_pool_go.Errors.{BackendError}
use ghcp_pool_go.Json.{Value, null, string}
use ghcp_pool_go.Json.Print.{to_json}
use ghcp_pool_go.Results.{ChatResult, StreamItem, Kind, delta, tool_call, error, done}
use ghcp_pool_go.Usage.{Usage, ToolCall, normalized, normalized_call, merge_sdk_usage}

unfoldable pub tool_arguments_string : Value → Text
unfolding text trim_space to_json
tool_arguments_string null = text "{}"
tool_arguments_string (string s) = if is_empty (trim_space s) then text "{}" else s
tool_arguments_string v = to_json v

pub record ToolRequest : Type 0 where
  pub tool_call_id : Text
  pub fresh_id : Text
  pub name : Text
  pub arguments : Value
  pub kind : Option Text

pub record UsageData : Type 0 where
  pub api_endpoint : Option Text
  pub input_tokens : Option ℤ
  pub output_tokens : Option ℤ
  pub cache_read_tokens : Option ℤ
  pub cost : Option ℤ
  pub duration : Option ℤ
  pub provider_call_id : Option Text
  pub api_call_id : Option Text
  pub quota_snapshots : Text
  pub model : Text

pub record AssistantMessage : Type 0 where
  pub content : Text
  pub model : Option Text
  pub output_tokens : Option ℤ
  pub tool_requests : List ToolRequest

pub data SessionEvent : Type 0 where
  message_delta : Text → SessionEvent
  assistant_message : AssistantMessage → SessionEvent
  external_tool : ToolRequest → SessionEvent
  assistant_usage : UsageData → SessionEvent
  session_idle : SessionEvent
  session_error : Text → SessionEvent
  other_event : SessionEvent

abbrev first_of : Text → Text → Text
first_of s t = if is_empty s then t else s

abbrev kind_or_function : Option Text → Text
kind_or_function none = text "function"
kind_or_function (some kind) = if is_empty kind then text "function" else kind

unfoldable pub tool_call_from_sdk_request : ToolRequest → ToolCall
unfolding tool_arguments_string text
tool_call_from_sdk_request request = record {
  id = first_of request.tool_call_id request.fresh_id;
  name = request.name;
  arguments = tool_arguments_string request.arguments;
  kind = kind_or_function request.kind;
}

unfoldable pub tool_call_from_sdk_external_tool : ToolRequest → ToolCall
unfolding tool_arguments_string text
tool_call_from_sdk_external_tool request = record {
  id = first_of request.tool_call_id request.fresh_id;
  name = request.name;
  arguments = tool_arguments_string request.arguments;
  kind = text "function";
}

abbrev same_id : ToolCall → ToolCall → Bool
same_id call next = not (is_empty call.id) && not (is_empty next.id) && text_eq call.id next.id

abbrev completed : ToolCall → ToolCall → ToolCall
completed call next = record call {
  name = if is_empty call.name then next.name else call.name;
  arguments =
      if is_empty call.arguments || text_eq call.arguments (text "{}")
      then next.arguments
      else call.arguments;
  kind = if is_empty call.kind then next.kind else call.kind;
}

-- The loop: the first call of the same id is completed; none is there otherwise.
unfoldable pub complete_call : List ToolCall → ToolCall → Option (List ToolCall)
unfolding text text_eq
complete_call [] next = none
complete_call (call ∷ calls) next = elim (same_id call next) [
  | true ↦ some (completed call next ∷ calls)
  | false ↦ elim (complete_call calls next) [ none ↦ none | some rest ↦ some (call ∷ rest) ]
]

abbrev or_appended : List ToolCall → ToolCall → Option (List ToolCall) → List ToolCall
or_appended calls next none = calls ++ next ∷ []
or_appended calls next (some changed) = changed

unfoldable pub append_tool_call_unique : List ToolCall → ToolCall → List ToolCall
unfolding normalized_call complete_call
append_tool_call_unique calls call =
    let next = normalized_call call in
    if is_empty next.name then calls else or_appended calls next (complete_call calls next)

abbrev or_zero : Option ℤ → ℤ
or_zero none = pos 0
or_zero (some n) = n

abbrev text_or : Text → Option Text → Text
text_or fallback none = fallback
text_or fallback (some s) = s

-- `data` is never nil in an event.
unfoldable pub sdk_usage_from_event : UsageData → Text → Usage
unfolding normalized
sdk_usage_from_event data_of fallback = normalized (record {
  input_tokens = or_zero data_of.input_tokens;
  output_tokens = or_zero data_of.output_tokens;
  cached_tokens = or_zero data_of.cache_read_tokens;
  total_tokens = pos 0;
  credits = or_zero data_of.cost;
  api_endpoint = first_of (text_or [] data_of.api_endpoint) fallback;
  provider_call_id = text_or (text_or [] data_of.api_call_id) data_of.provider_call_id;
  duration_ms = or_zero data_of.duration;
  quota_snapshots = data_of.quota_snapshots;
})

unfoldable pub is_sdk_web_search_internal_tool : Text → Bool
unfolding text text_eq
is_sdk_web_search_internal_tool name =
    text_eq name (text "ghcp_report_intent")
    || text_eq name (text "ghcp_web_fetch")
    || text_eq name (text "ghcp_web_search")

abbrev without_prefix : Text → Text → Text
without_prefix s t = if has_prefix s t then drop (length t) s else s

unfoldable pub is_sdk_native_web_tool : Text → Bool
unfolding text text_eq has_prefix
is_sdk_native_web_tool name =
    let bare = without_prefix name (text "builtin:") in
    text_eq bare (text "web_fetch") || text_eq bare (text "web_search")

-- The reducer of a stream.
pub record SdkStreamReducer : Type 0 where
  pub endpoint : Text
  pub usage : Usage
  pub tool_calls : List ToolCall
  pub saw_assistant_delta : Bool
  pub finish_reason : Text

unfoldable pub new_sdk_stream_reducer : Text → Text → SdkStreamReducer
unfolding approx_tokens normalized text
new_sdk_stream_reducer prompt endpoint = record {
  endpoint = endpoint;
  usage =
      normalized
        (record no_usage { input_tokens = pos (approx_tokens prompt); api_endpoint = endpoint });
  tool_calls = [];
  saw_assistant_delta = false;
  finish_reason = text "stop";
}

abbrev text_item : Text → StreamItem
text_item t = record (plain_item delta) { text_of = t }

-- The last call of the list, which has one where the source indexes it.
abbrev last_call : List ToolCall → ToolCall
last_call [] = no_call
last_call (call ∷ []) = call
last_call (call ∷ next ∷ calls) = last_call (next ∷ calls)

abbrev tool_item : List ToolCall → StreamItem
tool_item calls = record (plain_item tool_call) { call = last_call calls; index = length calls - 1 }

-- A call that is asked for, unless the gateway answers it itself; it is an item where it is new.
unfoldable pub reduce_request :
    SdkStreamReducer → Text → ToolCall → SdkStreamReducer × List StreamItem
unfolding append_tool_call_unique is_sdk_web_search_internal_tool is_sdk_native_web_tool text
reduce_request r name call =
    let calls = append_tool_call_unique r.tool_calls call in
    if is_sdk_web_search_internal_tool name || is_sdk_native_web_tool name
    then (r, [])
    else if length calls == length r.tool_calls
    then (record r { tool_calls = calls }, [])
    else (record r { tool_calls = calls; finish_reason = text "tool_calls" }, tool_item calls ∷ [])

unfoldable pub reduce_requests :
    SdkStreamReducer → List ToolRequest → SdkStreamReducer × List StreamItem
unfolding reduce_request tool_call_from_sdk_request
reduce_requests r [] = (r, [])
reduce_requests r (request ∷ requests) =
    let (s, items) = reduce_request r request.name (tool_call_from_sdk_request request) in
    let (t, more) = reduce_requests s requests in (t, items ++ more)

abbrev with_output : SdkStreamReducer → Option ℤ → SdkStreamReducer
with_output r none = r
with_output r (some n) = record r { usage = normalized (record (r.usage) { output_tokens = n }) }

-- The text and the requests of a message, once its output tokens are counted.
unfoldable pub reduce_content :
    SdkStreamReducer → AssistantMessage → SdkStreamReducer × List StreamItem
unfolding reduce_requests
reduce_content r m =
    if not r.saw_assistant_delta && not (is_empty m.content)
    then (let (s, items) =
          reduce_requests (record r { saw_assistant_delta = true }) m.tool_requests in
        (s, text_item m.content ∷ items))
    else reduce_requests r m.tool_requests

unfoldable pub reduce_assistant_message :
    SdkStreamReducer → AssistantMessage → SdkStreamReducer × List StreamItem
unfolding reduce_content normalized
reduce_assistant_message r m = reduce_content (with_output r m.output_tokens) m

unfoldable pub done_reason : SdkStreamReducer → Text
unfolding text
done_reason r = elim (r.tool_calls) [
  | [] ↦ if is_empty r.finish_reason then text "stop" else r.finish_reason
  | call ∷ calls ↦ text "tool_calls"
]

abbrev session_failure : Text → BackendError
session_failure message = record {
  message = text "sdk session error: " ++ message;
  upstream = none;
}

-- The items of an event, and whether it is the last.
unfoldable pub reduce : SdkStreamReducer → SessionEvent → SdkStreamReducer × List StreamItem × Bool
unfolding reduce_assistant_message reduce_request tool_call_from_sdk_external_tool
    sdk_usage_from_event merge_sdk_usage normalized done_reason text
reduce r (message_delta t) =
    if is_empty t
    then (r, [], false)
    else (record r { saw_assistant_delta = true }, text_item t ∷ [], false)
reduce r (assistant_message m) = let (s, items) = reduce_assistant_message r m in (s, items, false)
reduce r (external_tool request) =
    let (s, items) = reduce_request r request.name (tool_call_from_sdk_external_tool request) in
    (s, items, false)
reduce r (assistant_usage u) =
    (record r { usage = merge_sdk_usage r.usage (sdk_usage_from_event u r.endpoint) }, [], false)
reduce r session_idle = (
  r,
  record (plain_item done) { usage = normalized r.usage; finish_reason = done_reason r } ∷ [],
  true,
)
reduce r (session_error message) =
    (r, record (plain_item error) { failure = some (session_failure message) } ∷ [], true)
reduce r other_event = (r, [], false)

-- `reduceSDKStreamEvents`, from a reducer on.
unfoldable pub reduce_events :
    SdkStreamReducer → List SessionEvent → SdkStreamReducer × List StreamItem
unfolding reduce
reduce_events r [] = (r, [])
reduce_events r (event ∷ events) =
    let (s, items, terminal) = reduce r event in
    elim terminal [
      | true ↦ (s, items)
      | false ↦ let (t, more) = reduce_events s events in (t, items ++ more)
    ]

abbrev filled : Usage → Text → Text → Text → Usage
filled u prompt content endpoint =
    let v =
      if is_zero_ℤ u.input_tokens
      then record u { input_tokens = pos (approx_tokens prompt) }
      else u in
    let w =
      if is_zero_ℤ v.output_tokens && not (is_empty content)
      then record v { output_tokens = pos (approx_tokens content) }
      else v in
    record w { api_endpoint = first_of u.api_endpoint endpoint }

abbrev reason_of : ChatResult → Text
reason_of result = elim result.tool_calls [
  | [] ↦ first_of result.finish_reason (text "stop")
  | call ∷ calls ↦ text "tool_calls"
]

unfoldable pub finalize_sdk_result : ChatResult → Text → Text → ChatResult
unfolding normalized approx_tokens text
finalize_sdk_result result prompt endpoint = record result {
  model = first_of result.model (text "unknown");
  finish_reason = reason_of result;
  usage = normalized (filled result.usage prompt result.content endpoint);
}
