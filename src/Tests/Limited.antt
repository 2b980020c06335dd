-- ===== src/Tests/Limited.antt =====
-- Examples of the limits of an answer and of the events of an SDK session.
use ghcp_pool_go.Base.{◌≤◌, none, List, [], ◌∷◌, pos, text, arith, ltb, Prefix}
use ghcp_pool_go.Constraints.{approx_tokens, truncate_approx_tokens, stops_of, apply_stop_sequences}
use ghcp_pool_go.Constraints.Stops
use ghcp_pool_go.Constraints.Stops.{IsCut}
use ghcp_pool_go.Constraints.Stream.{plain_item, apply_stream_output_constraints}
use ghcp_pool_go.Constraints.Stream.Kept
use ghcp_pool_go.Constraints.Stream.Allowed.{text_before_tool}
use ghcp_pool_go.Constraints.Stream.Rounds.{Good}
use ghcp_pool_go.Constraints.Tokens
use ghcp_pool_go.Json.{Fields, string, field, no_fields, number}
use ghcp_pool_go.Results.{StreamItem, delta, done}
use ghcp_pool_go.Sdk.{
  SessionEvent, message_delta, external_tool, session_idle, ToolRequest, SdkStreamReducer,
  new_sdk_stream_reducer, reduce_events,
}
use ghcp_pool_go.Sdk.Numbered
use ghcp_pool_go.Sdk.Numbered.{Goes}

apply_stop_sequences-IsCut_example :
    IsCut
      (stops_of (string (text "en")))
      (text "the end")
      (apply_stop_sequences (text "the end") (string (text "en")))
apply_stop_sequences-IsCut_example =
    Stops.apply_stop_sequences-IsCut (text "the end") (string (text "en"))

truncate_approx_tokens-le_example :
    Prefix (truncate_approx_tokens (text "one two three") 2).0 (text "one two three")
    × (approx_tokens (truncate_approx_tokens (text "one two three") 2).0 ≤ 2)
truncate_approx_tokens-le_example =
    Tokens.truncate_approx_tokens-le (text "one two three") 2 (omega arith)

abbrev params : Fields
params =
    field (text "stop") (string (text "en"))
      (field (text "max_tokens") (number (pos 5) []) no_fields)

abbrev items : List StreamItem
items =
    record (plain_item delta) { text_of = text "the e" }
    ∷ record (plain_item delta) { text_of = text "nd" }
    ∷ plain_item done
    ∷ []

apply_stream_output_constraints-Good_example :
    Good params
      (text_before_tool items)
      (text_before_tool (apply_stream_output_constraints (λ n. ltb n 5) params items))
apply_stream_output_constraints-Good_example =
    Kept.apply_stream_output_constraints-Good (λ n. ltb n 5) params items

abbrev request : ToolRequest
request = record {
  tool_call_id = text "c1";
  fresh_id = text "call_0";
  name = text "lookup";
  arguments = string (text "{}");
  kind = none;
}

-- One call is reported twice.
abbrev events : List SessionEvent
events =
    external_tool request ∷ message_delta (text "hi") ∷ external_tool request ∷ session_idle ∷ []

abbrev reducer : SdkStreamReducer
reducer = new_sdk_stream_reducer (text "hi") []

reduce_events-Goes_example :
    Goes reducer.tool_calls
      (reduce_events reducer events).1
      (reduce_events reducer events).0.tool_calls
reduce_events-Goes_example = Numbered.reduce_events-Goes reducer events
