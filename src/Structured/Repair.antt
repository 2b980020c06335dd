-- ===== src/Structured/Repair.antt =====
-- internal/gateway/copilot_http.go (chatSDKStructured, retryTransientChat) and structured_output.go
-- (structuredOutputRepairMessages): the calls of the SDK are a parameter, what the i-th one answers;
-- so are the waits between two of them, which fail when the context ends.
pub mod Retried
pub mod Repaired
use ghcp_pool_go.Base.{
  ℕ, zero, suc, ◌+◌, ◌≡◌, refl, Bool, true, false, not, ◌&&◌, ◌||◌, Option, none, some, List, [],
  ◌∷◌, ◌++◌, if◌then◌else◌, Text, text, is_empty, has_prefix, drop, length, trim_space,
}
use ghcp_pool_go.Errors.{BackendError, is_transient_overload_error, structured_output_failure}
use ghcp_pool_go.Json.{Fields}
use ghcp_pool_go.Json.Tools.{request_has_web_search_tool}
use ghcp_pool_go.Results.{ChatResult, NeutralMessage, Reply, answers, fails}
use ghcp_pool_go.Structured.{
  ResponseFormatSpec, wants_json, parse_response_format, structured_output_tool_conflict,
}
use ghcp_pool_go.Structured.Check.{Compiler, validate_structured_output}
use ghcp_pool_go.Structured.Extract.{has_calls}
use ghcp_pool_go.Usage.{accumulate_usage}

-- The calls of one request: what the i-th one answers to the messages, whether the wait after it
-- ends by its timer, and the error of a context that has ended.
pub record Calls : Type 0 where
  pub attempt : ℕ → Reply
  pub waits : ℕ → Bool
  pub ended : BackendError

unfoldable pub transient_retry_attempts : Fields → ℕ
unfolding request_has_web_search_tool
transient_retry_attempts params = if request_has_web_search_tool params then 2 else 3

-- The loop of `retryTransientChat` from its round `i`, with the rounds that are left after it; none
-- is left after the last.
unfoldable pub retry_from : Calls → ℕ → ℕ → Reply
unfolding is_transient_overload_error
retry_from c i zero = c.attempt i
retry_from c i (suc more) = elim (c.attempt i) [
  | answers result ↦ answers result
  | fails e ↦ elim (is_transient_overload_error e) [
    | false ↦ fails e
    | true ↦ elim (c.waits i) [ true ↦ retry_from c (i + 1) more | false ↦ fails c.ended ]
  ]
]

abbrev before_last_round : ℕ → ℕ
before_last_round zero = zero
before_last_round (suc n) = n

unfoldable pub retry_transient_chat : Calls → Fields → Reply
unfolding retry_from transient_retry_attempts
retry_transient_chat c params = retry_from c 0 (before_last_round (transient_retry_attempts params))

-- strings.TrimPrefix
abbrev trim_prefix : Text → Text → Text
trim_prefix s t = if has_prefix s t then drop (length t) s else s

abbrev message_of : Text → Text → NeutralMessage
message_of role content = record {
  role = role;
  content = content;
  tool_calls = [];
  tool_call_id = [];
}

-- `cause` is never nil where the source calls this.
unfoldable pub structured_output_repair_messages :
    List NeutralMessage → Text → Text → List NeutralMessage
unfolding has_prefix trim_space structured_output_failure text
structured_output_repair_messages messages prior cause =
    let reason = trim_prefix cause (structured_output_failure ++ text ": ") in
    let trimmed = trim_space prior in
    let demand = message_of (text "user") (
      text "That response was rejected: "
      ++ reason
      ++ text
          ". Return only the corrected JSON value, with no explanation and no markdown code fences.") in
    if is_empty trimmed
    then messages ++ demand ∷ []
    else messages ++ message_of (text "assistant") trimmed ∷ demand ∷ []

abbrev client_error : Text → BackendError
client_error message = record { message = message; upstream = none }

-- After the second call: its answer is the last one.
unfoldable pub second_answer : Compiler → ResponseFormatSpec → ChatResult → Reply → Reply
unfolding accumulate_usage validate_structured_output
second_answer c spec first (fails e) = fails e
second_answer c spec first (answers again) =
    let repaired = record again { usage = accumulate_usage first.usage again.usage } in
    if has_calls repaired.tool_calls
    then answers repaired
    else elim (validate_structured_output c repaired.content spec) [
      | none ↦ answers repaired
      | some e ↦ fails (client_error e)
    ]

unfoldable pub first_answer :
    Compiler
    → ResponseFormatSpec
    → (List NeutralMessage → Reply)
    → List NeutralMessage
    → Reply
    → Reply
unfolding second_answer validate_structured_output structured_output_repair_messages
first_answer c spec chat messages (fails e) = fails e
first_answer c spec chat messages (answers result) =
    if not (wants_json spec) || has_calls result.tool_calls
    then answers result
    else elim (validate_structured_output c result.content spec) [
      | none ↦ answers result
      | some cause ↦
          second_answer c spec result
            (chat (structured_output_repair_messages messages result.content cause))
    ]

-- `chat n` is the n-th call of chatSDK.
unfoldable pub chat_sdk_structured :
    Compiler → (ℕ → List NeutralMessage → Reply) → List NeutralMessage → Fields → Reply
unfolding structured_output_tool_conflict parse_response_format first_answer
chat_sdk_structured c chat messages params = elim (structured_output_tool_conflict params) [
  | some e ↦ fails (client_error e)
  | none ↦ first_answer c (parse_response_format params) (chat 1) messages (chat 0 messages)
]
