-- ===== src/Structured/Apply.antt =====
-- internal/gateway/structured_output.go (applyStructuredOutput) and copilot_http.go
-- (applySDKOutputConstraints): the answer that leaves the SDK backend.
use ghcp_pool_go.Base.{
  ℕ, ◌≡◌, refl, sym, ◌∙◌, subst, ◌↔◌, ◌⊎◌, inl, inr, Bool, true, false, ◌&&◌, ◌||◌, Option, none,
  some, List, In, In-keep, keep-In, if◌then◌else◌, Text, text, text_eq, ltb, pos, Bool-cases,
  true_ne_false,
}
use ghcp_pool_go.Constraints.{
  approx_tokens, apply_stop_sequences, truncate_approx_tokens, sdk_max_output_tokens,
}
use ghcp_pool_go.Constraints.Stream.{is_zero_ℤ, constrained_text}
use ghcp_pool_go.Constraints.Stream.Allowed.{Allowed, constrained_text-Allowed}
use ghcp_pool_go.Json.{Fields, get}
use ghcp_pool_go.Json.Parse.{json_valid}
use ghcp_pool_go.Results.{ChatResult}
use ghcp_pool_go.Structured.{ResponseFormatSpec, wants_json, parse_response_format}
use ghcp_pool_go.Structured.Extract.{
  is_kept, has_calls, or_content, kept_calls, lifted, extract_json_payload, apply_structured_output,
}
use ghcp_pool_go.Structured.Payload.{extract_json_payload-Infix}
use ghcp_pool_go.Usage.{Usage, ToolCall, normalized}

abbrev counted : Usage → Bool → Text → Usage
counted u trimmed content =
    let v =
      if is_zero_ℤ u.output_tokens || trimmed
      then record u { output_tokens = pos (approx_tokens content) }
      else u in
    if trimmed then record v { total_tokens = pos 0 } else v

-- The content within the limit, the reason to finish, and whether anything was cut.
unfoldable pub within_limit : ℕ → Text × Bool → Text → Text × Text × Bool
unfolding truncate_approx_tokens text
within_limit limit stopped finish =
    let cut = truncate_approx_tokens stopped.0 limit in
    if ltb 0 limit && cut.1
    then (cut.0, text "length", true)
    else (stopped.0, if stopped.1 then text "stop" else finish, stopped.1)

unfoldable pub constrained_result : Fields → ChatResult → ChatResult
unfolding apply_stop_sequences within_limit sdk_max_output_tokens approx_tokens normalized get text
constrained_result params r =
    let c =
      within_limit (sdk_max_output_tokens params)
        (apply_stop_sequences r.content (get (text "stop") params)) r.finish_reason in
    record r { content = c.0; finish_reason = c.1; usage = normalized (counted r.usage c.2 c.0) }

unfoldable pub apply_sdk_output_constraints : ChatResult → Fields → ChatResult
unfolding apply_structured_output parse_response_format constrained_result normalized text
apply_sdk_output_constraints result params =
    let r = apply_structured_output result (parse_response_format params) in
    if has_calls r.tool_calls
    then record r { finish_reason = text "tool_calls"; usage = normalized r.usage }
    else constrained_result params r

-- What is left of an answer once the reserved calls are taken out of it.
pub record IsLifted (before after : ChatResult) : Type 0 where
  pub calls :
      (call : ToolCall)
      → In call after.tool_calls ↔ (In call before.tool_calls × (is_kept call ≡ true))
  pub stops :
      has_calls after.tool_calls ≡ false → text_eq after.finish_reason (text "tool_calls") ≡ false
  pub payload :
      has_calls after.tool_calls ≡ false
      → (json_valid after.content ≡ true)
        ⊎ (extract_json_payload (lifted before.content before.tool_calls) ≡ none)

kept_iff :
    (calls : List ToolCall) (call : ToolCall)
    → In call (kept_calls calls) ↔ (In call calls × (is_kept call ≡ true))
unfolding kept_calls
kept_iff calls call = (keep-In is_kept call calls, λ m. In-keep is_kept call calls m.0 m.1)

stopped_reason :
    (finish : Text)
    → text_eq
        (if text_eq finish (text "tool_calls") then text "stop" else finish)
        (text "tool_calls")
      ≡ false
unfolding text_eq text
stopped_reason finish = elim (Bool-cases (text_eq finish (text "tool_calls"))) [
  | inl y ↦ rw y refl
  | inr f ↦ rw f f
]

payload_of :
    (content : Text) (o : Option Text)
    → extract_json_payload content ≡ o
    → (json_valid (or_content content o) ≡ true) ⊎ (extract_json_payload content ≡ none)
payload_of content none e = inr e
payload_of content (some payload) e = inl (extract_json_payload-Infix content payload e).1

-- Where JSON is asked for, applyStructuredOutput keeps exactly the calls of other tools than the
-- reserved one; where none is left, the reason to finish is no tool call, and the content is valid
-- JSON unless no payload is found in it.
pub apply_structured_output-IsLifted :
    (result : ChatResult) (spec : ResponseFormatSpec)
    → wants_json spec ≡ true
    → IsLifted result (apply_structured_output result spec)
unfolding apply_structured_output
apply_structured_output-IsLifted result spec w =
    elim (Bool-cases (has_calls (kept_calls result.tool_calls))) [
      | inl y ↦
          rw (apply_structured_output, w)
            (rw y (record {
              calls = kept_iff result.tool_calls;
              stops = λ n. absurd (true_ne_false (sym y ∙ n));
              payload = λ n. absurd (true_ne_false (sym y ∙ n));
            }))
      | inr f ↦
          rw (apply_structured_output, w)
            (rw f (record {
              calls = kept_iff result.tool_calls;
              stops = λ n. stopped_reason result.finish_reason;
              payload = λ n. payload_of content (extract_json_payload content) refl;
            }))
    ]
  where
    content : Text
    content = lifted result.content result.tool_calls

-- The content is cut as the text of a stream is.
constrained_result-content :
    (params : Fields) (r : ChatResult)
    → (constrained_result params r).content ≡ (constrained_text params r.content).0
unfolding constrained_result constrained_text within_limit
constrained_result-content params r = elim (Bool-cases (ltb 0 limit && cut.1)) [
  | inl y ↦ rw (constrained_result, constrained_text, y) refl
  | inr f ↦ rw (constrained_result, constrained_text, f) refl
]
  where
    limit : ℕ
    limit = sdk_max_output_tokens params

    cut : Text × Bool
    cut = truncate_approx_tokens (apply_stop_sequences r.content (get (text "stop") params)).0 limit

-- An answer that leaves the SDK backend without tool calls contains no stop sequence of the request
-- and has at most as many tokens as the request allows, where it sets a limit.
pub apply_sdk_output_constraints-Allowed :
    (result : ChatResult) (params : Fields)
    → has_calls (apply_sdk_output_constraints result params).tool_calls ≡ false
    → Allowed params (apply_sdk_output_constraints result params).content
unfolding apply_sdk_output_constraints
apply_sdk_output_constraints-Allowed result params h = elim (Bool-cases (has_calls r.tool_calls)) [
  | inl y ↦ absurd (true_ne_false (sym y ∙ left y h))
  | inr f ↦
      rw (apply_sdk_output_constraints, f)
        (subst (Allowed params) (sym (constrained_result-content params r))
          (constrained_text-Allowed params r.content).1)
]
  where
    r : ChatResult
    r = apply_structured_output result (parse_response_format params)

    left :
        has_calls r.tool_calls ≡ true
        → has_calls (apply_sdk_output_constraints result params).tool_calls ≡ false
        → has_calls r.tool_calls ≡ false
    left y h = rw (apply_sdk_output_constraints, y) at h
