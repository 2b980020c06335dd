-- ===== src/Structured/Repair/Repaired.antt =====
-- internal/gateway/copilot_http.go: what chatSDKStructured gives back.
use ghcp_pool_go.Base.{
  ℕ, ◌≡◌, refl, sym, ◌∙◌, ◌⊎◌, inl, inr, Bool, true, false, not, ◌||◌, List, Bool-cases,
  Option-cases, Text, arith, true_ne_false,
}
use ghcp_pool_go.Errors.{
  BackendError, is_non_retryable_backend_error, is_non_retryable_client_error,
}
use ghcp_pool_go.Json.{Fields}
use ghcp_pool_go.Results.{ChatResult, NeutralMessage, Reply, answers, fails}
use ghcp_pool_go.Structured.{
  ResponseFormatSpec, wants_json, parse_response_format, structured_output_tool_conflict,
}
use ghcp_pool_go.Structured.Check.{
  Compiler, Conforms, validate_structured_output, validate_structured_output_iff,
  validate_structured_output_not_retried, structured_output_tool_conflict_not_retried,
}
use ghcp_pool_go.Structured.Extract.{has_calls}
use ghcp_pool_go.Structured.Repair.{
  first_answer, second_answer, chat_sdk_structured, client_error, structured_output_repair_messages,
}

-- What a reply promises where JSON is asked for: an answer without tool calls conforms, and an error
-- is one of the calls' or is not tried again.
abbrev pub Promises : Compiler → ResponseFormatSpec → (BackendError → Type 0) → Reply → Type 0
Promises c spec Made (answers r) = has_calls r.tool_calls ≡ false → Conforms c spec r.content
Promises c spec Made (fails e) = Made e ⊎ (is_non_retryable_backend_error e ≡ true)

client_error_not_retried :
    (e : Text)
    → is_non_retryable_client_error e ≡ true
    → is_non_retryable_backend_error (client_error e) ≡ true
unfolding is_non_retryable_backend_error
client_error_not_retried e h = h

the_other : (a b : Bool) → a ≡ true → (not a || b) ≡ true → b ≡ true
the_other a b h k = ground arith

module _ (c : Compiler) (spec : ResponseFormatSpec) (Made : BackendError → Type 0)
    (w : wants_json spec ≡ true) where
  second_answer-Promises :
      (first : ChatResult) (r : Reply)
      → ((e : BackendError) → r ≡ fails e → Made e)
      → Promises c spec Made (second_answer c spec first r)
  unfolding second_answer
  second_answer-Promises first (fails e) m = inl (m e refl)
  second_answer-Promises first (answers again) m = elim (Bool-cases (has_calls again.tool_calls)) [
    | inl y ↦ rw (second_answer, y) (λ n. absurd (true_ne_false (sym y ∙ n)))
    | inr f ↦ elim (Option-cases (validate_structured_output c again.content spec)) [
      | inl e ↦
          rw (second_answer, f)
            (rw e (λ n. (validate_structured_output_iff c again.content spec w).0 e))
      | inr (x, e) ↦
          rw (second_answer, f)
            (rw e (
              inr (
                client_error_not_retried x
                  (validate_structured_output_not_retried c again.content spec x e))))
    ]
  ]

  first_answer-Promises :
      (chat : List NeutralMessage → Reply) (messages : List NeutralMessage) (r : Reply)
      → ((e : BackendError) → r ≡ fails e → Made e)
      → ((ms : List NeutralMessage) (e : BackendError) → chat ms ≡ fails e → Made e)
      → Promises c spec Made (first_answer c spec chat messages r)
  unfolding first_answer
  first_answer-Promises chat messages (fails e) m k = inl (m e refl)
  first_answer-Promises chat messages (answers result) m k =
      elim (Bool-cases (not (wants_json spec) || has_calls result.tool_calls)) [
        | inl y ↦
            rw (first_answer, y)
              (λ n. absurd (
                true_ne_false
                  (sym (the_other (wants_json spec) (has_calls result.tool_calls) w y) ∙ n)))
        | inr f ↦ elim (Option-cases (validate_structured_output c result.content spec)) [
          | inl e ↦
              rw (first_answer, f)
                (rw e (λ n. (validate_structured_output_iff c result.content spec w).0 e))
          | inr (x, e) ↦
              rw (first_answer, f)
                (rw e (second_answer-Promises result (chat (repair x)) (k (repair x))))
        ]
      ]
    where
      repair : Text → List NeutralMessage
      repair = structured_output_repair_messages messages result.content

-- An error that one of the calls of the SDK returned.
abbrev pub ReturnedBy : (ℕ → List NeutralMessage → Reply) → BackendError → Type 0
ReturnedBy chat e = (n : ℕ) × (ms : List NeutralMessage) × (chat n ms ≡ fails e)

-- Where a request asks for JSON, an answer of chatSDKStructured without tool calls is a JSON object
-- that the schema of the request accepts, and an error is one that a call of the SDK returned or one
-- that is not tried again on another account.
pub chat_sdk_structured-Promises :
    (c : Compiler) (chat : ℕ → List NeutralMessage → Reply) (messages : List NeutralMessage)
    (params : Fields)
    → wants_json (parse_response_format params) ≡ true
    → Promises c
        (parse_response_format params)
        (ReturnedBy chat)
        (chat_sdk_structured c chat messages params)
unfolding chat_sdk_structured
chat_sdk_structured-Promises c chat messages params w =
    elim (Option-cases (structured_output_tool_conflict params)) [
      | inr (x, e) ↦
          rw (chat_sdk_structured, e)
            (inr
              (client_error_not_retried x (structured_output_tool_conflict_not_retried params x e)))
      | inl e ↦
          rw (chat_sdk_structured, e)
            (first_answer-Promises c (parse_response_format params) (ReturnedBy chat) w (chat 1)
              messages (chat 0 messages) (λ e q. (0, messages, q)) (λ ms e q. (1, ms, q)))
    ]
