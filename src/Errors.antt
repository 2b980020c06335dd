-- ===== src/Errors.antt =====
-- internal/gateway/pool.go (isRateLimitError, isNonRetryableClientError) and errors.go: how the
-- text and the status of a backend's error are classified.
use ghcp_pool_go.Base.{
  ℕ, Bool, ◌&&◌, ◌||◌, ◌==◌, Option, none, some, if◌then◌else◌, Text, text, text_eq, is_empty,
  contains, to_lower, ◌++◌,
}

-- structured_output.go: structuredOutputFailure.
unfoldable pub structured_output_failure : Text
unfolding text
structured_output_failure = text "structured output does not satisfy response_format"

unfoldable pub is_rate_limit_error : Text → Bool
unfolding text contains to_lower
is_rate_limit_error message =
    let t = to_lower message in
    contains t (text "429")
    || contains t (text "too many requests")
    || contains t (text "rate limit")

unfoldable pub is_non_retryable_client_error : Text → Bool
unfolding text contains to_lower structured_output_failure
is_non_retryable_client_error message =
    let t = to_lower message in
    contains t (text "copilot upstream error 400")
    || contains t (text "invalid_request_error")
    || contains t (text "bad request")
    || contains t (text "does not support reasoning effort configuration")
    || contains t structured_output_failure
    || contains t (text "copilot sdk mode does not support this request shape")

-- An error that a backend call returns: its text, and for a CopilotUpstreamError the status and
-- what anthropicErrorFromBody reads in the body (the decoding of the JSON body is not modelled).
pub record Upstream : Type 0 where
  pub status_code : ℕ
  pub error_type : Text
  pub body_message : Text

pub record BackendError : Type 0 where
  pub message : Text
  pub upstream : Option Upstream

unfoldable pub is_non_retryable_backend_error : BackendError → Bool
unfolding is_non_retryable_client_error text_eq
is_non_retryable_backend_error e = elim e.upstream [
  | some u ↦
      u.status_code == 400
      && (is_empty u.error_type || text_eq u.error_type (text "invalid_request_error"))
  | none ↦ is_non_retryable_client_error e.message
]

unfoldable pub is_transient_overload_error : BackendError → Bool
unfolding text contains to_lower
is_transient_overload_error e = elim e.upstream [
  | some u ↦
      u.status_code == 529
      || u.status_code == 500
      || u.status_code == 502
      || u.status_code == 503
      || u.status_code == 504
  | none ↦
      let t = to_lower e.message in
      contains t (text "529")
      || contains t (text "overloaded")
      || contains t (text "at capacity")
      || contains t (text "capacity")
]

pub record AnthropicError : Type 0 where
  pub status : ℕ
  pub kind : Text
  pub message : Text

unfoldable pub anthropic_error_from_backend : BackendError → AnthropicError
unfolding is_transient_overload_error text
anthropic_error_from_backend e =
    if is_transient_overload_error e
    then record { status = 503; kind = text "overloaded_error"; message = e.message }
    else elim e.upstream [
      | some u ↦ record {
        status = u.status_code;
        kind = if is_empty u.error_type then text "api_error" else u.error_type;
        message = if is_empty u.body_message then e.message else u.body_message;
      }
      | none ↦ record {
        status = 502;
        kind = text "api_error";
        message = text "backend error: " ++ e.message;
      }
    ]
