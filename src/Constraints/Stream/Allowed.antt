-- ===== src/Constraints/Stream/Allowed.antt =====
-- internal/gateway/copilot_sdk_stream.go: the text that the limits of a request leave.
use ghcp_pool_go.Base.{
  ℕ, ◌≤◌, ◌<◌, ◌≡◌, Bool, true, false, List, [], ◌∷◌, ◌++◌, subst, Text, arith, Bool-cases, Prefix,
  Prefix-trans, inl, inr, ltb, ◌&&◌, text,
}
use ghcp_pool_go.Constraints.{
  approx_tokens, apply_stop_sequences, truncate_approx_tokens, sdk_max_output_tokens, stops_of,
}
use ghcp_pool_go.Constraints.Stops.{StopFree, IsCut, Prefix-StopFree, apply_stop_sequences-IsCut}
use ghcp_pool_go.Constraints.Stream.{constrained_text}
use ghcp_pool_go.Constraints.Tokens.{truncate_approx_tokens-le, truncate_approx_tokens_unchanged}
use ghcp_pool_go.Json.{Fields, get}
use ghcp_pool_go.Results.{StreamItem, Kind, delta, tool_call}

-- What the client has of the answer when the first tool is called.
abbrev pub heard : Kind → Text → Text → Text
heard delta t rest = t ++ rest
heard tool_call t rest = []
heard k t rest = rest

abbrev pub text_before_tool : List StreamItem → Text
text_before_tool [] = []
text_before_tool (i ∷ items) = heard i.kind i.text_of (text_before_tool items)

-- A text that keeps to the stop sequences and the limit of the request.
pub record Allowed (params : Fields) (s : Text) : Type 0 where
  pub stop_free : StopFree (stops_of (get (text "stop") params)) s
  pub short : 0 < sdk_max_output_tokens params → approx_tokens s ≤ sdk_max_output_tokens params

both_true : (n : ℕ) (b : Bool) → (ltb 0 n && b) ≡ true → 0 < n
both_true n b h = ground arith

not_cut : (n : ℕ) (b : Bool) → (ltb 0 n && b) ≡ false → 0 < n → b ≡ false
not_cut n b h p = ground arith

pub constrained_text-Allowed :
    (params : Fields) (accumulated : Text)
    → Prefix (constrained_text params accumulated).0 accumulated
      × Allowed params (constrained_text params accumulated).0
unfolding constrained_text
constrained_text-Allowed params accumulated = elim (Bool-cases (ltb 0 limit && cut.1)) [
  | inl y ↦
      rw (constrained_text, y)
        (shorter (truncate_approx_tokens-le stopped.0 limit (both_true limit cut.1 y)))
  | inr f ↦
      rw (constrained_text, f)
        (is_cut.start, record { stop_free = is_cut.stop_free; short = whole f })
]
  where
    limit : ℕ
    limit = sdk_max_output_tokens params

    stops : List Text
    stops = stops_of (get (text "stop") params)

    stopped : Text × Bool
    stopped = apply_stop_sequences accumulated (get (text "stop") params)

    cut : Text × Bool
    cut = truncate_approx_tokens stopped.0 limit

    is_cut : IsCut stops accumulated stopped
    is_cut = apply_stop_sequences-IsCut accumulated (get (text "stop") params)

    shorter :
        Prefix cut.0 stopped.0 × (approx_tokens cut.0 ≤ limit)
        → Prefix cut.0 accumulated × Allowed params cut.0
    shorter (p, l) = (
      Prefix-trans cut.0 stopped.0 accumulated p is_cut.start,
      record {
        stop_free = Prefix-StopFree cut.0 stopped.0 stops p is_cut.stop_free;
        short = λ h. l;
      },
    )

    whole : (ltb 0 limit && cut.1) ≡ false → 0 < limit → approx_tokens stopped.0 ≤ limit
    whole f p =
        subst (λ s. approx_tokens s ≤ limit)
          (truncate_approx_tokens_unchanged stopped.0 limit (not_cut limit cut.1 f p))
          (truncate_approx_tokens-le stopped.0 limit p).1

-- What holds of the variables of the loop before the first tool; `whole` is all the text that
