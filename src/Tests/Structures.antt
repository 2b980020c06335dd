-- ===== src/Tests/Structures.antt =====
-- Examples of structured output: the payload, its check, the cache of schemas and the calls.
use ghcp_pool_go.Base.{
  ℕ, zero, suc, ◌≡◌, arith, text_eq_iff, ◌↔◌, ◌⊎◌, refl, Bool, true, false, Option, none, some,
  List, [], ◌∷◌, Text, text, text_eq, Result, ok, err, Dict, lookup, if◌then◌else◌,
}
use ghcp_pool_go.Json.{Fields, string, object, field, no_fields}
use ghcp_pool_go.Json.Tools.{request_has_web_search_tool}
use ghcp_pool_go.Results.{ChatResult, NeutralMessage, Reply, answers, fails}
use ghcp_pool_go.Structured.{ResponseFormatSpec, parse_response_format, wants_json}
use ghcp_pool_go.Structured.Apply
use ghcp_pool_go.Structured.Apply.{IsLifted}
use ghcp_pool_go.Structured.Check
use ghcp_pool_go.Structured.Check.{Compiler, Conforms, refused, validate_structured_output}
use ghcp_pool_go.Structured.Extract.{apply_structured_output, extract_json_payload}
use ghcp_pool_go.Structured.Payload
use ghcp_pool_go.Structured.Payload.{Infix}
use ghcp_pool_go.Json.Parse.{json_valid}
use ghcp_pool_go.Structured.Repair.{Calls, retry_transient_chat, chat_sdk_structured}
use ghcp_pool_go.Structured.Repair.Repaired
use ghcp_pool_go.Structured.Repair.Repaired.{Promises, ReturnedBy}
use ghcp_pool_go.Structured.Repair.Retried
use ghcp_pool_go.Structured.Repair.Retried.{Answered}
use ghcp_pool_go.Structured.Schemas
use ghcp_pool_go.Structured.Schemas.{Lru, resolve_json_schema, after_requests, ResolvesTo}
use ghcp_pool_go.Tests.Answers.{call}
use ghcp_pool_go.Tests.Served.{result, broken_pipe}

abbrev fenced : Text
fenced = b'a' ∷ b' ' ∷ b'{' ∷ b'}' ∷ b'.' ∷ []

found : extract_json_payload fenced ≡ some (b'{' ∷ b'}' ∷ [])
unfolding extract_json_payload
found = refl

extract_json_payload-Infix_example :
    Infix (b'{' ∷ b'}' ∷ []) fenced × (json_valid (b'{' ∷ b'}' ∷ []) ≡ true)
extract_json_payload-Infix_example =
    Payload.extract_json_payload-Infix fenced (b'{' ∷ b'}' ∷ []) found

abbrev spec : ResponseFormatSpec
spec = record { kind = b'j' ∷ []; name = []; strict = false; schema = no_fields }

abbrev said : ChatResult
said = record result { content = fenced; tool_calls = call ∷ [] }

apply_structured_output-IsLifted_example : IsLifted said (apply_structured_output said spec)
apply_structured_output-IsLifted_example = Apply.apply_structured_output-IsLifted said spec refl

-- Every schema compiles to a test that accepts everything.
abbrev compiler : Compiler
compiler = record { resolve = λ schema. ok (λ v. none); syntax_error = λ s. [] }

validate_structured_output_iff_example :
    (validate_structured_output compiler fenced spec ≡ none) ↔ Conforms compiler spec fenced
validate_structured_output_iff_example =
    Check.validate_structured_output_iff compiler fenced spec refl

abbrev format : Fields
format =
    field (text "response_format")
      (object (field (text "type") (string (text "json_object")) no_fields)) no_fields

asks_json : wants_json (parse_response_format format) ≡ true
unfolding parse_response_format
asks_json = refl

-- Prose first, then an object.
abbrev chat : ℕ → List NeutralMessage → Reply
chat n messages = answers (record result { content = if text_eq fenced [] then [] else fenced })

chat_sdk_structured-Promises_example :
    Promises compiler
      (parse_response_format format)
      (ReturnedBy chat)
      (chat_sdk_structured compiler chat [] format)
chat_sdk_structured-Promises_example =
    Repaired.chat_sdk_structured-Promises compiler chat [] format asks_json

-- The first call is overloaded.
abbrev calls : Calls
calls = record {
  attempt = λ i. elim i [
    | zero ↦ fails (record broken_pipe { message = text "overloaded" })
    | suc n ↦ answers result
  ];
  waits = λ i. true;
  ended = broken_pipe;
}

retry_transient_chat_iff_example :
    (retry_transient_chat calls no_fields ≡ answers result) ↔ Answered calls result 0 2
unfolding request_has_web_search_tool
retry_transient_chat_iff_example = Retried.retry_transient_chat_iff calls no_fields result

-- A cache of the two schemas that were added last.
abbrev newest : Text → Option Bool → Dict (Option Bool) → Dict (Option Bool)
newest k w [] = (k, w) ∷ []
newest k w (e ∷ c) = (k, w) ∷ e ∷ []

lookup-empty : (k : Text) → lookup {V = Option Bool} k [] ≡ none
unfolding lookup
lookup-empty k = refl

lookup-newest :
    (k j : Text) (w v : Option Bool) (c : Dict (Option Bool))
    → lookup j (newest k w c) ≡ some v
    → ((k ≡ j) × (w ≡ v)) ⊎ (lookup j c ≡ some v)
unfolding lookup
lookup-newest k j w v [] h = ground (arith, text_eq_iff k j)
lookup-newest k j w v ((i, u) ∷ c) h = ground (arith, text_eq_iff k j, text_eq_iff i j)

abbrev two_newest : Lru (Option Bool)
two_newest = record {
  Cache = Dict (Option Bool);
  empty = [];
  get = λ k c. (lookup k c, c);
  add = newest;
  get_empty = lookup-empty;
  get_get = λ k j c v h. h;
  get_add = lookup-newest;
}

-- The empty schema compiles, no other does.
abbrev compile : Text → Result Bool
compile key = if text_eq key (b'{' ∷ b'}' ∷ []) then ok true else err []

resolve_json_schema_refines_example :
    ((resolve_json_schema two_newest compile
        (after_requests two_newest compile (no_fields ∷ []))
        no_fields).1
      ≡ ok true)
    ↔ ResolvesTo two_newest compile no_fields true
resolve_json_schema_refines_example =
    Schemas.resolve_json_schema_refines two_newest compile (no_fields ∷ []) no_fields true
