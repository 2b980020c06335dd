-- ===== src/Structured/Check.antt =====
-- internal/gateway/structured_output.go: validateStructuredOutput. The compiler of JSON Schemas is a
-- parameter: it gives the test of a schema, or the text of its error; so is the text of the error
-- that json.Unmarshal has for a text that is no JSON.
use ghcp_pool_go.Base.{
  ◌≡◌, refl, ap, subst, sym, ◌∙◌, Bool, true, false, ◌↔◌, not, ◌||◌, Option, none, some, [], ◌∷◌,
  ◌++◌, if◌then◌else◌, Text, text, is_empty, trim_space, contains, has_prefix, to_lower, Result, ok,
  err, arith, Bool-cases, Option-cases, inl, inr, ◌⊎◌,
}
use ghcp_pool_go.Errors.{structured_output_failure, is_non_retryable_client_error}
use ghcp_pool_go.Json.{Value, Fields, object, is_object}
use ghcp_pool_go.Json.Parse.{decode}
use ghcp_pool_go.Structured.{
  ResponseFormatSpec, wants_json, has_schema, structured_output_tool_conflict, has_conflict,
  conflict_message, conflict_reason,
}

pub record Compiler : Type 0 where
  pub resolve : Fields → Result (Value → Option Text)
  pub syntax_error : Text → Text

-- An error of this component.
unfoldable pub refused : Text → Text
unfolding structured_output_failure text
refused why = structured_output_failure ++ text ": " ++ why

abbrev refused_by : Option Text → Option Text
refused_by none = none
refused_by (some why) = some (refused why)

abbrev check_instance : Compiler → ResponseFormatSpec → Value → Option Text
check_instance c spec instance_value =
    if not (is_object instance_value)
    then some (refused (text "response must be a JSON object"))
    else if not (has_schema spec)
    then none
    else elim (c.resolve spec.schema) [
      | err e ↦ some (refused (text "request schema could not be compiled: " ++ e))
      | ok test ↦ refused_by (test instance_value)
    ]

-- The error, if there is one.
unfoldable pub validate_structured_output : Compiler → Text → ResponseFormatSpec → Option Text
unfolding refused decode trim_space text
validate_structured_output c content spec =
    let trimmed = trim_space content in
    if not (wants_json spec)
    then none
    else if is_empty trimmed
    then some (refused (text "model returned an empty response"))
    else elim (decode trimmed) [
      | none ↦ some (refused (text "response is not valid JSON: " ++ c.syntax_error trimmed))
      | some v ↦ check_instance c spec v
    ]

-- An answer that the request accepts: a JSON object, which the caller's schema takes.
pub record Conforms (c : Compiler) (spec : ResponseFormatSpec) (content : Text) : Type 0 where
  pub fields : Fields
  pub decodes : decode (trim_space content) ≡ some (object fields)
  pub accepted :
      has_schema spec ≡ true
      → (test : Value → Option Text) × (c.resolve spec.schema ≡ ok test)
        × (test (object fields) ≡ none)

any_of_six : (a b c d e f : Bool) → e ≡ true → (a || b || c || d || e || f) ≡ true
any_of_six a b c d e f h = ground arith

-- Whatever the reason, the error is one that is not tried again on another account.
pub refused_not_retried : (why : Text) → is_non_retryable_client_error (refused why) ≡ true
unfolding is_non_retryable_client_error refused to_lower contains has_prefix
    structured_output_failure text
refused_not_retried why =
    any_of_six (contains (to_lower (refused why)) (text "copilot upstream error 400"))
      (contains (to_lower (refused why)) (text "invalid_request_error"))
      (contains (to_lower (refused why)) (text "bad request"))
      (contains (to_lower (refused why)) (text "does not support reasoning effort configuration"))
      (contains (to_lower (refused why)) structured_output_failure)
      (contains (to_lower (refused why))
        (text "copilot sdk mode does not support this request shape"))
      refl

if_some : (b : Bool) (x e : Text) → (if b then some x else none) ≡ some e → x ≡ e
if_some true x e h = cc
if_some false x e h = absurd (cc)

-- A tool with the reserved name is such an error too.
pub structured_output_tool_conflict_not_retried :
    (params : Fields) (e : Text)
    → structured_output_tool_conflict params ≡ some e
    → is_non_retryable_client_error e ≡ true
unfolding structured_output_tool_conflict refused
structured_output_tool_conflict_not_retried params e h =
    subst (λ x. is_non_retryable_client_error x ≡ true)
      (if_some (has_conflict params) conflict_message e h) (refused_not_retried conflict_reason)

-- Only refusals are errors.
abbrev Refusals : Option Text → Type 0
Refusals none = Unit
Refusals (some e) = (why : Text) × (e ≡ refused why)

check_instance-Refusals :
    (c : Compiler) (spec : ResponseFormatSpec) (v : Value) → Refusals (check_instance c spec v)
check_instance-Refusals c spec v = elim (Bool-cases (not (is_object v))) [
  | inl y ↦ rw y (text "response must be a JSON object", refl)
  | inr f ↦ elim (Bool-cases (not (has_schema spec))) [
    | inl z ↦ rw f (rw z tt)
    | inr g ↦ rw f (rw g (compiled (c.resolve spec.schema)))
  ]
]
  where
    tested : (o : Option Text) → Refusals (refused_by o)
    tested none = tt
    tested (some why) = (why, refl)

    compiled :
        (r : Result (Value → Option Text))
        → Refusals (elim r [
          | err e ↦ some (refused (text "request schema could not be compiled: " ++ e))
          | ok test ↦ refused_by (test v)
        ])
    compiled (err e) = (text "request schema could not be compiled: " ++ e, refl)
    compiled (ok test) = tested (test v)

validate_structured_output-Refusals :
    (c : Compiler) (content : Text) (spec : ResponseFormatSpec)
    → Refusals (validate_structured_output c content spec)
unfolding validate_structured_output
validate_structured_output-Refusals c content spec = elim (Bool-cases (not (wants_json spec))) [
  | inl y ↦ rw (validate_structured_output, y) tt
  | inr f ↦ elim (Bool-cases (is_empty (trim_space content))) [
    | inl z ↦
        rw (validate_structured_output, f) (rw z (text "model returned an empty response", refl))
    | inr g ↦ rw (validate_structured_output, f) (rw g (decoded (decode (trim_space content))))
  ]
]
  where
    decoded :
        (o : Option Value)
        → Refusals (elim o [
          | none ↦
              some (
                refused
                  (text "response is not valid JSON: " ++ c.syntax_error (trim_space content)))
          | some v ↦ check_instance c spec v
        ])
    decoded none =
        (text "response is not valid JSON: " ++ c.syntax_error (trim_space content), refl)
    decoded (some v) = check_instance-Refusals c spec v

-- An error of validateStructuredOutput is classified as the client's, so that it is not tried again
-- on another account, whatever the answer, the schema and the reason.
pub validate_structured_output_not_retried :
    (c : Compiler) (content : Text) (spec : ResponseFormatSpec) (e : Text)
    → validate_structured_output c content spec ≡ some e
    → is_non_retryable_client_error e ≡ true
validate_structured_output_not_retried c content spec e h =
    of_refusal (subst Refusals h (validate_structured_output-Refusals c content spec))
  where
    of_refusal : (why : Text) × (e ≡ refused why) → is_non_retryable_client_error e ≡ true
    of_refusal (why, q) =
        subst (λ x. is_non_retryable_client_error x ≡ true) (sym q) (refused_not_retried why)

check_instance-Conforms :
    (c : Compiler) (spec : ResponseFormatSpec) (content : Text) (v : Value)
    → decode (trim_space content) ≡ some v
    → check_instance c spec v ≡ none
    → Conforms c spec content
check_instance-Conforms c spec content (object m) d h = record {
  fields = m;
  decodes = d;
  accepted = λ s. tested (c.resolve spec.schema) refl (rw s at h);
}
  where
    clean : (o : Option Text) → refused_by o ≡ none → o ≡ none
    clean none q = refl
    clean (some why) q = absurd (cc)

    tested :
        (r : Result (Value → Option Text))
        → c.resolve spec.schema ≡ r
        → elim (c.resolve spec.schema) [
          | err e ↦ some (refused (text "request schema could not be compiled: " ++ e))
          | ok test ↦ refused_by (test (object m))
        ]
          ≡ none
        → (test : Value → Option Text) × (c.resolve spec.schema ≡ ok test)
          × (test (object m) ≡ none)
    tested (err e) q z = absurd (bad (rw q at z))
      where
        bad : some (refused (text "request schema could not be compiled: " ++ e)) ≡ none → ⊥
        bad b = cc
    tested (ok test) q z = (test, q, clean (test (object m)) (rw q at z))
check_instance-Conforms c spec content v d h = absurd (cc)

some_ne_none : (e : Text) → some e ≡ none → ⊥
some_ne_none e h = cc

blank_none : (s : Text) → is_empty s ≡ true → decode s ≡ none
unfolding decode
blank_none [] h = refl
blank_none (c ∷ s) h = absurd (cc)

-- The two stages of the check.
abbrev check_decoded : Compiler → ResponseFormatSpec → Text → Option Value → Option Text
check_decoded c spec trimmed none =
    some (refused (text "response is not valid JSON: " ++ c.syntax_error trimmed))
check_decoded c spec trimmed (some v) = check_instance c spec v

full_check :
    (c : Compiler) (content : Text) (spec : ResponseFormatSpec)
    → wants_json spec ≡ true
    → is_empty (trim_space content) ≡ false
    → validate_structured_output c content spec
      ≡ check_decoded c spec (trim_space content) (decode (trim_space content))
unfolding validate_structured_output
full_check c content spec w g =
    rw (validate_structured_output, w) (rw g (same (decode (trim_space content))))
  where
    same :
        (o : Option Value)
        → elim o [
          | none ↦
              some (
                refused
                  (text "response is not valid JSON: " ++ c.syntax_error (trim_space content)))
          | some v ↦ check_instance c spec v
        ]
          ≡ check_decoded c spec (trim_space content) o
    same none = refl
    same (some v) = refl

-- Where JSON is asked for, validateStructuredOutput has no error exactly for the answers that are a
-- JSON object that the schema of the request, if it has one, compiles for and accepts.
pub validate_structured_output_iff :
    (c : Compiler) (content : Text) (spec : ResponseFormatSpec)
    → wants_json spec ≡ true
    → (validate_structured_output c content spec ≡ none) ↔ Conforms c spec content
unfolding validate_structured_output
validate_structured_output_iff c content spec w = (sound, complete)
  where
    sound : validate_structured_output c content spec ≡ none → Conforms c spec content
    sound h = elim (Bool-cases (is_empty (trim_space content))) [
      | inl z ↦ absurd (
          some_ne_none (refused (text "model returned an empty response"))
            (rw z at (rw (validate_structured_output, w) at h)))
      | inr g ↦ elim (Option-cases (decode (trim_space content))) [
        | inl e ↦ absurd (
            some_ne_none
              (refused (text "response is not valid JSON: " ++ c.syntax_error (trim_space content)))
              (sym (ap (check_decoded c spec (trim_space content)) e)
                ∙ sym (full_check c content spec w g)
                ∙ h))
        | inr (v, e) ↦ check_instance-Conforms c spec content v e (
            sym (ap (check_decoded c spec (trim_space content)) e)
            ∙ sym (full_check c content spec w g)
            ∙ h)
      ]
    ]

    complete : Conforms c spec content → validate_structured_output c content spec ≡ none
    complete k = elim (Bool-cases (is_empty (trim_space content))) [
      | inl z ↦ absurd (clash (sym (blank_none (trim_space content) z) ∙ k.decodes))
      | inr g ↦
          full_check c content spec w g
          ∙ ap (check_decoded c spec (trim_space content)) k.decodes
          ∙ clean (Bool-cases (has_schema spec))
    ]
      where
        clash : none ≡ some (object k.fields) → ⊥
        clash q = cc

        clean :
            (has_schema spec ≡ true) ⊎ (has_schema spec ≡ false)
            → check_instance c spec (object k.fields) ≡ none
        clean (inr n) = rw n refl
        clean (inl y) = let (test, e, t) = k.accepted y in rw (y, e, t) refl
