-- ===== src/Sdk/Numbered.antt =====
-- internal/gateway/copilot_sdk_stream.go: the tool calls of a stream are numbered in order, and no
-- two of them have one id.
use ghcp_pool_go.Base.{
  suc, ℤ, ◌≡◌, refl, sym, ap, ◌∙◌, subst, inl, inr, Bool, true, false, not, ◌&&◌, ◌||◌, ◌==◌,
  Option, none, some, List, [], ◌∷◌, ◌++◌, All, length, Text, is_empty, arith, Bool-cases, ==_iff,
  true_ne_false,
}
use ghcp_pool_go.Results.{StreamItem, error, done}
use ghcp_pool_go.Sdk.{
  plain_item, session_failure, done_reason, reduce_content, normalized, ToolRequest,
  AssistantMessage, SessionEvent, message_delta, assistant_message, external_tool, assistant_usage,
  session_idle, session_error, other_event, SdkStreamReducer, append_tool_call_unique, last_call,
  tool_item, reduce_request, reduce_requests, reduce_assistant_message, reduce_content, reduce,
  reduce_events, tool_call_from_sdk_request, tool_call_from_sdk_external_tool,
  is_sdk_web_search_internal_tool, is_sdk_native_web_tool, with_output, text_item,
}
use ghcp_pool_go.Usage.{ToolCall, normalized_call}
use ghcp_pool_go.Sdk.Calls.{
  Counts, Counts-append, ids, length-ids, Apart, Distinct, ids-append, Distinct-append, Changes,
  append_tool_call_unique-Changes,
}

-- What an event does to the calls and the items.
pub record Goes (r : List ToolCall) (items : List StreamItem) (s : List ToolCall) : Type 0 where
  pub counts : Counts (length r) items (length s)
  pub distinct : Distinct (ids r) → Distinct (ids s)

Goes-refl :
    (calls : List ToolCall) (items : List StreamItem)
    → Counts (length calls) items (length calls)
    → Goes calls items calls
Goes-refl calls items c = record { counts = c; distinct = λ d. d }

Goes-trans :
    (a b c : List ToolCall) (items more : List StreamItem)
    → Goes a items b
    → Goes b more c
    → Goes a (items ++ more) c
Goes-trans a b c items more h k = record {
  counts = Counts-append (length a) (length b) (length c) items more h.counts k.counts;
  distinct = λ d. k.distinct (h.distinct d);
}

length-append_one :
    (calls : List ToolCall) (next : ToolCall) → length (calls ++ next ∷ []) ≡ suc (length calls)
length-append_one [] next = refl
length-append_one (call ∷ calls) next = ap suc (length-append_one calls next)

last_call-append : (calls : List ToolCall) (next : ToolCall) → last_call (calls ++ next ∷ []) ≡ next
last_call-append [] next = refl
last_call-append (call ∷ []) next = refl
last_call-append (call ∷ other ∷ calls) next = last_call-append (other ∷ calls) next

same_length :
    (calls changed : List ToolCall) → ids changed ≡ ids calls → length changed ≡ length calls
same_length calls changed e = sym (length-ids changed) ∙ ap length e ∙ length-ids calls

new_item-Goes :
    (calls : List ToolCall) (next : ToolCall)
    → is_empty next.name ≡ false
    → All (λ a. Apart a next.id) (ids calls)
    → Goes calls (tool_item (calls ++ next ∷ []) ∷ []) (calls ++ next ∷ [])
new_item-Goes calls next named apart = record {
  counts = (
    (
      omega (arith, length-append_one calls next),
      ap (λ c. is_empty c.name) (last_call-append calls next) ∙ named,
    ),
    sym (length-append_one calls next),
  );
  distinct = λ d.
      subst Distinct (sym (ids-append calls next)) (Distinct-append (ids calls) next.id d apart);
}

changed-Goes :
    (calls changed : List ToolCall) (next : ToolCall)
    → Changes calls next changed
    → (length changed == length calls) ≡ false
    → Goes calls (tool_item changed ∷ []) changed
changed-Goes calls changed next (inl e) f = absurd (
    true_ne_false
      (sym ((==_iff (length changed) (length calls)).1 (same_length calls changed e)) ∙ f))
changed-Goes calls changed next (inr (e, named, apart)) f =
    subst (λ x. Goes calls (tool_item x ∷ []) x) (sym e) (new_item-Goes calls next named apart)

kept-Goes :
    (calls changed : List ToolCall) (next : ToolCall)
    → Changes calls next changed
    → (length changed == length calls) ≡ true
    → Goes calls [] changed
kept-Goes calls changed next c y = record {
  counts = sym ((==_iff (length changed) (length calls)).0 y);
  distinct = λ d. unchanged c d;
}
  where
    unchanged : Changes calls next changed → Distinct (ids calls) → Distinct (ids changed)
    unchanged (inl e) d = subst Distinct (sym e) d
    unchanged (inr (e, named, apart)) d = absurd (
        omega (
          arith,
          length-append_one calls next,
          ap length e,
          (==_iff (length changed) (length calls)).0 y,
        ))

-- What a step of the reducer does.
abbrev pub Does : SdkStreamReducer → SdkStreamReducer × List StreamItem → Type 0
Does r out = Goes r.tool_calls (out.1) ((out.0).tool_calls)

reduce_request-Does :
    (r : SdkStreamReducer) (name : Text) (call : ToolCall) → Does r (reduce_request r name call)
unfolding reduce_request
reduce_request-Does r name call =
    elim (Bool-cases (is_sdk_web_search_internal_tool name || is_sdk_native_web_tool name)) [
      | inl y ↦ rw (reduce_request, y) (Goes-refl r.tool_calls [] refl)
      | inr f ↦
          elim (Bool-cases
            (length (append_tool_call_unique r.tool_calls call) == length r.tool_calls)) [
              | inl same ↦
                  rw (reduce_request, f)
                    (rw same (
                      kept-Goes r.tool_calls (append_tool_call_unique r.tool_calls call)
                        (normalized_call call) (append_tool_call_unique-Changes r.tool_calls call)
                        same))
              | inr new ↦
                  rw (reduce_request, f)
                    (rw new (
                      changed-Goes r.tool_calls (append_tool_call_unique r.tool_calls call)
                        (normalized_call call) (append_tool_call_unique-Changes r.tool_calls call)
                        new))
            ]
    ]

reduce_requests-Does :
    (r : SdkStreamReducer) (requests : List ToolRequest) → Does r (reduce_requests r requests)
unfolding reduce_requests
reduce_requests-Does r [] = Goes-refl r.tool_calls [] refl
reduce_requests-Does r (request ∷ requests) =
    let first = reduce_request r request.name (tool_call_from_sdk_request request) in
    let rest = reduce_requests (first.0) requests in
    Goes-trans r.tool_calls ((first.0).tool_calls) ((rest.0).tool_calls) (first.1) (rest.1)
      (reduce_request-Does r request.name (tool_call_from_sdk_request request))
      (reduce_requests-Does (first.0) requests)

with_output-calls :
    (r : SdkStreamReducer) (n : Option ℤ) → (with_output r n).tool_calls ≡ r.tool_calls
with_output-calls r none = refl
with_output-calls r (some n) = refl

reduce_content-Does : (r : SdkStreamReducer) (m : AssistantMessage) → Does r (reduce_content r m)
unfolding reduce_content
reduce_content-Does r m =
    elim (Bool-cases (not r.saw_assistant_delta && not (is_empty m.content))) [
      | inl y ↦
          let q : SdkStreamReducer = record r { saw_assistant_delta = true } in
          let after : SdkStreamReducer × List StreamItem = reduce_requests q m.tool_requests in
          rw (reduce_content, y)
            (Goes-trans r.tool_calls r.tool_calls ((after.0).tool_calls) (text_item m.content ∷ [])
              (after.1) (Goes-refl r.tool_calls (text_item m.content ∷ []) refl)
              (reduce_requests-Does q m.tool_requests))
      | inr f ↦ rw (reduce_content, f) (reduce_requests-Does r m.tool_requests)
    ]

reduce_assistant_message-Does :
    (r : SdkStreamReducer) (m : AssistantMessage) → Does r (reduce_assistant_message r m)
unfolding reduce_assistant_message
reduce_assistant_message-Does r m =
    subst
      (λ calls.
        Goes calls ((reduce_assistant_message r m).1)
          (((reduce_assistant_message r m).0).tool_calls))
      (with_output-calls r m.output_tokens) (reduce_content-Does (with_output r m.output_tokens) m)

reduce-Does :
    (r : SdkStreamReducer) (event : SessionEvent)
    → Goes r.tool_calls ((reduce r event).1) (((reduce r event).0).tool_calls)
unfolding reduce
reduce-Does r (message_delta t) = elim (Bool-cases (is_empty t)) [
  | inl y ↦ rw (reduce, y) (Goes-refl r.tool_calls [] refl)
  | inr f ↦ rw (reduce, f) (Goes-refl r.tool_calls (text_item t ∷ []) refl)
]
reduce-Does r (assistant_message m) = reduce_assistant_message-Does r m
reduce-Does r (external_tool request) =
    reduce_request-Does r request.name (tool_call_from_sdk_external_tool request)
reduce-Does r (assistant_usage u) = Goes-refl r.tool_calls [] refl
reduce-Does r session_idle =
    Goes-refl r.tool_calls
      (record (plain_item done) { usage = normalized r.usage; finish_reason = done_reason r } ∷ [])
      refl
reduce-Does r (session_error message) =
    Goes-refl r.tool_calls
      (record (plain_item error) { failure = some (session_failure message) } ∷ []) refl
reduce-Does r other_event = Goes-refl r.tool_calls [] refl

-- The calls after the events of a stream: what an event that is not the last leaves to the others.
rest_of :
    (r s : SdkStreamReducer) (items : List StreamItem) (events : List SessionEvent)
    (terminal : Bool)
    → Goes r.tool_calls items s.tool_calls
    → Does s (reduce_events s events)
    → Does r (elim terminal [
      | true ↦ (s, items)
      | false ↦ let (t, more) = reduce_events s events in (t, items ++ more)
    ])
rest_of r s items events true h k = h
rest_of r s items events false h k =
    Goes-trans r.tool_calls s.tool_calls (((reduce_events s events).0).tool_calls) items
      ((reduce_events s events).1) h k

-- The tool calls among the items of a stream are numbered one after the other from the calls that the
-- reducer has, each has a name, and if no two calls of the reducer have one id that is not empty, the
-- same holds after the events.
pub reduce_events-Goes :
    (r : SdkStreamReducer) (events : List SessionEvent)
    → Goes r.tool_calls ((reduce_events r events).1) (((reduce_events r events).0).tool_calls)
unfolding reduce_events
reduce_events-Goes r [] = Goes-refl r.tool_calls [] refl
reduce_events-Goes r (event ∷ events) =
    rest_of r ((reduce r event).0) ((reduce r event).1) events ((reduce r event).2)
      (reduce-Does r event) (reduce_events-Goes ((reduce r event).0) events)
