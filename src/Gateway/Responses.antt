-- ===== src/Gateway/Responses.antt =====
-- internal/gateway/gateway.go: StreamResponses and responseReplayEvents. An event stands for the JSON
-- that is sent, without the random ids; what the store of responses gets is told by a flag.
pub mod Slot
use ghcp_pool_go.Base.{
  ℕ, ◌+◌, Bool, true, false, not, ◌&&◌, Option, none, some, List, [], ◌∷◌, ◌++◌, pos, if◌then◌else◌,
  length, Text, text, text_eq, is_empty,
}
use ghcp_pool_go.Errors.{BackendError}
use ghcp_pool_go.Gateway.{Gateway, Plan}
use ghcp_pool_go.Gateway.Replay.{consumed, gathered_from}
use ghcp_pool_go.Gateway.Streams.{
  Gathered, Opening, Ending, complete, client_left, broke, deliver, ended, settle, after_hit,
  has_calls, last_reason, consume_stream,
}
use ghcp_pool_go.Usage.{Usage, ToolCall, UsageRow, observe}
use ghcp_pool_go.Values.{char_chunks}

pub data OutputItem : Type 0 where
  search_item : OutputItem
  message_item : Text → OutputItem
  custom_item : ToolCall → OutputItem
  function_item : ToolCall → OutputItem

-- The number after most names is the index of the item in the output.
pub data ResponseEvent : Type 0 where
  created : ResponseEvent
  in_progress : ResponseEvent
  item_added : ℕ → OutputItem → ResponseEvent
  item_done : ℕ → OutputItem → ResponseEvent
  search_stage : ℕ → Text → ResponseEvent
  part_added : ℕ → ResponseEvent
  part_done : ℕ → Text → ResponseEvent
  output_delta : ℕ → Text → ResponseEvent
  output_done : ℕ → Text → ResponseEvent
  input_delta : ℕ → ToolCall → ResponseEvent
  input_done : ℕ → ToolCall → ResponseEvent
  completed_response : Text → Gathered → ResponseEvent
  failed_response : Text → ResponseEvent

-- Events with their sequence numbers.
abbrev numbered_from : ℕ → List ResponseEvent → List (ℕ × ResponseEvent)
numbered_from n [] = []
numbered_from n (event ∷ events) = (n, event) ∷ numbered_from (n + 1) events

abbrev output_deltas : ℕ → List Text → List ResponseEvent
output_deltas index [] = []
output_deltas index (piece ∷ pieces) = output_delta index piece ∷ output_deltas index pieces

unfoldable pub search_events : ℕ → List ResponseEvent
unfolding text
search_events index =
    item_added index search_item
    ∷ search_stage index (text "in_progress")
    ∷ search_stage index (text "searching")
    ∷ search_stage index (text "completed")
    ∷ item_done index search_item
    ∷ []

abbrev message_events : ℕ → Text → List Text → List ResponseEvent
message_events index content pieces =
    item_added index (message_item []) ∷ part_added index ∷ output_deltas index pieces
    ++ output_done index content
      ∷ part_done index content
      ∷ item_done index (message_item content)
      ∷ []

abbrev call_item : ToolCall → OutputItem
call_item call = if text_eq call.kind (text "custom") then custom_item call else function_item call

unfoldable pub call_events : ℕ → List ToolCall → List ResponseEvent
unfolding text text_eq
call_events index [] = []
call_events index (call ∷ calls) =
    item_added index (call_item (record call { arguments = [] }))
    ∷ input_delta index call
    ∷ input_done index call
    ∷ item_done index (call_item call)
    ∷ call_events (index + 1) calls

-- The message and the calls of an answer, from an index on.
abbrev answer_from : ℕ → Text → List ToolCall → List ResponseEvent
answer_from index content calls =
    if is_empty content
    then call_events index calls
    else (message_events index content (char_chunks content (pos 24))
        ++ call_events (index + 1) calls)

unfoldable pub response_replay_events : Text → List ToolCall → Bool → List ResponseEvent
unfolding search_events call_events char_chunks
response_replay_events content calls web_search =
    if web_search
    then search_events 0 ++ answer_from 1 content calls
    else if is_empty content && not (has_calls calls)
    then message_events 0 [] []
    else answer_from 0 content calls

-- The events of a whole answer, after the first two.
abbrev response_events : Bool → Gathered → List (ℕ × ResponseEvent)
response_events web_search s = numbered_from 3 (
    response_replay_events s.content s.calls (web_search && not (has_calls s.calls))
    ++ completed_response (last_reason s).finish s ∷ [])

unfoldable pub responses_rest :
    (ℕ → Bool)
    → Bool
    → Gathered × Option BackendError
    → List (ℕ × ResponseEvent) × Gathered × Ending
unfolding deliver response_replay_events
responses_rest taken web_search (s, some e) =
    ((deliver taken 2 ((3, failed_response e.message) ∷ [])).0, s, broke e)
responses_rest taken web_search (s, none) =
    let (out, all) = deliver taken 2 (response_events web_search s) in
    (out, last_reason s, ended all)

abbrev is_complete : Ending → Bool
is_complete complete = true
is_complete client_left = false
is_complete (broke e) = false

-- From the second event on. The slot is given back from here on only.
unfoldable pub responses_begun :
    (ℕ → Bool)
    → (UsageRow → Bool)
    → (Text → Opening)
    → Bool
    → Gateway
    → Plan
    → ℕ
    → Gateway × List (ℕ × ResponseEvent) × Bool
unfolding responses_rest response_replay_events consume_stream deliver settle observe text
responses_begun taken takes stream web_search g plan now = elim (plan.cache_hit) [
  | some rec ↦
      let (out, all) = deliver taken 2 (response_events web_search (gathered_from rec)) in
      (after_hit takes now g rec all, out, all)
  | none ↦ elim (plan.account) [
    | none ↦
        (g, (deliver taken 2 ((3, failed_response (text "no account selected")) ∷ [])).0, false)
    | some id ↦
        let (out, s, end) = responses_rest taken web_search (consumed (stream id)) in
        (settle takes now g plan id s end, out, is_complete end)
  ]
]

unfoldable pub stream_responses :
    (ℕ → Bool)
    → (UsageRow → Bool)
    → (Text → Opening)
    → Bool
    → Gateway
    → Plan
    → ℕ
    → Gateway × List (ℕ × ResponseEvent) × Bool
unfolding responses_begun
stream_responses taken takes stream web_search g plan now =
    if not (taken 0)
    then (g, [], false)
    else if not (taken 1)
    then (g, (1, created) ∷ [], false)
    else (let (g', out, stored) = responses_begun taken takes stream web_search g plan now in
        (g', (1, created) ∷ (2, in_progress) ∷ out, stored))
