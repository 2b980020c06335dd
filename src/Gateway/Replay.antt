-- ===== src/Gateway/Replay.antt =====
-- internal/gateway/gateway.go: StreamAnthropic and anthropicReplayEvents. An event stands for the
-- JSON that is sent; the options of the request only shape that JSON.
pub mod Blocks
use ghcp_pool_go.Base.{
  ℕ, ◌+◌, Bool, true, false, Option, none, some, List, [], ◌∷◌, ◌++◌, if◌then◌else◌, pos, map,
  length, Text, text, is_empty,
}
use ghcp_pool_go.Cache.{CacheRecord}
use ghcp_pool_go.Constraints.Stream.{no_usage}
use ghcp_pool_go.Gateway.{Gateway, Plan}
use ghcp_pool_go.Gateway.Streams.{
  Gathered, nothing_yet, Opening, opened, not_opened, Ending, complete, client_left, broke, settle,
  deliver, consume_stream, last_reason, after_hit, ended, has_calls,
}
use ghcp_pool_go.Errors.{BackendError}
use ghcp_pool_go.Usage.{Usage, ToolCall, UsageRow}
use ghcp_pool_go.Values.{char_chunks}

pub data AnthropicEvent : Type 0 where
  message_start : Usage → AnthropicEvent
  text_block_start : ℕ → AnthropicEvent
  tool_block_start : ℕ → Text → Text → AnthropicEvent
  text_delta : ℕ → Text → AnthropicEvent
  input_json_delta : ℕ → Text → AnthropicEvent
  block_stop : ℕ → AnthropicEvent
  message_delta : Text → Usage → AnthropicEvent
  message_stop : AnthropicEvent
  anthropic_failure : Text → AnthropicEvent

abbrev pub deltas : ℕ → List Text → List AnthropicEvent
deltas index [] = []
deltas index (piece ∷ pieces) = text_delta index piece ∷ deltas index pieces

unfoldable pub tool_blocks : ℕ → List ToolCall → List AnthropicEvent
tool_blocks index [] = []
tool_blocks index (call ∷ calls) =
    tool_block_start index call.id call.name
    ∷ input_json_delta index call.arguments
    ∷ block_stop index
    ∷ tool_blocks (index + 1) calls

-- An answer without content and tools is an empty text block.
unfoldable pub anthropic_replay_events : Text → List ToolCall → List AnthropicEvent
unfolding tool_blocks char_chunks
anthropic_replay_events content calls =
    if is_empty content
    then (if has_calls calls then tool_blocks 0 calls else text_block_start 0 ∷ block_stop 0 ∷ [])
    else text_block_start 0
      ∷ (deltas 0 (char_chunks content (pos 24)) ++ block_stop 0 ∷ tool_blocks 1 calls)

-- The events of a whole answer after the first.
abbrev answer_events : Gathered → List AnthropicEvent
answer_events s =
    anthropic_replay_events s.content s.calls
    ++ message_delta (last_reason s).finish s.usage ∷ message_stop ∷ []

abbrev pub gathered_from : CacheRecord → Gathered
gathered_from rec = record {
  content = rec.content;
  calls = rec.tool_calls;
  usage = rec.usage;
  finish = rec.finish_reason;
}

abbrev pub consumed : Opening → Gathered × Option BackendError
consumed (opened items) = consume_stream nothing_yet items
consumed (not_opened e) = (nothing_yet, some e)

-- The answer of an account, after its first event: what is sent of it, and how it ends.
unfoldable pub anthropic_rest :
    (ℕ → Bool) → Gathered × Option BackendError → List AnthropicEvent × Gathered × Ending
unfolding deliver anthropic_replay_events text
anthropic_rest taken (s, some e) =
    ((deliver taken 1 (anthropic_failure e.message ∷ [])).0, s, broke e)
anthropic_rest taken (s, none) =
    let (out, all) = deliver taken 1 (answer_events s) in (out, last_reason s, ended all)

unfoldable pub anthropic_answer : (ℕ → Bool) → Opening → List AnthropicEvent × Gathered × Ending
unfolding anthropic_rest consume_stream
anthropic_answer taken opening = elim (taken 0) [
  | false ↦ ([], nothing_yet, client_left)
  | true ↦
      let (out, s, end) = anthropic_rest taken (consumed opening) in
      (message_start no_usage ∷ out, s, end)
]

unfoldable pub stream_anthropic :
    (ℕ → Bool)
    → (UsageRow → Bool)
    → (Text → Opening)
    → Gateway
    → Plan
    → ℕ
    → Gateway × List AnthropicEvent
unfolding anthropic_answer anthropic_replay_events deliver settle text
stream_anthropic taken takes stream g plan now = elim (plan.cache_hit) [
  | some rec ↦
      let (out, all) =
        deliver taken 0 (message_start rec.usage ∷ answer_events (gathered_from rec)) in
      (after_hit takes now g rec all, out)
  | none ↦ elim (plan.account) [
    | none ↦ (g, (deliver taken 0 (anthropic_failure (text "no account selected") ∷ [])).0)
    | some id ↦
        let (out, s, end) = anthropic_answer taken (stream id) in
        (settle takes now g plan id s end, out)
  ]
]
