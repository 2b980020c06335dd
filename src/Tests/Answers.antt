-- ===== src/Tests/Answers.antt =====
-- Examples of the streams of the gateway.
use ghcp_pool_go.Base.{ℕ, true, [], ◌∷◌, refl, Text, ltb, Bool}
use ghcp_pool_go.Constraints.Stream.{plain_item}
use ghcp_pool_go.Gateway.Replay.{anthropic_replay_events}
use ghcp_pool_go.Gateway.Replay.Blocks
use ghcp_pool_go.Gateway.Replay.Blocks.{HasRead, read_all, new_reader}
use ghcp_pool_go.Gateway.Responses.{stream_responses}
use ghcp_pool_go.Gateway.Responses.Slot
use ghcp_pool_go.Gateway.Responses.Slot.{SlotAfter}
use ghcp_pool_go.Gateway.Slots.{Frees}
use ghcp_pool_go.Gateway.Freed
use ghcp_pool_go.Gateway.Streamed
use ghcp_pool_go.Gateway.Streamed.{CachesSent}
use ghcp_pool_go.Gateway.Streams.{Opening, opened, stream_chat}
use ghcp_pool_go.Results.{delta, tool_call, done}
use ghcp_pool_go.Tests.{id_a, pool, usage}
use ghcp_pool_go.Tests.Pools.{pool-IsValid}
use ghcp_pool_go.Tests.Served.{gateway, plan}
use ghcp_pool_go.Usage.{ToolCall}

abbrev pub call : ToolCall
call = record { id = b'c' ∷ []; name = b'f' ∷ []; arguments = b'{' ∷ b'}' ∷ []; kind = [] }

-- A text, a tool call and the end.
abbrev items : Text → Opening
items id = opened (
    record (plain_item delta) { text_of = b'h' ∷ b'i' ∷ [] }
    ∷ record (plain_item tool_call) { call = call }
    ∷ record (plain_item done) { usage = usage }
    ∷ [])

-- The client takes four chunks.
abbrev taken : ℕ → Bool
taken n = ltb n 4

stream_chat-Frees_example :
    Frees id_a pool (stream_chat taken (λ row. true) items gateway plan 9).0.router.pool
stream_chat-Frees_example =
    Freed.stream_chat-Frees taken (λ row. true) items gateway plan 9 id_a refl refl pool-IsValid

stream_chat-CachesSent_example :
    CachesSent gateway.cache plan 9
      (stream_chat taken (λ row. true) items gateway plan 9).1
      (stream_chat taken (λ row. true) items gateway plan 9).0.cache
stream_chat-CachesSent_example =
    Streamed.stream_chat-CachesSent taken (λ row. true) items gateway plan 9 id_a refl refl

anthropic_replay_events-read_example :
    HasRead
      (b'h' ∷ b'i' ∷ [])
      (call ∷ [])
      (read_all new_reader (anthropic_replay_events (b'h' ∷ b'i' ∷ []) (call ∷ [])))
anthropic_replay_events-read_example =
    Blocks.anthropic_replay_events-read (b'h' ∷ b'i' ∷ []) (call ∷ [])

stream_responses-SlotAfter_example :
    SlotAfter true id_a gateway (stream_responses taken (λ row. true) items true gateway plan 9).0
stream_responses-SlotAfter_example =
    Slot.stream_responses-SlotAfter taken (λ row. true) items true gateway plan 9 id_a refl refl
      pool-IsValid
