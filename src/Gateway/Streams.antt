-- ===== src/Gateway/Streams.antt =====
-- internal/gateway/gateway.go: StreamChat, StreamAnthropic and consumeStream. What a backend's
-- ChatStream gives is a parameter, the list of the items of its channel; `taken` tells whether the
-- client takes the n-th chunk before it goes away. A chunk stands for the JSON that is sent.
use ghcp_pool_go.Account
use ghcp_pool_go.Base.{
  ℕ, ◌+◌, Bool, true, false, Option, none, some, List, [], ◌∷◌, ◌++◌, if◌then◌else◌, pos, map,
  length, Text, text, is_empty,
}
use ghcp_pool_go.Cache.{CacheRecord, cache_store}
use ghcp_pool_go.Constraints.Stream.{no_usage}
use ghcp_pool_go.Errors.{BackendError}
use ghcp_pool_go.Gateway.{Gateway, Plan, after_failure, after_success, row_of}
use ghcp_pool_go.Pool.{update_account}
use ghcp_pool_go.Results.{StreamItem, Kind, delta, tool_call, done}
use ghcp_pool_go.Usage.{Usage, ToolCall, UsageRow, normalized, normalized_call, observe}
use ghcp_pool_go.Values.{char_chunks}

-- What a stream has said so far.
pub record Gathered : Type 0 where
  pub content : Text
  pub calls : List ToolCall
  pub usage : Usage
  pub finish : Text

abbrev pub nothing_yet : Gathered
nothing_yet = record { content = []; calls = []; usage = no_usage; finish = text "stop" }

abbrev pub gather_kind : Gathered → StreamItem → Kind → Gathered
gather_kind s i delta = record s { content = s.content ++ i.text_of }
gather_kind s i tool_call = record s { calls = s.calls ++ normalized_call i.call ∷ [] }
gather_kind s i done = record s {
  usage = normalized i.usage;
  finish = if is_empty i.finish_reason then s.finish else i.finish_reason;
}
gather_kind s i k = s

abbrev pub gather : Gathered → StreamItem → Gathered
gather s i = gather_kind s i i.kind

-- The loop of consumeStream, up to the end of the channel or an item with an error.
unfoldable pub consume_stream : Gathered → List StreamItem → Gathered × Option BackendError
unfolding normalized normalized_call
consume_stream s [] = (s, none)
consume_stream s (i ∷ items) = elim (i.failure) [
  | some e ↦ (s, some e)
  | none ↦ consume_stream (gather s i) items
]

pub data Opening : Type 0 where
  opened : List StreamItem → Opening
  not_opened : BackendError → Opening

pub data Ending : Type 0 where
  complete : Ending
  client_left : Ending
  broke : BackendError → Ending

-- What is sent of some chunks until the client goes away, and whether all of it was.
unfoldable pub deliver : {A : Type 0} → (ℕ → Bool) → ℕ → List A → List A × Bool
deliver taken n [] = ([], true)
deliver taken n (chunk ∷ chunks) = elim (taken n) [
  | false ↦ ([], false)
  | true ↦ let (out, all) = deliver taken (n + 1) chunks in (chunk ∷ out, all)
]

abbrev pub ended : Bool → Ending
ended all = if all then complete else client_left

abbrev pub failed_row : Text → Text → Usage → UsageRow
failed_row id model usage = record (row_of (some id) model usage (text "miss")) {
  success = false;
  error_type = text "backend_error";
}

abbrev pub cached_record : Plan → Gathered → CacheRecord
cached_record plan s = record {
  content = s.content;
  model = plan.model;
  finish_reason = s.finish;
  usage = s.usage;
  tool_calls = s.calls;
  responses_output = [];
  anthropic_content = [];
}

-- What follows the last chunk, with the slot given back.
unfoldable pub settle : (UsageRow → Bool) → ℕ → Gateway → Plan → Text → Gathered → Ending → Gateway
unfolding after_success after_failure update_account cache_store observe text
settle takes now g plan id s complete = record {
  router = record (g.router) { pool = after_success id now g.router.pool };
  cache = cache_store g.cache plan.cache_key (cached_record plan s) plan.control now;
  meter = observe takes g.meter (row_of (some id) plan.model s.usage (text "miss")) now;
}
settle takes now g plan id s client_left = record g {
  router = record (g.router) { pool = update_account id Account.release g.router.pool };
}
settle takes now g plan id s (broke e) = record g {
  router = record (g.router) { pool = after_failure id e now g.router.pool };
  meter = observe takes g.meter (failed_row id plan.model s.usage) now;
}

-- A hit is metered once all of it is sent.
abbrev pub after_hit : (UsageRow → Bool) → ℕ → Gateway → CacheRecord → Bool → Gateway
after_hit takes now g rec all =
    if all
    then record g {
      meter = observe takes g.meter (row_of none rec.model rec.usage (text "hit")) now;
    }
    else g

pub data ChatChunk : Type 0 where
  role_chunk : ChatChunk
  content_chunk : Text → ChatChunk
  tool_chunk : ℕ → ToolCall → ChatChunk
  finish_chunk : Text → ChatChunk
  usage_chunk : Usage → ChatChunk
  done_chunk : ChatChunk
  error_chunk : Text → Text → ChatChunk

abbrev pub numbered : ℕ → List ToolCall → List ChatChunk
numbered n [] = []
numbered n (call ∷ calls) = tool_chunk n call ∷ numbered (n + 1) calls

abbrev pub with_usage : Plan → Usage → List ChatChunk
with_usage plan usage = if plan.include_usage then usage_chunk usage ∷ [] else []

abbrev pub has_calls : List ToolCall → Bool
has_calls [] = false
has_calls (call ∷ calls) = true

abbrev pub last_reason : Gathered → Gathered
last_reason s = if has_calls s.calls then record s { finish = text "tool_calls" } else s

-- The chunk for an item, if there is one.
abbrev pub chat_chunk : StreamItem → Kind → Option ChatChunk
chat_chunk i delta = some (content_chunk i.text_of)
chat_chunk i tool_call = some (tool_chunk i.index (normalized_call i.call))
chat_chunk i k = none

-- The loop of StreamChat, with the number of chunks offered before.
unfoldable pub chat_items :
    (ℕ → Bool) → ℕ → Gathered → List StreamItem → List ChatChunk × Gathered × Ending
unfolding normalized normalized_call
chat_items taken n s [] = ([], s, complete)
chat_items taken n s (i ∷ items) = elim (i.failure) [
  | some e ↦ ([], s, broke e)
  | none ↦ elim (chat_chunk i i.kind) [
    | none ↦ chat_items taken n (gather s i) items
    | some c ↦ elim (taken n) [
      | false ↦ ([], gather s i, client_left)
      | true ↦ let (out, t, end) = chat_items taken (n + 1) (gather s i) items in (c ∷ out, t, end)
    ]
  ]
]

abbrev pub backend_error : BackendError → ChatChunk
backend_error e = error_chunk (text "backend_error") e.message

-- What the loop leaves to send: the end of the answer, or the error.
unfoldable pub close_chat :
    (ℕ → Bool) → ℕ → Plan → Gathered → Ending → List ChatChunk × Gathered × Ending
unfolding deliver text
close_chat taken n plan s complete =
    let t = last_reason s in
    let (out, all) =
      deliver taken n (finish_chunk t.finish ∷ (with_usage plan t.usage ++ done_chunk ∷ [])) in
    (out, t, ended all)
close_chat taken n plan s client_left = ([], s, client_left)
close_chat taken n plan s (broke e) = ((deliver taken n (backend_error e ∷ [])).0, s, broke e)

-- The chunks of an answer from an account, and how it ends.
unfoldable pub chat_answer : (ℕ → Bool) → Plan → Opening → List ChatChunk × Gathered × Ending
unfolding chat_items close_chat deliver text
chat_answer taken plan opening = elim (taken 0) [
  | false ↦ ([], nothing_yet, client_left)
  | true ↦ elim opening [
    | not_opened e ↦
        let (out, s, end) = close_chat taken 1 plan nothing_yet (broke e) in
        (role_chunk ∷ out, s, end)
    | opened items ↦
        let (said, s, end) = chat_items taken 1 nothing_yet items in
        let (out, t, end') = close_chat taken (1 + length said) plan s end in
        (role_chunk ∷ said ++ out, t, end')
  ]
]

abbrev pub replayed_chat : Plan → CacheRecord → List ChatChunk
replayed_chat plan rec =
    role_chunk ∷ map content_chunk (char_chunks rec.content (pos 24))
    ++ numbered 0 rec.tool_calls
    ++ finish_chunk rec.finish_reason ∷ with_usage plan rec.usage
    ++ done_chunk ∷ []

unfoldable pub stream_chat :
    (ℕ → Bool)
    → (UsageRow → Bool)
    → (Text → Opening)
    → Gateway
    → Plan
    → ℕ
    → Gateway × List ChatChunk
unfolding chat_answer deliver settle observe char_chunks text
stream_chat taken takes stream g plan now = elim (plan.cache_hit) [
  | some rec ↦
      let (out, all) = deliver taken 0 (replayed_chat plan rec) in
      (after_hit takes now g rec all, out)
  | none ↦ elim (plan.account) [
    | none ↦ (
      g,
      (deliver taken 0 (error_chunk (text "routing_error") (text "no account selected") ∷ [])).0,
    )
    | some id ↦
        let (out, s, end) = chat_answer taken plan (stream id) in
        (settle takes now g plan id s end, out)
  ]
]
