-- ===== src/Gateway/Replay/Blocks.antt =====
-- internal/gateway/gateway.go: the blocks that anthropicReplayEvents sends, as a client reads them.
use ghcp_pool_go.Base.{
  ℕ, ◌+◌, ◌≡◌, refl, sym, ap, ◌∙◌, Bool, true, false, ◌==◌, Option, none, some, List, [], ◌∷◌, ◌++◌,
  if◌then◌else◌, pos, map, append-nil, append_assoc, Text, arith,
}
use ghcp_pool_go.Gateway.Replay.{
  AnthropicEvent, text_block_start, tool_block_start, text_delta, input_json_delta, block_stop,
  deltas, tool_blocks, anthropic_replay_events, stream_anthropic, anthropic_answer,
}
use ghcp_pool_go.Gateway.Streams.{Opening}
use ghcp_pool_go.Gateway.Freed.{settle-Frees}
use ghcp_pool_go.Gateway.Slots.{Frees}
use ghcp_pool_go.Gateway.{Gateway, Plan}
use ghcp_pool_go.Pool.Valid.{IsValid}
use ghcp_pool_go.Usage.{ToolCall, UsageRow}
use ghcp_pool_go.Values.{char_chunks}
use ghcp_pool_go.Values.Lists.{join, join-char_chunks}

-- A reader of blocks: the index of the next block, the kind and index of the open one, and the text
-- and the tool inputs read so far.
pub data Open : Type 0 where
  shut : Open
  in_text : Open
  in_tool : Text → Text → Open

pub record Reader : Type 0 where
  pub next : ℕ
  pub state : Open
  pub heard : Text
  pub tools : List (Text × Text × Text)

-- Whether an event may come now is up to the block that is open and to its index.
abbrev read_at : Reader → Open → AnthropicEvent → Option Reader
read_at r shut (text_block_start i) =
    if i == r.next then some (record r { state = in_text }) else none
read_at r shut (tool_block_start i id name) =
    if i == r.next then some (record r { state = in_tool id name }) else none
read_at r in_text (text_delta i t) =
    if i == r.next then some (record r { heard = r.heard ++ t }) else none
read_at r (in_tool id name) (input_json_delta i input) =
    if i == r.next then some (record r { tools = r.tools ++ (id, name, input) ∷ [] }) else none
read_at r in_text (block_stop i) =
    if i == r.next then some (record r { state = shut; next = r.next + 1 }) else none
read_at r (in_tool id name) (block_stop i) =
    if i == r.next then some (record r { state = shut; next = r.next + 1 }) else none
read_at r state event = none

abbrev pub read_all : Reader → List AnthropicEvent → Option Reader
read_all r [] = some r
read_all r (event ∷ events) = elim (read_at r r.state event) [
  | none ↦ none
  | some next_reader ↦ read_all next_reader events
]

abbrev pub new_reader : Reader
new_reader = record { next = 0; state = shut; heard = []; tools = [] }

same_index : (n : ℕ) → (n == n) ≡ true
same_index n = ground arith

goes_on :
    (b : Bool) (r : Reader) (events : List AnthropicEvent)
    → b ≡ true
    → elim (if b then some r else none) [ none ↦ none | some s ↦ read_all s events ]
      ≡ read_all r events
goes_on true r events h = refl
goes_on false r events h = absurd (cc)

module _ (n : ℕ) where
  abbrev at : Open → Text → List (Text × Text × Text) → Reader
  at state heard tools = record { next = n; state = state; heard = heard; tools = tools }

  read_deltas :
      (heard : Text) (tools : List (Text × Text × Text)) (pieces : List Text)
      (rest : List AnthropicEvent)
      → read_all (at in_text heard tools) (deltas n pieces ++ rest)
        ≡ read_all (at in_text (heard ++ join pieces) tools) rest
  read_deltas heard tools [] rest =
      ap (λ t. read_all (at in_text t tools) rest) (sym (append-nil heard))
  read_deltas heard tools (piece ∷ pieces) rest =
      goes_on (n == n) (at in_text (heard ++ piece) tools) (deltas n pieces ++ rest) (same_index n)
      ∙ read_deltas (heard ++ piece) tools pieces rest
      ∙ ap (λ t. read_all (at in_text t tools) rest) (append_assoc heard piece (join pieces))

abbrev pub entry : ToolCall → Text × Text × Text
entry call = (call.id, call.name, call.arguments)

-- What the reader has at the end of an answer.
abbrev pub HasRead : Text → List ToolCall → Option Reader → Type 0
HasRead content calls r = (m : ℕ) × (r ≡ some (at m shut content (map entry calls)))

read_tools :
    (n : ℕ) (heard : Text) (tools : List (Text × Text × Text)) (calls : List ToolCall)
    → (m : ℕ) × (read_all (at n shut heard tools) (tool_blocks n calls)
        ≡ some (at m shut heard (tools ++ map entry calls)))
unfolding tool_blocks
read_tools n heard tools [] = (n, ap (λ t. some (at n shut heard t)) (sym (append-nil tools)))
read_tools n heard tools (call ∷ calls) =
    let (m, e) = read_tools (n + 1) heard (tools ++ entry call ∷ []) calls in (m, steps m e)
  where
    opened : Open
    opened = in_tool call.id call.name

    more : List (Text × Text × Text)
    more = tools ++ entry call ∷ []

    steps :
        (m : ℕ)
        → read_all (at (n + 1) shut heard more) (tool_blocks (n + 1) calls)
          ≡ some (at m shut heard (more ++ map entry calls))
        → read_all (at n shut heard tools) (tool_blocks n (call ∷ calls))
          ≡ some (at m shut heard (tools ++ map entry (call ∷ calls)))
    steps m e =
        goes_on (n == n) (at n opened heard tools)
          (input_json_delta n call.arguments ∷ block_stop n ∷ tool_blocks (n + 1) calls)
          (same_index n)
        ∙ goes_on (n == n) (at n opened heard more) (block_stop n ∷ tool_blocks (n + 1) calls)
            (same_index n)
        ∙ goes_on (n == n) (at (n + 1) shut heard more) (tool_blocks (n + 1) calls) (same_index n)
        ∙ e
        ∙ ap (λ t. some (at m shut heard t))
            (append_assoc tools (entry call ∷ []) (map entry calls))

read_text :
    (content : Text) (calls : List ToolCall)
    → HasRead content calls (
        read_all new_reader (
          text_block_start 0
          ∷ (deltas 0 (char_chunks content (pos 24)) ++ block_stop 0 ∷ tool_blocks 1 calls)))
read_text content calls = let (m, e) = read_tools 1 content [] calls in (m, steps m e)
  where
    pieces : List Text
    pieces = char_chunks content (pos 24)

    steps :
        (m : ℕ)
        → read_all (at 1 shut content []) (tool_blocks 1 calls)
          ≡ some (at m shut content (map entry calls))
        → read_all new_reader
            (text_block_start 0 ∷ (deltas 0 pieces ++ block_stop 0 ∷ tool_blocks 1 calls))
          ≡ some (at m shut content (map entry calls))
    steps m e =
        read_deltas 0 [] [] pieces (block_stop 0 ∷ tool_blocks 1 calls)
        ∙ ap (λ t. read_all (at 1 shut t []) (tool_blocks 1 calls))
            (join-char_chunks content (pos 24)).0
        ∙ e

-- A client that reads the events of anthropicReplayEvents finds each block opened under the next
-- index, filled and closed before another, and at the end it has the content and the tool calls of
-- the answer, in order.
pub anthropic_replay_events-read :
    (content : Text) (calls : List ToolCall)
    → HasRead content calls (read_all new_reader (anthropic_replay_events content calls))
unfolding anthropic_replay_events
anthropic_replay_events-read [] [] = (1, refl)
anthropic_replay_events-read [] (call ∷ calls) = read_tools 0 [] [] (call ∷ calls)
anthropic_replay_events-read (c ∷ content) calls = read_text (c ∷ content) calls

-- StreamAnthropic for an account that Prepare selected gives that account's slot back and no other,
-- in a valid pool, wherever the client goes away and however the backend's stream ends.
pub stream_anthropic-Frees :
    (taken : ℕ → Bool) (takes : UsageRow → Bool) (stream : Text → Opening) (g : Gateway)
    (plan : Plan) (now : ℕ) (id : Text)
    → plan.cache_hit ≡ none
    → plan.account ≡ some id
    → IsValid g.router.pool
    → Frees id g.router.pool (stream_anthropic taken takes stream g plan now).0.router.pool
unfolding stream_anthropic
stream_anthropic-Frees taken takes stream g plan now id miss account v =
    rw (stream_anthropic, miss)
      (rw account (
        settle-Frees takes now g plan id (anthropic_answer taken (stream id)).1
          (anthropic_answer taken (stream id)).2 v))
