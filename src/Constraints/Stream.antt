-- ===== src/Constraints/Stream.antt =====
-- internal/gateway/copilot_sdk_stream.go: applyStreamOutputConstraints. The channel that comes in
-- is the list of its items, and the one that goes out the list of those that were sent; `taken` tells
-- whether the n-th of them is taken before the context ends.
pub mod Allowed
pub mod Rounds
pub mod Kept
use ghcp_pool_go.Base.{
  ℕ, ◌+◌, Bool, true, false, not, ◌&&◌, ◌||◌, Option, none, some, List, [], ◌∷◌, ◌++◌,
  if◌then◌else◌, ltb, leb, drop, length, ℤ, pos, Text, text, text_eq, is_empty,
}
use ghcp_pool_go.Constraints.{
  approx_tokens, apply_stop_sequences, truncate_approx_tokens, sdk_max_output_tokens,
}
use ghcp_pool_go.Json.{Fields, Value, get}
use ghcp_pool_go.Results.{StreamItem, Kind, delta, tool_call, error, done, other_kind}
use ghcp_pool_go.Usage.{Usage, ToolCall, normalized, merge_sdk_usage}

abbrev pub no_usage : Usage
no_usage = record {
  input_tokens = pos 0;
  output_tokens = pos 0;
  cached_tokens = pos 0;
  total_tokens = pos 0;
  credits = pos 0;
  api_endpoint = [];
  provider_call_id = [];
  duration_ms = pos 0;
  quota_snapshots = [];
}

abbrev pub no_call : ToolCall
no_call = record { id = []; name = []; arguments = []; kind = [] }

abbrev pub plain_item : Kind → StreamItem
plain_item kind = record {
  kind = kind;
  text_of = [];
  call = no_call;
  index = 0;
  usage = no_usage;
  finish_reason = [];
  failure = none;
}

-- The variables of the loop; `sent` counts the items that were offered.
pub record Constrained : Type 0 where
  pub accumulated : Text
  pub emitted : Text
  pub tool_seen : Bool
  pub seen : Usage
  pub sent : ℕ

abbrev pub is_zero_ℤ : ℤ → Bool
is_zero_ℤ (pos n) = leb n 0
is_zero_ℤ n = false

unfoldable pub absorb : Usage → Usage → Usage
unfolding merge_sdk_usage
absorb seen u =
    if not (is_zero_ℤ u.input_tokens) || not (is_zero_ℤ u.total_tokens)
    then merge_sdk_usage seen u
    else seen

unfoldable pub drain : Usage → List StreamItem → Usage
unfolding absorb
drain seen [] = seen
drain seen (i ∷ items) = drain (absorb seen i.usage) items

-- The text that may have been sent so far, and the reason to stop there ("" for none).
unfoldable pub constrained_text : Fields → Text → Text × Text
unfolding apply_stop_sequences truncate_approx_tokens sdk_max_output_tokens get text
constrained_text params accumulated =
    let stopped = apply_stop_sequences accumulated (get (text "stop") params) in
    let limit = sdk_max_output_tokens params in
    let cut = truncate_approx_tokens stopped.0 limit in
    let finish = if stopped.1 then text "stop" else [] in
    if ltb 0 limit && cut.1 then (cut.0, text "length") else (stopped.0, finish)

-- `newText`: what the client lacks.
abbrev pub new_text : Text → Text → Text
new_text constrained emitted =
    if leb (length emitted) (length constrained) then drop (length emitted) constrained else []

abbrev pub terminal : Text → Text → Usage → StreamItem
terminal finish emitted seen = record (plain_item done) {
  finish_reason = finish;
  usage =
      normalized
        (record seen { output_tokens = pos (approx_tokens emitted); total_tokens = pos 0 });
}

abbrev pub last_if : Bool → StreamItem → List StreamItem
last_if b i = if b then i ∷ [] else []

-- The final item, whose count is replaced where it is missing or where the text was cut.
unfoldable pub finished_item : Constrained → StreamItem → StreamItem
unfolding approx_tokens normalized text_eq
finished_item s i =
    let cut = not (text_eq s.emitted s.accumulated) in
    let counted =
      if is_zero_ℤ i.usage.output_tokens || cut
      then record (i.usage) { output_tokens = pos (approx_tokens s.emitted) }
      else i.usage in
    let total = if cut then record counted { total_tokens = pos 0 } else counted in
    record i { usage = if s.tool_seen then i.usage else normalized total }

-- One round of the loop for a text: what it sends, and the variables if it goes on.
unfoldable pub constrain_delta :
    (ℕ → Bool)
    → Fields
    → Constrained
    → StreamItem
    → List StreamItem
    → List StreamItem × Option Constrained
unfolding drain constrained_text
constrain_delta taken params s i items =
    let accumulated = s.accumulated ++ i.text_of in
    let c = constrained_text params accumulated in
    let piece = new_text c.0 s.emitted in
    let usage = drain s.seen items in
    let sending = record (plain_item delta) { text_of = piece } in
    if is_empty piece
    then (if is_empty c.1
        then ([], some (record s { accumulated = accumulated }))
        else (last_if (taken s.sent) (terminal c.1 s.emitted usage), none))
    else if not (taken s.sent)
    then ([], none)
    else if is_empty c.1
    then (
      sending ∷ [],
      some (record s { accumulated = accumulated; emitted = c.0; sent = s.sent + 1 }),
    )
    else (sending ∷ last_if (taken (s.sent + 1)) (terminal c.1 c.0 usage), none)

abbrev pub pass : (ℕ → Bool) → Constrained → StreamItem → List StreamItem × Option Constrained
pass taken s i =
    if taken s.sent then (i ∷ [], some (record s { sent = s.sent + 1 })) else ([], none)

-- The `switch` on the kind of an item; a round that ends the loop drains what is left.
unfoldable pub constrain_kind :
    (ℕ → Bool)
    → Fields
    → Constrained
    → StreamItem
    → List StreamItem
    → Kind
    → List StreamItem × Option Constrained
unfolding constrain_delta finished_item
constrain_kind taken params s i items delta =
    if s.tool_seen then pass taken s i else constrain_delta taken params s i items
constrain_kind taken params s i items tool_call = pass taken (record s { tool_seen = true }) i
constrain_kind taken params s i items error = (last_if (taken s.sent) i, none)
constrain_kind taken params s i items done = (last_if (taken s.sent) (finished_item s i), none)
constrain_kind taken params s i items (other_kind k) = pass taken s i

-- One round of the loop.
unfoldable pub constrain_item :
    (ℕ → Bool)
    → Fields
    → Constrained
    → StreamItem
    → List StreamItem
    → List StreamItem × Option Constrained
unfolding absorb constrain_kind
constrain_item taken params s i items =
    constrain_kind taken params (record s { seen = absorb s.seen i.usage }) i items i.kind

unfoldable pub constrain_from :
    (ℕ → Bool) → Fields → Constrained → List StreamItem → List StreamItem
unfolding constrain_item
constrain_from taken params s [] = []
constrain_from taken params s (i ∷ items) =
    let (out, next) = constrain_item taken params s i items in
    elim next [ none ↦ out | some s' ↦ out ++ constrain_from taken params s' items ]

abbrev pub at_start : Constrained
at_start = record { accumulated = []; emitted = []; tool_seen = false; seen = no_usage; sent = 0 }

unfoldable pub apply_stream_output_constraints :
    (ℕ → Bool) → Fields → List StreamItem → List StreamItem
unfolding constrain_from
apply_stream_output_constraints taken params items = constrain_from taken params at_start items
