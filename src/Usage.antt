-- ===== src/Usage.antt =====
-- internal/gateway/types.go (Usage, ToolCall) and usage.go (Metrics, Meter): what a request has used
-- and how it is counted. `Credits` is a float64 that is only copied, set to 0 and compared with 0;
-- here it is an integer in some unit. The SQL queries over the stored rows are not modelled: the
-- database is a parameter, which says whether it takes a row.
use ghcp_pool_go.Base.{
  ℕ, zero, ◌+◌, Bool, true, false, not, Option, none, some, List, [], ◌∷◌, ◌++◌, if◌then◌else◌, ℤ,
  pos, ◌+ℤ◌, ltb_ℤ, Text, text, text_eq, is_empty,
}
use ghcp_pool_go.Sink.{Sink, UsageRecord, emit}

pub record Usage : Type 0 where
  pub input_tokens : ℤ
  pub output_tokens : ℤ
  pub cached_tokens : ℤ
  pub total_tokens : ℤ
  pub credits : ℤ
  pub api_endpoint : Text
  pub provider_call_id : Text
  pub duration_ms : ℤ
  pub quota_snapshots : Text

unfoldable pub normalized : Usage → Usage
unfolding ◌+ℤ◌
normalized u =
    let sum = u.input_tokens +ℤ u.output_tokens in
    if ltb_ℤ u.total_tokens sum then record u { total_tokens = sum } else u

pub record ToolCall : Type 0 where
  pub id : Text
  pub name : Text
  pub arguments : Text
  pub kind : Text

unfoldable pub normalized_call : ToolCall → ToolCall
unfolding text
normalized_call tc = if is_empty tc.kind then record tc { kind = text "function" } else tc

-- A row of `usage_event`; a column that is NULL is `none`.
pub record UsageRow : Type 0 where
  pub account_id : Option Text
  pub model : Text
  pub usage : Usage
  pub cache_result : Text
  pub success : Bool
  pub error_type : Text

pub record Metrics : Type 0 where
  pub requests : ℕ
  pub errors : ℕ

unfoldable pub observe_metrics : Metrics → Bool → Metrics
observe_metrics m success = record {
  requests = m.requests + 1;
  errors = if not success then m.errors + 1 else m.errors;
}

-- The rows of the store, the newest last.
pub record Meter : Type 0 where
  pub store : List UsageRow
  pub metrics : Metrics
  pub sink : Sink

unfoldable pub record_usage : (UsageRow → Bool) → List UsageRow → UsageRow → List UsageRow
unfolding normalized
record_usage takes store row =
    let r = record row { usage = normalized row.usage } in
    if takes r then store ++ r ∷ [] else store

unfoldable pub usage_record_from : UsageRow → ℕ → UsageRecord
usage_record_from row now = record {
  ts = now;
  account_id = elim (row.account_id) [ none ↦ [] | some id ↦ id ];
  model = row.model;
  api_endpoint = row.usage.api_endpoint;
  input_tokens = row.usage.input_tokens;
  output_tokens = row.usage.output_tokens;
  cached_tokens = row.usage.cached_tokens;
  total_tokens = row.usage.total_tokens;
  credits = row.usage.credits;
  duration_ms = row.usage.duration_ms;
  cache_result = row.cache_result;
  success = row.success;
  error_type = row.error_type;
}

-- `Observe`: an answer from the cache costs no credits. A row that the database refuses is lost.
unfoldable pub observe : (UsageRow → Bool) → Meter → UsageRow → ℕ → Meter
unfolding normalized record_usage usage_record_from observe_metrics emit text text_eq
observe takes m row now =
    let free =
      if text_eq row.cache_result (text "hit")
      then record (row.usage) { credits = pos 0 }
      else row.usage in
    let r = record row { usage = normalized free } in
    record {
      store = record_usage takes m.store r;
      sink = emit m.sink (usage_record_from r now);
      metrics = observe_metrics m.metrics row.success;
    }

-- copilot_http.go: mergeSDKUsage, for successive events of one turn.
abbrev is_zero_ℤ : ℤ → Bool
is_zero_ℤ (pos zero) = true
is_zero_ℤ n = false

abbrev or_else : ℤ → ℤ → ℤ
or_else next base = if is_zero_ℤ next then base else next

abbrev or_kept : Text → Text → Text
or_kept next base = if is_empty next then base else next

unfoldable pub merge_sdk_usage : Usage → Usage → Usage
unfolding normalized
merge_sdk_usage base next = normalized (record {
  input_tokens = or_else next.input_tokens base.input_tokens;
  output_tokens = or_else next.output_tokens base.output_tokens;
  cached_tokens = or_else next.cached_tokens base.cached_tokens;
  total_tokens = or_else next.total_tokens base.total_tokens;
  credits = or_else next.credits base.credits;
  api_endpoint = or_kept next.api_endpoint base.api_endpoint;
  provider_call_id = or_kept next.provider_call_id base.provider_call_id;
  duration_ms = or_else next.duration_ms base.duration_ms;
  quota_snapshots = or_kept next.quota_snapshots base.quota_snapshots;
})

-- structured_output.go: accumulateUsage, for the attempts of one request.
unfoldable pub accumulate_usage : Usage → Usage → Usage
unfolding normalized ◌+ℤ◌
accumulate_usage base next = normalized (record {
  input_tokens = base.input_tokens +ℤ next.input_tokens;
  output_tokens = base.output_tokens +ℤ next.output_tokens;
  cached_tokens = base.cached_tokens +ℤ next.cached_tokens;
  total_tokens = base.total_tokens +ℤ next.total_tokens;
  credits = base.credits +ℤ next.credits;
  api_endpoint = or_kept next.api_endpoint base.api_endpoint;
  provider_call_id = or_kept next.provider_call_id base.provider_call_id;
  duration_ms = base.duration_ms +ℤ next.duration_ms;
  quota_snapshots = or_kept next.quota_snapshots base.quota_snapshots;
})
