-- ===== src/Gateway/Prepare.antt =====
-- internal/gateway/gateway.go: Prepare and PrepareWithWait. The hash of a request (MakeKey) is a
-- parameter; so is the clock, by the number of its reading.
pub mod Held
pub mod Waits
pub mod Served
use ghcp_pool_go.Base.{
  ℕ, zero, suc, ◌+◌, Bool, true, false, not, ◌&&◌, ◌||◌, Option, none, some, List, [], ◌∷◌, ◌++◌,
  if◌then◌else◌, ltb, Text, text, is_empty, Dict,
}
use ghcp_pool_go.Cache.{CacheRecord, cache_lookup}
use ghcp_pool_go.Config.Models.{
  resolve_model_alias, resolve_model_override, is_valid_reasoning_effort, is_valid_context_tier,
}
use ghcp_pool_go.Gateway.{Gateway, Plan}
use ghcp_pool_go.Router.{
  Router, Selection, selected, no_account_for_model, rate_limit_exceeded, routing_error, panics,
  select, pick_endpoint,
}

-- What Prepare reads of the settings.
pub record PrepareSettings : Type 0 where
  pub model_aliases : Dict Text
  pub reasoning_efforts : Dict Text
  pub context_tiers : Dict Text

-- What Prepare reads of a request: the parameters `reasoning_effort` and `context_tier` ("" where
-- they are no strings), and the endpoints it prefers.
pub record PrepareRequest : Type 0 where
  pub model : Text
  pub endpoints : List Text
  pub reasoning_effort : Text
  pub context_tier : Text
  pub include_usage : Bool

-- The parameters that Prepare adds, which the key of the cache depends on.
pub record Tuning : Type 0 where
  pub upstream_model : Text
  pub endpoint : Text
  pub effort : Text
  pub tier : Text

pub data Prepared : Type 0 where
  prepared : Plan → Prepared
  invalid_effort : Text → Prepared
  invalid_tier : Text → Prepared
  not_selected : Selection → Prepared

abbrev or_default : Text → Text → Text
or_default s fallback = if is_empty s then fallback else s

abbrev allowed : (Text → Bool) → Text → Bool
allowed valid s = is_empty s || valid s

unfoldable pub tuning : PrepareSettings → Router → PrepareRequest → Tuning
unfolding resolve_model_alias resolve_model_override pick_endpoint
tuning settings r req =
    let model = resolve_model_alias settings.model_aliases req.model in
    record {
      upstream_model = model;
      endpoint = pick_endpoint r model req.endpoints;
      effort =
          or_default req.reasoning_effort (resolve_model_override model settings.reasoning_efforts);
      tier = or_default req.context_tier (resolve_model_override model settings.context_tiers);
    }

abbrev plan_for : PrepareRequest → Tuning → Text → Text → Option CacheRecord → Option Text → Plan
plan_for req t key control hit account = record {
  model = t.upstream_model;
  response_model = req.model;
  endpoint = t.endpoint;
  cache_key = key;
  control = control;
  cache_hit = hit;
  account = account;
  include_usage = req.include_usage;
}

abbrev of_selection : PrepareRequest → Tuning → Text → Text → Selection → Prepared
of_selection req t key control (selected id) = prepared (plan_for req t key control none (some id))
of_selection req t key control other = not_selected other

-- From the lookup in the cache on.
unfoldable pub prepare_tuned :
    (Tuning → Text) → Gateway → PrepareRequest → Tuning → Text → ℕ → Gateway × Prepared
unfolding cache_lookup select
prepare_tuned make_key g req t control now =
    let key = make_key t in
    let (cache, hit) = cache_lookup g.cache key control t.upstream_model now in
    let g' = record g { cache = cache } in
    elim hit [
      | some rec ↦ (g', prepared (plan_for req t key control (some rec) none))
      | none ↦
          let (r, s) = select g.router t.upstream_model t.endpoint now in
          (record g' { router = r }, of_selection req t key control s)
    ]

unfoldable pub prepare :
    PrepareSettings → (Tuning → Text) → Gateway → PrepareRequest → Text → ℕ → Gateway × Prepared
unfolding tuning prepare_tuned is_valid_reasoning_effort is_valid_context_tier
prepare settings make_key g req control now =
    let t = tuning settings g.router req in
    if not (allowed is_valid_reasoning_effort t.effort)
    then (g, invalid_effort t.effort)
    else if not (allowed is_valid_context_tier t.tier)
    then (g, invalid_tier t.tier)
    else prepare_tuned make_key g req t control now

pub data Waited : Type 0 where
  answered : Prepared → Waited
  cancelled : Waited
  out_of_rounds : Waited

-- An error after which PrepareWithWait does not wait: there is no such account, or its rate is
-- limited; nor does a panic come back.
abbrev pub is_final : Prepared → Bool
is_final (prepared plan) = true
is_final (not_selected no_account_for_model) = true
is_final (not_selected (rate_limit_exceeded w)) = true
is_final (not_selected panics) = true
is_final p = false

-- The clock when the loop begins; in the i-th round the clock that Prepare reads, the clock that the
-- test of the deadline reads after it, and whether the wait that follows ends by its timer.
pub record Rounds : Type 0 where
  pub started : ℕ
  pub clock : ℕ → ℕ
  pub checked : ℕ → ℕ
  pub waits : ℕ → Bool

-- The loop of PrepareWithWait from its round `i`.
unfoldable pub wait_from :
    ℕ
    → Rounds
    → ℕ
    → ℕ
    → PrepareSettings
    → (Tuning → Text)
    → Gateway
    → PrepareRequest
    → Text
    → Gateway × Waited
unfolding prepare
wait_from zero rounds deadline i settings make_key g req control = (g, out_of_rounds)
wait_from (suc fuel) rounds deadline i settings make_key g req control =
    let (g', p) = prepare settings make_key g req control (rounds.clock i) in
    elim (is_final p) [
      | true ↦ (g', answered p)
      | false ↦ elim (ltb deadline (rounds.checked i)) [
        | true ↦ (g', answered p)
        | false ↦ elim (rounds.waits i) [
          | false ↦ (g', cancelled)
          | true ↦ wait_from fuel rounds deadline (i + 1) settings make_key g' req control
        ]
      ]
    ]

-- `wait` is the time that a busy route is waited for.
unfoldable pub prepare_with_wait :
    ℕ
    → Rounds
    → ℕ
    → PrepareSettings
    → (Tuning → Text)
    → Gateway
    → PrepareRequest
    → Text
    → Gateway × Waited
unfolding wait_from
prepare_with_wait fuel rounds wait settings make_key g req control =
    wait_from fuel rounds (rounds.started + wait) 0 settings make_key g req control
