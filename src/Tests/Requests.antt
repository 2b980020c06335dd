-- ===== src/Tests/Requests.antt =====
-- Examples of Prepare, PrepareWithWait and the overrides of a model.
use ghcp_pool_go.Base.{ℕ, ◌+◌, ◌*◌, ◌<◌, ◌≤◌, ◌≡◌, ◌≢◌, ◌⊎◌, true, [], ◌∷◌, Text, arith, Dict}
use ghcp_pool_go.Config.Models.{resolve_model_override}
use ghcp_pool_go.Config.Overrides
use ghcp_pool_go.Config.Overrides.{IsBest, NoMatch}
use ghcp_pool_go.Gateway.Embeddings.{Balanced}
use ghcp_pool_go.Gateway.Prepare.{
  PrepareSettings, PrepareRequest, invalid_effort, answered, out_of_rounds, is_final, Rounds,
  prepare, prepare_with_wait, Tuning,
}
use ghcp_pool_go.Gateway.Prepare.Served
use ghcp_pool_go.Gateway.Prepare.Served.{served}
use ghcp_pool_go.Gateway.Prepare.Waits
use ghcp_pool_go.Gateway.Prepare.Waits.{HoldsAfter}
use ghcp_pool_go.Tests.{model, pool}
use ghcp_pool_go.Tests.Pools.{pool-IsValid}
use ghcp_pool_go.Tests.Served.{gateway, outside}

abbrev settings : PrepareSettings
settings = record { model_aliases = []; reasoning_efforts = []; context_tiers = [] }

abbrev request : PrepareRequest
request = record {
  model = model;
  endpoints = [];
  reasoning_effort = [];
  context_tier = [];
  include_usage = true;
}

abbrev make_key : Tuning → Text
make_key t = t.upstream_model

prepare-complete_result-Balanced_example :
    Balanced pool (served outside (prepare settings make_key gateway request [] 7)).router.pool
prepare-complete_result-Balanced_example =
    Served.prepare-complete_result-Balanced settings make_key outside gateway request [] 7
      pool-IsValid

-- A round every 200, in a wait of 1000.
abbrev rounds : Rounds
rounds = record { started = 0; clock = λ i. 200 * i; checked = λ i. 200 * i + 7; waits = λ i. true }

prepare_with_wait-HoldsAfter_example :
    HoldsAfter pool (prepare_with_wait 7 rounds 1000 settings make_key gateway request [])
prepare_with_wait-HoldsAfter_example =
    Waits.prepare_with_wait-HoldsAfter rounds 1000 settings make_key gateway request [] 7
      pool-IsValid

abbrev unknown_effort : PrepareRequest
unknown_effort = record request { reasoning_effort = b'x' ∷ [] }

on_time : (i : ℕ) → i < 5 → 200 * i + 7 ≤ 0 + 1000
on_time i h = omega (arith, h)

prepare_with_wait_returns_example :
    ((prepare_with_wait 6 rounds 1000 settings make_key gateway unknown_effort []).1
      ≢ out_of_rounds)
    × ((prepare_with_wait 5 rounds 1000 settings make_key gateway unknown_effort []).1
          ≡ answered (invalid_effort (b'x' ∷ []))
        → is_final (invalid_effort (b'x' ∷ [])) ≡ true)
prepare_with_wait_returns_example =
    Waits.prepare_with_wait_returns rounds 1000 settings make_key gateway unknown_effort [] 5
      (invalid_effort (b'x' ∷ [])) (omega arith) on_time

-- Two patterns that match, of which the longer counts.
abbrev overrides : Dict Text
overrides = (b'm' ∷ b'*' ∷ [], b'l' ∷ []) ∷ (model, b'h' ∷ []) ∷ []

resolve_model_override-IsBest_example :
    ((resolve_model_override model overrides ≡ []) × NoMatch model overrides)
    ⊎ IsBest model overrides (resolve_model_override model overrides)
resolve_model_override-IsBest_example = Overrides.resolve_model_override-IsBest model overrides
