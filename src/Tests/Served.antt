-- ===== src/Tests/Served.antt =====
-- Examples of CompleteResult and CreateEmbeddings.
use ghcp_pool_go.Account
use ghcp_pool_go.Base.{
  ◌+◌, ◌<◌, ◌≢◌, refl, true, none, some, [], ◌∷◌, arith, length, lookup, text_lt, Text, pos,
  if◌then◌else◌, text_eq,
}
use ghcp_pool_go.Errors.{BackendError}
use ghcp_pool_go.Gateway.{
  Gateway, Plan, Outside, out_of_fuel, complete_result, create_embeddings, EmbeddingReply, embeds,
}
use ghcp_pool_go.Gateway.Embeddings
use ghcp_pool_go.Gateway.Embeddings.{Balanced}
use ghcp_pool_go.Gateway.Returns
use ghcp_pool_go.Gateway.Slots.{Frees}
use ghcp_pool_go.Results.{ChatResult, answers, fails}
use ghcp_pool_go.Router.{candidate_accounts}
use ghcp_pool_go.Sink.{noop}
use ghcp_pool_go.Tests.{id_a, model, pool, router, usage}
use ghcp_pool_go.Tests.Pools.{pool-IsValid}

abbrev pub result : ChatResult
result = record {
  id = [];
  status = [];
  content = b'h' ∷ b'i' ∷ [];
  model = model;
  usage = usage;
  finish_reason = [];
  tool_calls = [];
  responses_output = [];
  anthropic_content = [];
}

abbrev pub broken_pipe : BackendError
broken_pipe = record { message = b'e' ∷ b'o' ∷ b'f' ∷ []; upstream = none }

-- The first account fails, and every other one answers.
abbrev pub outside : Outside
outside = record {
  chat = λ i id. if text_eq id id_a then fails broken_pipe else answers result;
  clock = λ i. i + 10;
  takes = λ row. true;
}

abbrev pub gateway : Gateway
gateway = record {
  router = router;
  cache = record {
    enabled = true;
    backend = record { ttl = pos 60; max_entries = 2; items = []; order = [] };
    hits = 0;
    misses = 0;
    tokens_saved = pos 0;
    family_hits = [];
    family_misses = [];
  };
  meter = record { store = []; metrics = record { requests = 0; errors = 0 }; sink = noop };
}

abbrev pub plan : Plan
plan = record {
  model = model;
  response_model = model;
  endpoint = [];
  cache_key = b'k' ∷ [];
  control = [];
  cache_hit = none;
  account = some id_a;
  include_usage = true;
}

enough : length (candidate_accounts gateway.router plan.model plan.endpoint) < 3
unfolding candidate_accounts text_lt lookup Account.allows_model
enough = omega arith

complete_result-Frees_example :
    Frees id_a pool (complete_result 3 outside gateway plan).0.router.pool
complete_result-Frees_example =
    Returns.complete_result-Frees 3 outside gateway plan id_a pool-IsValid enough refl refl

complete_result_returns_example : (complete_result 3 outside gateway plan).1 ≢ out_of_fuel
complete_result_returns_example =
    Returns.complete_result_returns 3 outside gateway plan pool-IsValid enough

abbrev embeddings : Text → EmbeddingReply
embeddings id = embeds usage []

create_embeddings-Balanced_example :
    Balanced pool (create_embeddings outside embeddings gateway model 7).0.router.pool
create_embeddings-Balanced_example =
    Embeddings.create_embeddings-Balanced outside embeddings gateway model 7 pool-IsValid
