-- ===== src/Gateway.antt =====
-- internal/gateway/gateway.go: CompleteResult and CreateEmbeddings. The backends
-- are parameters: what the i-th call of one answers, and the time when it has. What a plan hands to
-- the backend alone (messages, parameters) is part of that parameter.
pub mod Release
pub mod Slots
pub mod Returns
pub mod Embeddings
pub mod Streams
pub mod Freed
pub mod Sent
pub mod Streamed
pub mod Replay
pub mod Responses
pub mod Prepare
use ghcp_pool_go.Account
use ghcp_pool_go.Account.{Account}
use ghcp_pool_go.Base.{
  ℕ, zero, suc, ◌+◌, Bool, true, false, Option, none, some, List, [], ◌∷◌, if◌then◌else◌, ltb, Text,
  text, Result, ok, err,
}
use ghcp_pool_go.Cache.{CacheLayer, CacheRecord, cache_store}
use ghcp_pool_go.Errors.{BackendError, is_non_retryable_backend_error}
use ghcp_pool_go.Pool.{Pool, update_account}
use ghcp_pool_go.Results.{ChatResult, Reply, answers, fails}
use ghcp_pool_go.Router.{
  Router, Attempt, took, exhausted, panicked, Selection, selected, select, select_excluding,
}
use ghcp_pool_go.Usage.{Usage, ToolCall, UsageRow, Meter, normalized, observe}

-- What CompleteResult reads of a plan.
pub record Plan : Type 0 where
  pub model : Text
  pub response_model : Text
  pub endpoint : Text
  pub cache_key : Text
  pub control : Text
  pub cache_hit : Option CacheRecord
  pub account : Option Text
  pub include_usage : Bool

pub record Gateway : Type 0 where
  pub router : Router
  pub cache : CacheLayer
  pub meter : Meter

-- The answer of the i-th call, made to the account of the id, the clock after it, and whether the
-- database takes a row.
pub record Outside : Type 0 where
  pub chat : ℕ → Text → Reply
  pub clock : ℕ → ℕ
  pub takes : UsageRow → Bool

pub data Completion : Type 0 where
  completed : ChatResult → Text → Completion
  from_cache : ChatResult → Completion
  backend_failed : BackendError → Completion
  no_account : Completion
  panics : Completion
  out_of_fuel : Completion

unfoldable pub after_failure : Text → BackendError → ℕ → Pool → Pool
unfolding update_account
after_failure id e now p =
    update_account id (λ a. Account.release (Account.record_failure a e.message now)) p

unfoldable pub after_success : Text → ℕ → Pool → Pool
unfolding update_account
after_success id now p = update_account id (λ a. Account.release (Account.record_success a now)) p

abbrev pub to_record : ChatResult → CacheRecord
to_record r = record {
  content = r.content;
  model = r.model;
  finish_reason = r.finish_reason;
  usage = r.usage;
  tool_calls = r.tool_calls;
  responses_output = r.responses_output;
  anthropic_content = r.anthropic_content;
}

abbrev pub row_of : Option Text → Text → Usage → Text → UsageRow
row_of account model usage cache_result = record {
  account_id = account;
  model = model;
  usage = usage;
  cache_result = cache_result;
  success = true;
  error_type = [];
}

-- What follows an answer: the account, the cache and the meter.
unfoldable pub succeed : Outside → ℕ → Gateway → Plan → Text → ChatResult → Gateway × Completion
unfolding after_success normalized cache_store observe text
succeed o i g plan id result =
    let now = o.clock i in
    let r = record result { usage = normalized result.usage } in
    (
      record {
        router = record (g.router) { pool = after_success id now g.router.pool };
        cache = cache_store g.cache plan.cache_key (to_record r) plan.control now;
        meter = observe o.takes g.meter (row_of (some id) plan.model r.usage (text "miss")) now;
      },
      completed (record r { model = plan.response_model }) id,
    )

-- The loop of CompleteResult from a current account; `exclude` are those that have failed.
unfoldable pub complete_from :
    ℕ → Outside → ℕ → Gateway → Plan → List Text → Text → Gateway × Completion
unfolding succeed after_failure select_excluding is_non_retryable_backend_error
complete_from zero o i g plan exclude id = (g, out_of_fuel)
complete_from (suc fuel) o i g plan exclude id = elim (o.chat i id) [
  | answers result ↦ succeed o i g plan id result
  | fails e ↦
      let r = record (g.router) { pool = after_failure id e (o.clock i) g.router.pool } in
      elim (is_non_retryable_backend_error e) [
        | true ↦ (record g { router = r }, backend_failed e)
        | false ↦
            let (r', attempt) =
              select_excluding r plan.model (id ∷ exclude) plan.endpoint (o.clock i) in
            let g' = record g { router = r' } in
            elim attempt [
              | took next ↦ complete_from fuel o (i + 1) g' plan (id ∷ exclude) next
              | exhausted ↦ (g', backend_failed e)
              | panicked ↦ (g', panics)
            ]
      ]
]

unfoldable pub complete_result : ℕ → Outside → Gateway → Plan → Gateway × Completion
unfolding complete_from observe text
complete_result fuel o g plan = elim (plan.cache_hit) [
  | some rec ↦ (
    record g {
      meter = observe o.takes g.meter (row_of none rec.model rec.usage (text "hit")) (o.clock 0);
    },
    from_cache (record {
      id = [];
      status = [];
      content = rec.content;
      model = plan.response_model;
      usage = rec.usage;
      finish_reason = rec.finish_reason;
      tool_calls = rec.tool_calls;
      responses_output = rec.responses_output;
      anthropic_content = rec.anthropic_content;
    }),
  )
  | none ↦ elim (plan.account) [
    | none ↦ (g, no_account)
    | some id ↦ complete_from fuel o 0 g plan [] id
  ]
]

-- What the backend answers to a call for embeddings: the usage and the result, which is passed on.
pub data EmbeddingReply : Type 0 where
  embeds : Usage → Text → EmbeddingReply
  unsupported : EmbeddingReply
  fails_to_embed : BackendError → EmbeddingReply

pub data Embedding : Type 0 where
  embedded : Usage → Text → Text → Embedding
  embedding_failed : BackendError → Embedding
  embedding_unsupported : Embedding
  not_selected : Selection → Embedding

-- `model` is the requested one with its alias resolved. The slot is given back in every case.
unfoldable pub create_embeddings :
    Outside → (Text → EmbeddingReply) → Gateway → Text → ℕ → Gateway × Embedding
unfolding select after_failure after_success update_account normalized observe text
create_embeddings o embeddings g model now =
    let (r, s) = select g.router model (text "/embeddings") now in
    elim s [
      | selected id ↦ elim (embeddings id) [
        | unsupported ↦ (
          record g { router = record r { pool = update_account id Account.release r.pool } },
          embedding_unsupported,
        )
        | fails_to_embed e ↦ (
          record g { router = record r { pool = after_failure id e (o.clock 0) r.pool } },
          embedding_failed e,
        )
        | embeds usage result ↦ (
          record g {
            router = record r { pool = after_success id (o.clock 0) r.pool };
            meter =
                observe o.takes g.meter (row_of (some id) model (normalized usage) (text "miss"))
                  (o.clock 0);
          },
          embedded (normalized usage) result id,
        )
      ]
      | other ↦ (record g { router = r }, not_selected other)
    ]
