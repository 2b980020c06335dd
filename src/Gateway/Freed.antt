-- ===== src/Gateway/Freed.antt =====
-- internal/gateway/gateway.go: StreamChat gives the slot of its account back.
use ghcp_pool_go.Account
use ghcp_pool_go.Base.{ℕ, ◌≡◌, Bool, none, some, Text}
use ghcp_pool_go.Gateway.{Gateway, Plan}
use ghcp_pool_go.Gateway.Release.{
  released, release_drops, release_keeps, after_failure_frees, after_success_frees,
  after_failure-IsValid, after_success-IsValid,
}
use ghcp_pool_go.Gateway.Slots.{Frees}
use ghcp_pool_go.Gateway.Streams.{
  Gathered, Opening, Ending, complete, client_left, broke, settle, chat_answer, stream_chat,
}
use ghcp_pool_go.Pool.Valid.{IsValid, update_account-IsValid}
use ghcp_pool_go.Usage.{UsageRow}

pub settle-Frees :
    (takes : UsageRow → Bool) (now : ℕ) (g : Gateway) (plan : Plan) (id : Text) (s : Gathered)
    (end : Ending)
    → IsValid g.router.pool
    → Frees id g.router.pool (settle takes now g plan id s end).router.pool
unfolding settle
settle-Frees takes now g plan id s complete v = record {
  valid = after_success-IsValid id now g.router.pool v;
  flights = after_success_frees id now g.router.pool;
}
settle-Frees takes now g plan id s client_left v = record {
  valid = update_account-IsValid id Account.release g.router.pool release_keeps v;
  flights = λ j. released id Account.release g.router.pool j release_drops;
}
settle-Frees takes now g plan id s (broke e) v = record {
  valid = after_failure-IsValid id e now g.router.pool v;
  flights = after_failure_frees id e now g.router.pool;
}

-- StreamChat for an account that Prepare selected gives that account's slot back and no other, in a
-- valid pool, wherever the client goes away and however the backend's stream ends.
pub stream_chat-Frees :
    (taken : ℕ → Bool) (takes : UsageRow → Bool) (stream : Text → Opening) (g : Gateway)
    (plan : Plan) (now : ℕ) (id : Text)
    → plan.cache_hit ≡ none
    → plan.account ≡ some id
    → IsValid g.router.pool
    → Frees id g.router.pool (stream_chat taken takes stream g plan now).0.router.pool
unfolding stream_chat
stream_chat-Frees taken takes stream g plan now id miss account v =
    rw (stream_chat, miss)
      (rw account (
        settle-Frees takes now g plan id (chat_answer taken plan (stream id)).1
          (chat_answer taken plan (stream id)).2 v))
