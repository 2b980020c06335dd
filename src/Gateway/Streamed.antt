-- ===== src/Gateway/Streamed.antt =====
-- internal/gateway/gateway.go: what StreamChat leaves in the cache, wherever the client or the backend
-- stops.
use ghcp_pool_go.Base.{ℕ, ◌≡◌, refl, ◌⊎◌, inl, inr, Bool, none, some, List, Text}
use ghcp_pool_go.Cache.{CacheLayer, cache_store}
use ghcp_pool_go.Gateway.{Gateway, Plan}
use ghcp_pool_go.Gateway.Streams.{
  Gathered, Opening, Ending, complete, client_left, broke, settle, ChatChunk, chat_answer,
  stream_chat, cached_record,
}
use ghcp_pool_go.Usage.{UsageRow}
use ghcp_pool_go.Gateway.Sent.{said, Said, chat_answer-said, EndsDone, chat_answer-EndsDone}

-- What a stream leaves in the cache: nothing new, or the answer whose text is the one that was sent,
-- as a whole answer.
abbrev pub CachesSent : CacheLayer → Plan → ℕ → List ChatChunk → CacheLayer → Type 0
CachesSent before plan now out after =
    (after ≡ before)
    ⊎ ((s : Gathered) × (after
          ≡ cache_store before plan.cache_key (cached_record plan s) plan.control now)
        × (s.content ≡ said out)
        × EndsDone out)

settle-CachesSent :
    (takes : UsageRow → Bool) (now : ℕ) (g : Gateway) (plan : Plan) (id : Text) (s : Gathered)
    (end : Ending) (out : List ChatChunk)
    → (end ≡ complete → (s.content ≡ said out) × EndsDone out)
    → CachesSent g.cache plan now out (settle takes now g plan id s end).cache
unfolding settle
settle-CachesSent takes now g plan id s complete out h = inr (s, refl, (h refl).0, (h refl).1)
settle-CachesSent takes now g plan id s client_left out h = inl refl
settle-CachesSent takes now g plan id s (broke e) out h = inl refl

-- StreamChat for an account leaves the cache as it is, or it stores an answer whose content is exactly
-- the text that the client was sent, and the last chunk that was sent is the mark of a whole answer; so
-- what is sent before the client goes away or the backend fails is not cached.
pub stream_chat-CachesSent :
    (taken : ℕ → Bool) (takes : UsageRow → Bool) (stream : Text → Opening) (g : Gateway)
    (plan : Plan) (now : ℕ) (id : Text)
    → plan.cache_hit ≡ none
    → plan.account ≡ some id
    → CachesSent g.cache plan now
        (stream_chat taken takes stream g plan now).1
        (stream_chat taken takes stream g plan now).0.cache
unfolding stream_chat
stream_chat-CachesSent taken takes stream g plan now id miss account =
    rw (stream_chat, miss)
      (rw account (
        settle-CachesSent takes now g plan id answer.1 answer.2 answer.0 (λ h. (
          chat_answer-said taken plan (stream id) h,
          chat_answer-EndsDone taken plan (stream id) h,
        ))))
  where
    answer : Said
    answer = chat_answer taken plan (stream id)
