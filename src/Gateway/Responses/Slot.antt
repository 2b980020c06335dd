-- ===== src/Gateway/Responses/Slot.antt =====
-- internal/gateway/gateway.go: when StreamResponses gives the slot of its account back.
use ghcp_pool_go.Base.{
  ℕ, ◌≡◌, refl, inl, inr, Bool, true, false, ◌&&◌, none, some, Text, Bool-cases,
}
use ghcp_pool_go.Gateway.{Gateway, Plan}
use ghcp_pool_go.Gateway.Freed.{settle-Frees}
use ghcp_pool_go.Gateway.Replay.{consumed}
use ghcp_pool_go.Gateway.Responses.{responses_rest, responses_begun, stream_responses}
use ghcp_pool_go.Gateway.Slots.{Frees}
use ghcp_pool_go.Gateway.Streams.{Opening}
use ghcp_pool_go.Pool.Valid.{IsValid}
use ghcp_pool_go.Usage.{UsageRow}

-- What becomes of the slot, by whether the client takes the first two events.
abbrev pub SlotAfter : Bool → Text → Gateway → Gateway → Type 0
SlotAfter true id before after = Frees id before.router.pool after.router.pool
SlotAfter false id before after = after.router.pool ≡ before.router.pool

module _ (taken : ℕ → Bool) (takes : UsageRow → Bool) (stream : Text → Opening) (web_search : Bool)
    (g : Gateway) (plan : Plan) (now : ℕ) (id : Text) where
  begun-Frees :
      plan.cache_hit ≡ none
      → plan.account ≡ some id
      → IsValid g.router.pool
      → Frees id g.router.pool
          (responses_begun taken takes stream web_search g plan now).0.router.pool
  unfolding responses_begun
  begun-Frees miss account v =
      rw (responses_begun, miss)
        (rw account (
          settle-Frees takes now g plan id
            (responses_rest taken web_search (consumed (stream id))).1
            (responses_rest taken web_search (consumed (stream id))).2 v))

  -- StreamResponses for an account that Prepare selected gives that account's slot back and no other,
  -- in a valid pool, where the client takes the first two events; where it goes away before, the pool
  -- stays as it is, so the slot is not given back.
  pub stream_responses-SlotAfter :
      plan.cache_hit ≡ none
      → plan.account ≡ some id
      → IsValid g.router.pool
      → SlotAfter
          (taken 0 && taken 1)
          id
          g
          (stream_responses taken takes stream web_search g plan now).0
  unfolding stream_responses
  stream_responses-SlotAfter miss account v = elim (Bool-cases (taken 0)) [
    | inr f ↦ rw (stream_responses, f) refl
    | inl y ↦ elim (Bool-cases (taken 1)) [
      | inr f ↦ rw (stream_responses, y) (rw f refl)
      | inl z ↦ rw (stream_responses, y) (rw z (begun-Frees miss account v))
    ]
  ]
