-- ===== src/Gateway/Embeddings.antt =====
-- CreateEmbeddings holds no slot once it has returned.
use ghcp_pool_go.Account
use ghcp_pool_go.Account.{Account}
use ghcp_pool_go.Base.{ℕ, ◌-◌, ◌≡◌, refl, ap, ◌⊎◌, arith, Text, text, inl, inr}
use ghcp_pool_go.Errors.{BackendError}
use ghcp_pool_go.Gateway.{
  Gateway, Outside, EmbeddingReply, embeds, unsupported, fails_to_embed, create_embeddings,
}
use ghcp_pool_go.Gateway.Release.{
  one_at, released, release_drops, release_keeps, after_failure_frees, after_success_frees,
  after_failure-IsValid, after_success-IsValid,
}
use ghcp_pool_go.Pool.{Pool}
use ghcp_pool_go.Pool.Acquire.{in_flight_of}
use ghcp_pool_go.Pool.Valid.{IsValid, update_account-IsValid}
use ghcp_pool_go.Router.{
  Router, Selection, selected, no_account_for_model, rate_limit_exceeded, routing_error, panics,
  select, candidate_accounts,
}
use ghcp_pool_go.Router.Selected.{Outcome, slots, select-Outcome}

-- The same requests in flight, in a valid pool.
pub record Balanced (p q : Pool) : Type 0 where
  pub valid : IsValid q
  pub flights : (j : Text) → in_flight_of q j ≡ in_flight_of p j

module _ (o : Outside) (g : Gateway) (model : Text) (now : ℕ) (v : IsValid g.router.pool) where
  chosen : Router × Selection
  chosen = select g.router model (text "/embeddings") now

  outcome : Outcome g.router.pool (candidate_accounts g.router model (text "/embeddings")) chosen
  unfolding chosen
  outcome = select-Outcome g.router model (text "/embeddings") now v

  -- One slot was taken of `id`, and one is given back.
  settled :
      (id : Text) (q : Pool)
      → chosen.1 ≡ selected id
      → IsValid q
      → ((j : Text) → in_flight_of q j ≡ in_flight_of chosen.0.pool j - one_at id j)
      → Balanced g.router.pool q
  settled id q e w frees = record {
    valid = w;
    flights = λ j. omega (arith, frees j, outcome.flights j, ap (λ s. slots s j) e);
  }

  refused :
      (s : Selection)
      → chosen.1 ≡ s
      → ((j : Text) → slots s j ≡ 0)
      → Balanced g.router.pool chosen.0.pool
  refused s e h = record {
    valid = outcome.valid;
    flights = λ j. omega (arith, outcome.flights j, ap (λ z. slots z j) e, h j);
  }

EmbeddingReply-cases :
    (r : EmbeddingReply)
    → (r ≡ unsupported)
      ⊎ (((e : BackendError) × (r ≡ fails_to_embed e)) ⊎ ((u : _) × (t : Text) × (r ≡ embeds u t)))
EmbeddingReply-cases unsupported = inl refl
EmbeddingReply-cases (fails_to_embed e) = inr (inl (e, refl))
EmbeddingReply-cases (embeds u t) = inr (inr (u, t, refl))

-- From a valid pool, CreateEmbeddings leaves as many requests in flight at each account as there
-- were before, whatever is selected and whatever the backend answers, and the pool stays valid.
pub create_embeddings-Balanced :
    (o : Outside) (embeddings : Text → EmbeddingReply) (g : Gateway) (model : Text) (now : ℕ)
    → IsValid g.router.pool
    → Balanced g.router.pool (create_embeddings o embeddings g model now).0.router.pool
unfolding create_embeddings chosen
create_embeddings-Balanced o embeddings g model now v = by_selection (chosen o g model now v).1 refl
  where
    by_selection :
        (s : Selection)
        → (chosen o g model now v).1 ≡ s
        → Balanced g.router.pool (create_embeddings o embeddings g model now).0.router.pool
    by_selection no_account_for_model e =
        rw (e, create_embeddings) (refused o g model now v no_account_for_model e (λ j. refl))
    by_selection (rate_limit_exceeded w) e =
        rw (e, create_embeddings) (refused o g model now v (rate_limit_exceeded w) e (λ j. refl))
    by_selection routing_error e =
        rw (e, create_embeddings) (refused o g model now v routing_error e (λ j. refl))
    by_selection panics e = rw (e, create_embeddings) (refused o g model now v panics e (λ j. refl))
    by_selection (selected id) e =
        let p = (chosen o g model now v).0.pool in
        let w = (outcome o g model now v).valid in
        elim (EmbeddingReply-cases (embeddings id)) [
          | inl f ↦
              rw (e, create_embeddings)
                (rw f (
                  settled o g model now v id _ e
                    (update_account-IsValid id Account.release p release_keeps w)
                    (λ j. released id Account.release p j release_drops)))
          | inr (inl (x, f)) ↦
              rw (e, create_embeddings)
                (rw f (
                  settled o g model now v id _ e (after_failure-IsValid id x (o.clock 0) p w)
                    (after_failure_frees id x (o.clock 0) p)))
          | inr (inr (u, t, f)) ↦
              rw (e, create_embeddings)
                (rw f (
                  settled o g model now v id _ e (after_success-IsValid id (o.clock 0) p w)
                    (after_success_frees id (o.clock 0) p)))
        ]
