-- ===== src/Gateway/Prepare/Served.antt =====
-- internal/gateway/gateway.go: Prepare and then CompleteResult.
use ghcp_pool_go.Base.{
  ℕ, suc, ◌≡◌, refl, sym, ap, subst, ◌⊎◌, inl, inr, not, none, some, arith, length, Text,
  Bool-cases, Option-cases,
}
use ghcp_pool_go.Cache.{CacheRecord, cache_lookup}
use ghcp_pool_go.Config.Models.{is_valid_reasoning_effort, is_valid_context_tier}
use ghcp_pool_go.Gateway.{Gateway, Plan, Outside, complete_result}
use ghcp_pool_go.Gateway.Embeddings.{Balanced}
use ghcp_pool_go.Gateway.Prepare.{
  PrepareSettings, PrepareRequest, Tuning, Prepared, prepared, invalid_effort, invalid_tier,
  not_selected, tuning, prepare_tuned, prepare, allowed, of_selection,
}
use ghcp_pool_go.Gateway.Returns.{complete_result-Frees}
use ghcp_pool_go.Gateway.Slots.{Frees}
use ghcp_pool_go.Pool.{Pool}
use ghcp_pool_go.Pool.Valid.{IsValid}
use ghcp_pool_go.Router.{
  Selection, selected, no_account_for_model, rate_limit_exceeded, routing_error, panics, select,
  candidate_accounts,
}
use ghcp_pool_go.Gateway.Prepare.Held.{account_slots, Holds, prepare-Holds}

-- Whether a plan has an answer from the cache or else an account.
abbrev HasOne : Prepared → Type 0
HasOne (prepared plan) =
    ((rec : CacheRecord) × (plan.cache_hit ≡ some rec) × (plan.account ≡ none))
    ⊎ ((id : Text) × (plan.cache_hit ≡ none) × (plan.account ≡ some id))
HasOne p = Unit

of_selection-HasOne :
    (req : PrepareRequest) (t : Tuning) (key control : Text) (s : Selection)
    → HasOne (of_selection req t key control s)
of_selection-HasOne req t key control (selected id) = inr (id, refl, refl)
of_selection-HasOne req t key control no_account_for_model = tt
of_selection-HasOne req t key control (rate_limit_exceeded w) = tt
of_selection-HasOne req t key control routing_error = tt
of_selection-HasOne req t key control panics = tt

prepare_tuned-HasOne :
    (make_key : Tuning → Text) (g : Gateway) (req : PrepareRequest) (t : Tuning) (control : Text)
    (now : ℕ)
    → HasOne (prepare_tuned make_key g req t control now).1
unfolding prepare_tuned
prepare_tuned-HasOne make_key g req t control now =
    elim (Option-cases (cache_lookup g.cache (make_key t) control t.upstream_model now).1) [
      | inr (rec, e) ↦ rw (prepare_tuned, e) (inl (rec, refl, refl))
      | inl e ↦
          rw (prepare_tuned, e)
            (of_selection-HasOne req t (make_key t) control
              (select g.router t.upstream_model t.endpoint now).1)
    ]

prepare-HasOne :
    (settings : PrepareSettings) (make_key : Tuning → Text) (g : Gateway) (req : PrepareRequest)
    (control : Text) (now : ℕ)
    → HasOne (prepare settings make_key g req control now).1
unfolding prepare
prepare-HasOne settings make_key g req control now =
    elim (Bool-cases (not (allowed is_valid_reasoning_effort t.effort))) [
      | inl y ↦ rw (prepare, y) tt
      | inr f ↦ elim (Bool-cases (not (allowed is_valid_context_tier t.tier))) [
        | inl y ↦ rw (prepare, f) (rw y tt)
        | inr n ↦ rw (prepare, f) (rw n (prepare_tuned-HasOne make_key g req t control now))
      ]
    ]
  where
    t : Tuning
    t = tuning settings g.router req

-- One request: Prepare, and CompleteResult for its plan, with fuel for every candidate.
abbrev pub served : Outside → Gateway × Prepared → Gateway
served o (g, prepared plan) =
    (complete_result (suc (length (candidate_accounts g.router plan.model plan.endpoint))) o g
      plan).0
served o (g, p) = g

complete_hit :
    (fuel : ℕ) (o : Outside) (g : Gateway) (plan : Plan) (rec : CacheRecord)
    → plan.cache_hit ≡ some rec
    → (complete_result fuel o g plan).0.router.pool ≡ g.router.pool
unfolding complete_result
complete_hit fuel o g plan rec e = rw (complete_result, e) refl

served-Balanced :
    (o : Outside) (p : Pool) (g : Gateway) (q : Prepared)
    → HasOne q
    → Holds p (g, q)
    → Balanced p (served o (g, q)).router.pool
served-Balanced o p g (prepared plan) (inl (rec, e, a)) h =
    subst (Balanced p)
      (sym (
        complete_hit (suc (length (candidate_accounts g.router plan.model plan.endpoint))) o g plan
          rec e))
      (record {
        valid = h.valid;
        flights = λ j. omega (arith, h.flights j, ap (λ x. account_slots x j) a);
      })
served-Balanced o p g (prepared plan) (inr (id, m, a)) h = record {
  valid = frees.valid;
  flights = λ j. omega (arith, frees.flights j, h.flights j, ap (λ x. account_slots x j) a);
}
  where
    fuel : ℕ
    fuel = suc (length (candidate_accounts g.router plan.model plan.endpoint))

    frees : Frees id g.router.pool (complete_result fuel o g plan).0.router.pool
    frees = complete_result-Frees fuel o g plan id h.valid (omega arith) m a
served-Balanced o p g (invalid_effort e) k h = record {
  valid = h.valid;
  flights = λ j. omega (arith, h.flights j);
}
served-Balanced o p g (invalid_tier e) k h = record {
  valid = h.valid;
  flights = λ j. omega (arith, h.flights j);
}
served-Balanced o p g (not_selected s) k h = record {
  valid = h.valid;
  flights = λ j. omega (arith, h.flights j);
}

-- From a valid pool, a request that is prepared and completed leaves as many requests in flight at
-- each account as there were, whether it is answered, from the cache or by an account, or fails at
-- any step, and whatever the backends answer; the pool stays valid.
pub prepare-complete_result-Balanced :
    (settings : PrepareSettings) (make_key : Tuning → Text) (o : Outside) (g : Gateway)
    (req : PrepareRequest) (control : Text) (now : ℕ)
    → IsValid g.router.pool
    → Balanced g.router.pool (served o (prepare settings make_key g req control now)).router.pool
prepare-complete_result-Balanced settings make_key o g req control now v =
    served-Balanced o g.router.pool r.0 r.1 (prepare-HasOne settings make_key g req control now)
      (prepare-Holds settings make_key g req control now v)
  where
    r : Gateway × Prepared
    r = prepare settings make_key g req control now
