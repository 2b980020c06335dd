-- ===== src/Gateway/Prepare/Held.antt =====
-- internal/gateway/gateway.go: the slots that a request holds after Prepare.
use ghcp_pool_go.Base.{
  ℕ, ◌+◌, ◌≡◌, refl, inl, inr, not, Option, none, some, arith, if◌then◌else◌, Text, text_eq,
  Bool-cases, Option-cases,
}
use ghcp_pool_go.Cache.{cache_lookup}
use ghcp_pool_go.Config.Models.{is_valid_reasoning_effort, is_valid_context_tier}
use ghcp_pool_go.Gateway.{Gateway}
use ghcp_pool_go.Gateway.Prepare.{
  PrepareSettings, PrepareRequest, Tuning, Prepared, prepared, invalid_effort, invalid_tier, tuning,
  prepare_tuned, prepare, allowed, of_selection,
}
use ghcp_pool_go.Pool.{Pool}
use ghcp_pool_go.Pool.Acquire.{in_flight_of}
use ghcp_pool_go.Pool.Valid.{IsValid}
use ghcp_pool_go.Router.{
  Selection, selected, no_account_for_model, rate_limit_exceeded, routing_error, panics, select,
  candidate_accounts,
}
use ghcp_pool_go.Router.Selected.{Outcome, slots, select-Outcome}

-- The slots that a plan holds of an account.
abbrev pub account_slots : Option Text → Text → ℕ
account_slots none j = 0
account_slots (some id) j = if text_eq id j then 1 else 0

abbrev pub slots_of : Prepared → Text → ℕ
slots_of (prepared plan) j = account_slots plan.account j
slots_of p j = 0

-- What is held after a call that began with the pool `p`.
pub record Holds (p : Pool) (r : Gateway × Prepared) : Type 0 where
  pub valid : IsValid r.0.router.pool
  pub flights : (j : Text) → in_flight_of r.0.router.pool j ≡ in_flight_of p j + slots_of r.1 j

pub unchanged-Holds :
    (g : Gateway) (q : Prepared)
    → IsValid g.router.pool
    → ((j : Text) → slots_of q j ≡ 0)
    → Holds g.router.pool (g, q)
unchanged-Holds g q v z = record { valid = v; flights = λ j. omega (arith, z j) }

of_selection-slots :
    (req : PrepareRequest) (t : Tuning) (key control : Text) (s : Selection) (j : Text)
    → slots_of (of_selection req t key control s) j ≡ slots s j
of_selection-slots req t key control (selected id) j = refl
of_selection-slots req t key control no_account_for_model j = refl
of_selection-slots req t key control (rate_limit_exceeded w) j = refl
of_selection-slots req t key control routing_error j = refl
of_selection-slots req t key control panics j = refl

prepare_tuned-Holds :
    (make_key : Tuning → Text) (g : Gateway) (req : PrepareRequest) (t : Tuning) (control : Text)
    (now : ℕ)
    → IsValid g.router.pool
    → Holds g.router.pool (prepare_tuned make_key g req t control now)
unfolding prepare_tuned
prepare_tuned-Holds make_key g req t control now v =
    elim (Option-cases (cache_lookup g.cache (make_key t) control t.upstream_model now).1) [
      | inr (rec, e) ↦ rw (prepare_tuned, e) (record { valid = v; flights = λ j. omega arith })
      | inl e ↦
          rw (prepare_tuned, e)
            (record {
              valid = outcome.valid;
              flights = λ j. omega (
                arith,
                outcome.flights j,
                of_selection-slots req t (make_key t) control
                    (select g.router t.upstream_model t.endpoint now).1 j,
              );
            })
    ]
  where
    outcome :
        Outcome g.router.pool
          (candidate_accounts g.router t.upstream_model t.endpoint)
          (select g.router t.upstream_model t.endpoint now)
    outcome = select-Outcome g.router t.upstream_model t.endpoint now v

-- From a valid pool, Prepare takes one slot of the account of the plan that it returns, and none
-- where the plan has an answer from the cache or there is an error; the pool stays valid.
pub prepare-Holds :
    (settings : PrepareSettings) (make_key : Tuning → Text) (g : Gateway) (req : PrepareRequest)
    (control : Text) (now : ℕ)
    → IsValid g.router.pool
    → Holds g.router.pool (prepare settings make_key g req control now)
unfolding prepare
prepare-Holds settings make_key g req control now v =
    elim (Bool-cases (not (allowed is_valid_reasoning_effort t.effort))) [
      | inl y ↦ rw (prepare, y) (unchanged-Holds g (invalid_effort t.effort) v (λ j. refl))
      | inr f ↦ elim (Bool-cases (not (allowed is_valid_context_tier t.tier))) [
        | inl y ↦ rw (prepare, f) (rw y (unchanged-Holds g (invalid_tier t.tier) v (λ j. refl)))
        | inr n ↦ rw (prepare, f) (rw n (prepare_tuned-Holds make_key g req t control now v))
      ]
    ]
  where
    t : Tuning
    t = tuning settings g.router req
