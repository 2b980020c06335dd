-- ===== src/Router/Selected.antt =====
-- Select and SelectExcluding as wholes.
use ghcp_pool_go.Account
use ghcp_pool_go.Account.{Account}
use ghcp_pool_go.Account.Slots
use ghcp_pool_go.Base.{
  ℕ, ◌+◌, ◌≡◌, ◌↔◌, refl, ◌∙◌, List, [], ◌∷◌, arith, if◌then◌else◌, In, Text, text_eq, length, ltb,
  ◌==◌, Option-cases, lookup, Bool-cases, inl, inr,
}
use ghcp_pool_go.Bucket.Refill.{available-retry_after, retry_after-IsValid}
use ghcp_pool_go.Pool.{Pool, get, global_retry_after}
use ghcp_pool_go.Pool.Acquire.{in_flight_of}
use ghcp_pool_go.Pool.Same.{
  Same, Same-refl, Same-trans, Still, insert-Same, global_retry_after-Same,
}
use ghcp_pool_go.Pool.Valid.{IsValid, IsEntry-lookup}
use ghcp_pool_go.Router.{
  Router, Selection, selected, no_account_for_model, rate_limit_exceeded, Attempt, took, exhausted,
  panicked, candidate_accounts, matching_route, strategy_of, try_candidates, rate_limits,
  after_loop, select,
}
use ghcp_pool_go.Router.Selecting.{Ends, Ends-Same, try_candidates-Ends}

rate_retry_after-Still :
    (now : ℕ) (a : Account) → Slots.IsValid a → Still now a (Account.rate_retry_after a now).0
unfolding Account.rate_retry_after Account.available Account.is_open Account.max_concurrency
rate_retry_after-Still now a v = record {
  valid = record { within = v.within; limiter = retry_after-IsValid a.rate_limiter now v.limiter };
  config = refl;
  flight = refl;
  answer = ground (arith, available-retry_after a.rate_limiter now v.limiter);
}

rate_limits-Same :
    (now : ℕ) (ids : List Text) (p : Pool) (s : ℕ × ℕ)
    → IsValid p
    → Same now p (rate_limits p ids now s).0
unfolding rate_limits get
rate_limits-Same now [] p s v = Same-refl now p v
rate_limits-Same now (id ∷ ids) p s v = elim (Option-cases (lookup id p.accounts)) [
  | inl e ↦ rw (e, rate_limits) (rate_limits-Same now ids p _ v)
  | inr (a, e) ↦
      let entry = IsEntry-lookup id p.accounts a v.entries e in
      let one =
        insert-Same now p id a (Account.rate_retry_after a now).0 v e
          (rate_retry_after-Still now a entry.valid) in
      rw (e, rate_limits) (Same-trans now p _ _ one (rate_limits-Same now ids _ _ one.valid))
]

-- The slots that a selection took of an account.
abbrev pub slots : Selection → Text → ℕ
slots (selected id) j = if text_eq id j then 1 else 0
slots _ j = 0

pub record Outcome (p : Pool) (ids : List Text) (r : Router × Selection) : Type 0 where
  pub valid : IsValid r.0.pool
  pub flights : (j : Text) → in_flight_of r.0.pool j ≡ in_flight_of p j + slots r.1 j
  pub among : (id : Text) → r.1 ≡ selected id → In id ids

refusal-Outcome :
    (now : ℕ) (p : Pool) (ids : List Text) (r : Router) (s : Selection)
    → Same now p r.pool
    → ((j : Text) → slots s j ≡ 0)
    → ((id : Text) → s ≡ selected id → In id ids)
    → Outcome p ids (r, s)
refusal-Outcome now p ids r s same none_taken among = record {
  valid = same.valid;
  flights = λ j. omega (arith, same.flights j, none_taken j);
  among = among;
}

after_loop-Outcome :
    (now : ℕ) (p : Pool) (ids : List Text) (r : Router) (a : Attempt)
    → Ends p ids (r, a)
    → Outcome p ids (after_loop r ids now a)
unfolding after_loop
after_loop-Outcome now p ids r (took id) e = record {
  valid = e.valid;
  flights = e.flights;
  among = λ j h. e.among j (ground arith);
}
after_loop-Outcome now p ids r panicked e = record {
  valid = e.valid;
  flights = e.flights;
  among = λ j h. absurd (cc);
}
after_loop-Outcome now p ids r exhausted e =
    let same = rate_limits-Same now ids r.pool (0, 0) e.valid in
    elim (Bool-cases ((rate_limits r.pool ids now (0, 0)).1.0 == length ids)) [
      | inl t ↦ rw t (record {
        valid = same.valid;
        flights = λ j. same.flights j ∙ e.flights j;
        among = λ j h. absurd (cc);
      })
      | inr f ↦ rw f (record {
        valid = same.valid;
        flights = λ j. same.flights j ∙ e.flights j;
        among = λ j h. absurd (cc);
      })
    ]

-- From a valid pool, Select takes exactly one slot of the account that it returns, which is one of
-- the candidates, and no slot of any account when it fails; the pool stays valid.
pub select-Outcome :
    (r : Router) (model endpoint : Text) (now : ℕ)
    → IsValid r.pool
    → Outcome r.pool (candidate_accounts r model endpoint) (select r model endpoint now)
unfolding select
select-Outcome r model endpoint now v =
    let ids = candidate_accounts r model endpoint in
    let asked = global_retry_after-Same now r.pool v in
    let r' : Router = record r { pool = (global_retry_after r.pool now).0 } in
    let strategy = strategy_of (matching_route r model) in
    let loop = try_candidates (length ids) r' ids strategy now in
    elim (Bool-cases (length ids == 0)) [
      | inl t ↦
          rw (t, select)
            (refusal-Outcome now r.pool ids r no_account_for_model (Same-refl now r.pool v)
              (λ j. refl) (λ id h. absurd (cc)))
      | inr f ↦ elim (Bool-cases (ltb 0 (global_retry_after r.pool now).1)) [
        | inl t ↦
            rw (f, select)
              (rw t (
                refusal-Outcome now r.pool ids r'
                  (rate_limit_exceeded (global_retry_after r.pool now).1) asked (λ j. refl)
                  (λ id h. absurd (cc))))
        | inr g ↦
            rw (f, select)
              (rw g (
                after_loop-Outcome now r.pool ids loop.0 loop.1 (
                  Ends-Same now r.pool r'.pool ids ids loop asked (λ id m. m)
                    (try_candidates-Ends (length ids) r' ids strategy now asked.valid))))
      ]
    ]

-- Select fails for want of an account exactly where the model has no candidate on the endpoint.
pub select-no_account_for_model :
    (r : Router) (model endpoint : Text) (now : ℕ)
    → ((select r model endpoint now).1 ≡ no_account_for_model)
      ↔ (length (candidate_accounts r model endpoint) ≡ 0)
unfolding select after_loop
select-no_account_for_model r model endpoint now = ground arith
