-- ===== src/Router/Found.antt =====
-- Select succeeds where it can, and SelectExcluding never takes an excluded account.
use ghcp_pool_go.Base.{
  ℕ, ◌+◌, ◌^◌, ◌<◌, ◌≡◌, refl, ap, ◌∙◌, subst, Bool, true, not, Option, none, some, List, [], ◌∷◌,
  arith, any, keep, In, Text, text_eq, length, ltb, Bool-cases, inl, inr,
}
use ghcp_pool_go.Bucket
use ghcp_pool_go.Bucket.{Bucket}
use ghcp_pool_go.Bucket.Refill.{IsValid?}
use ghcp_pool_go.Bucket.Retry.{retry_after-zero_iff}
use ghcp_pool_go.Pool.{get, global_retry_after}
use ghcp_pool_go.Pool.Same.{global_retry_after-Same, open_for, global_open}
use ghcp_pool_go.Pool.Valid.{IsValid}
use ghcp_pool_go.Router.{
  Router, selected, candidate_accounts, candidate_ids, is_candidate, matching_route, strategy_of,
  try_candidates, after_loop, select, select_excluding,
}
use ghcp_pool_go.Router.Selecting.{Ends, Ends-Same, try_candidates-Ends, try_candidates_finds}

no_wait :
    (b : Option Bucket) (now : ℕ)
    → IsValid? b
    → (Bucket.available b now).1 ≡ true
    → (Bucket.retry_after b now).1 ≡ 0
unfolding Bucket.retry_after
no_wait none now v h = refl
no_wait (some b) now v h = (retry_after-zero_iff b now v).1 h

In-length : (id : Text) (ids : List Text) → In id ids → 0 < length ids
In-length id [] m = elim m [ ]
In-length id (x ∷ xs) m = omega arith

-- From a valid pool, where the limit of the pool has a token and one of the candidates is available,
-- Select returns an account, if `round_robin` has picked less than 2^63 times with what it may pick.
pub select_finds :
    (r : Router) (model endpoint : Text) (now : ℕ) (id : Text)
    → IsValid r.pool
    → r.rr + length (candidate_accounts r model endpoint) < 2 ^ 63
    → In id (candidate_accounts r model endpoint)
    → open_for now r.pool id ≡ true
    → global_open now r.pool ≡ true
    → (x : Text) × ((select r model endpoint now).1 ≡ selected x)
unfolding select after_loop global_retry_after
select_finds r model endpoint now id v small m opened allowed =
    let ids = candidate_accounts r model endpoint in
    let same = global_retry_after-Same now r.pool v in
    let wait = no_wait r.pool.global_rate_limiter now v.limiter allowed in
    let (x, e) =
      try_candidates_finds (length ids) (record r { pool = (global_retry_after r.pool now).0 }) ids
        (strategy_of (matching_route r model)) now id same.valid (omega arith) small m
        (same.opens id ∙ opened) (same.global ∙ allowed) in
    let some_left = In-length id ids m in (x, ground (arith, wait, e, some_left))

candidates-global :
    (r : Router) (model endpoint : Text) (now : ℕ)
    → candidate_accounts (record r { pool = (global_retry_after r.pool now).0 }) model endpoint
      ≡ candidate_accounts r model endpoint
unfolding candidate_accounts matching_route candidate_ids is_candidate global_retry_after get
candidates-global r model endpoint now = refl

-- Whether an id is not among the excluded.
abbrev pub is_free : List Text → Text → Bool
is_free exclude id = not (any (text_eq id) exclude)

-- From a valid pool, SelectExcluding takes exactly one slot of the account that it returns, which is
-- a candidate that is not excluded, and none when it returns no account; the pool stays valid.
pub select_excluding-Ends :
    (r : Router) (model : Text) (exclude : List Text) (endpoint : Text) (now : ℕ)
    → IsValid r.pool
    → Ends r.pool
        (keep (is_free exclude) (candidate_accounts r model endpoint))
        (select_excluding r model exclude endpoint now)
unfolding select_excluding
select_excluding-Ends r model exclude endpoint now v =
    let same = global_retry_after-Same now r.pool v in
    let r' : Router = record r { pool = (global_retry_after r.pool now).0 } in
    let ids = keep (is_free exclude) (candidate_accounts r' model endpoint) in
    let left = ap (keep (is_free exclude)) (candidates-global r model endpoint now) in
    let loop = try_candidates (length ids) r' ids (strategy_of (matching_route r model)) now in
    elim (Bool-cases (ltb 0 (global_retry_after r.pool now).1)) [
      | inl t ↦
          rw (t, select_excluding)
            (record {
              valid = same.valid;
              flights = λ j. omega (arith, same.flights j);
              among = λ id h. absurd (cc);
            })
      | inr f ↦
          rw (f, select_excluding)
            (Ends-Same now r.pool r'.pool
              (keep (is_free exclude) (candidate_accounts r model endpoint)) ids loop same
              (λ id m. subst (In id) left m)
              (try_candidates-Ends (length ids) r' ids (strategy_of (matching_route r model)) now
                same.valid))
    ]
