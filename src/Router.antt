-- ===== src/Router.antt =====
-- internal/gateway/routing.go: Router. An account is its id. Select and SelectExcluding read the
-- clock once.
mod Routes
mod Pick
pub mod Ranked
pub mod Matching
pub mod Picking
pub mod Choosing
pub mod Strategies
pub mod Selecting
pub mod Selected
pub mod Found
pub mod Alike
unfoldable pub use Routes.*
unfoldable pub use Pick.*
use ghcp_pool_go.Account
use ghcp_pool_go.Account.{Account}
use ghcp_pool_go.Base.{
  ℕ, zero, suc, ◌+◌, ◌-◌, ◌*◌, ◌%◌, ◌^◌, Bool, true, false, not, ◌&&◌, ◌||◌, Option, none, some,
  List, [], ◌∷◌, if◌then◌else◌, any, keep, Text, text, text_eq, is_empty, byte_length, contains_any,
  insert, keys, sort_by, sort_texts, ltb, ◌==◌, length, get_elem?, ℤ, pos, negsuc, ◌+ℤ◌, ltb_ℤ,
}
use ghcp_pool_go.Bucket.{second}
use ghcp_pool_go.Config.{RouteConfig}
use ghcp_pool_go.Glob.{glob_match}
use ghcp_pool_go.Pool
use ghcp_pool_go.Pool.{Pool, get, update_account}
use ghcp_pool_go.Registry.{Registry, accounts_for, account_supports_endpoint}

unfoldable pub strategy_of : Option RouteConfig → Text
unfolding text
strategy_of route = elim route [
  | none ↦ text "least_busy"
  | some c ↦ if is_empty c.strategy then text "least_busy" else c.strategy
]

pub data Selection : Type 0 where
  selected : Text → Selection
  no_account_for_model : Selection
  rate_limit_exceeded : ℕ → Selection
  routing_error : Selection
  panics : Selection

-- What the loop ends with: an account, no account left, or a panic.
pub data Attempt : Type 0 where
  took : Text → Attempt
  exhausted : Attempt
  panicked : Attempt

abbrev pub without : Text → List Text → List Text
without id = keep (λ other. not (text_eq other id))

-- The loop of Select and SelectExcluding. Each round drops the account that it picked, so the
-- number of candidates is enough fuel.
unfoldable pub try_candidates : ℕ → Router → List Text → Text → ℕ → Router × Attempt
unfolding pick
try_candidates zero r ids strategy now = (r, exhausted)
try_candidates (suc fuel) r [] strategy now = (r, exhausted)
try_candidates (suc fuel) r (id ∷ ids) strategy now = elim (pick r (id ∷ ids) strategy now) [
  | none ↦ (r, panicked)
  | some c ↦
      let (p, acquired) = Pool.try_acquire c.router.pool c.picked now in
      let r' = record (c.router) { pool = p } in
      elim acquired [
        | true ↦ (r', took c.picked)
        | false ↦ try_candidates fuel r' (without c.picked c.order) strategy now
      ]
]

-- The scan behind the loop: how many of the accounts are rate limited, and the shortest wait.
unfoldable pub rate_limits : Pool → List Text → ℕ → ℕ × ℕ → Pool × (ℕ × ℕ)
rate_limits p [] now s = (p, s)
rate_limits p (id ∷ ids) now s =
    let (q, retry) : Pool × ℕ = elim (get p id) [
      | none ↦ (p, 0)
      | some a ↦
          let (a', wait) = Account.rate_retry_after a now in
          (record p { accounts = insert id a' p.accounts }, wait)
    ] in
    rate_limits q ids now
      (if ltb 0 retry then (s.0 + 1, if s.1 == 0 || ltb retry s.1 then retry else s.1) else s)

unfoldable pub after_loop : Router → List Text → ℕ → Attempt → Router × Selection
unfolding rate_limits
after_loop r eligible now (took id) = (r, selected id)
after_loop r eligible now panicked = (r, panics)
after_loop r eligible now exhausted =
    let (p, (limited, retry)) = rate_limits r.pool eligible now (0, 0) in
    (
      record r { pool = p },
      if limited == length eligible then rate_limit_exceeded retry else routing_error,
    )

unfoldable pub select : Router → Text → Text → ℕ → Router × Selection
unfolding matching_route candidate_accounts try_candidates after_loop strategy_of
select r model endpoint now =
    let eligible = candidate_accounts r model endpoint in
    if length eligible == 0
    then (r, no_account_for_model)
    else (let (p, retry) = Pool.global_retry_after r.pool now in
        let r' = record r { pool = p } in
        if ltb 0 retry
        then (r', rate_limit_exceeded retry)
        else (let (q, attempt) =
              try_candidates (length eligible) r' eligible (strategy_of (matching_route r model))
                now in
            after_loop q eligible now attempt))

-- `none` beside the router is the nil account.
unfoldable pub select_excluding : Router → Text → List Text → Text → ℕ → Router × Attempt
unfolding matching_route candidate_accounts try_candidates strategy_of
select_excluding r model exclude endpoint now =
    let (p, retry) = Pool.global_retry_after r.pool now in
    let r' = record r { pool = p } in
    if ltb 0 retry
    then (r', exhausted)
    else (let available =
          keep (λ id. not (any (text_eq id) exclude)) (candidate_accounts r' model endpoint) in
        try_candidates (length available) r' available (strategy_of (matching_route r model)) now)

unfoldable pub pick_endpoint : Router → Text → List Text → Text
unfolding candidate_accounts text
pick_endpoint r model [] = text "/chat/completions"
pick_endpoint r model (first ∷ rest) =
    elim (keep (λ e. not (length (candidate_accounts r model e) == 0)) (first ∷ rest)) [
      | [] ↦ first
      | endpoint ∷ _ ↦ endpoint
    ]
