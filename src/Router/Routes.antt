-- ===== src/Router/Routes.antt =====
-- internal/gateway/routing.go: the router, the route of a model, and the accounts that may serve it.
use ghcp_pool_go.Account
use ghcp_pool_go.Account.{Account}
use ghcp_pool_go.Base.{
  ℕ, ◌+◌, ◌-◌, ◌*◌, ◌%◌, ◌^◌, Bool, false, not, ◌&&◌, Option, none, some, List, [], ◌∷◌,
  if◌then◌else◌, any, keep, Text, text, text_eq, is_empty, byte_length, contains_any, keys, sort_by,
  sort_texts, ltb, ℤ, pos, negsuc, ◌+ℤ◌, ltb_ℤ,
}
use ghcp_pool_go.Config.{RouteConfig}
use ghcp_pool_go.Glob.{glob_match}
use ghcp_pool_go.Pool.{Pool, get}
use ghcp_pool_go.Registry.{Registry, accounts_for, account_supports_endpoint}

pub record Router : Type 0 where
  pub pool : Pool
  pub registry : Registry
  pub routes : List RouteConfig
  pub rr : ℕ

unfoldable pub set_routes : Router → List RouteConfig → Router
set_routes r routes = record r { routes = routes }

-- The length in bytes, and a thousand more for a pattern without `*` and `?`.
unfoldable pub specificity : Text → ℕ
unfolding byte_length text
specificity pattern = byte_length pattern + (if contains_any pattern (text "*?") then 0 else 1000)

-- `Priority * 10000`
abbrev pub times_10000 : ℤ → ℤ
times_10000 (pos n) = pos (n * 10000)
times_10000 (negsuc n) = negsuc (n * 10000 + 9999)

-- An int of 64 bits, which wraps around.
unfoldable pub wrap_int64 : ℤ → ℤ
wrap_int64 (pos n) = let r = n % 2 ^ 64 in if ltb r (2 ^ 63) then pos r else negsuc (2 ^ 64 - 1 - r)
wrap_int64 (negsuc n) =
    let r = n % 2 ^ 64 in if ltb r (2 ^ 63) then negsuc r else pos (2 ^ 64 - 1 - r)

unfoldable pub rank : RouteConfig → ℤ
unfolding specificity wrap_int64 ◌+ℤ◌
rank route = wrap_int64 (wrap_int64 (times_10000 route.priority) +ℤ pos (specificity route.model))

-- The order of sort.Slice: a higher rank comes first.
abbrev pub ranks_before : RouteConfig → RouteConfig → Bool
ranks_before a b = ltb_ℤ (rank b) (rank a)

unfoldable pub matching_route : Router → Text → Option RouteConfig
unfolding glob_match rank sort_by
matching_route r model =
    elim (sort_by ranks_before (keep (λ route. glob_match route.model model) r.routes)) [
      | [] ↦ none
      | route ∷ _ ↦ some route
    ]

-- The ids that the route names, or all of the pool in order.
unfoldable pub candidate_ids : Router → Option RouteConfig → List Text
candidate_ids r route =
    let all = sort_texts (keys r.pool.accounts) in
    elim route [ none ↦ all | some c ↦ elim c.accounts [ [] ↦ all | id ∷ ids ↦ id ∷ ids ] ]

-- The guards of the loop of CandidateAccounts. An empty endpoint is no demand.
unfoldable pub is_candidate : Router → Text → Text → Text → Bool
unfolding accounts_for account_supports_endpoint get text_eq
is_candidate r model endpoint id = elim (get r.pool id) [
  | none ↦ false
  | some a ↦
      let ready = ltb 0 r.registry.last_refresh in
      a.enabled
      && Account.allows_model a model
      && not (ready && not (any (text_eq id) (accounts_for r.registry model)))
      && not (
          ready
          && not (is_empty endpoint)
          && not (account_supports_endpoint r.registry model id endpoint))
]

unfoldable pub candidate_accounts : Router → Text → Text → List Text
unfolding matching_route candidate_ids is_candidate
candidate_accounts r model endpoint =
    keep (is_candidate r model endpoint) (candidate_ids r (matching_route r model))
