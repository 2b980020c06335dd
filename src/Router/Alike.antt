-- ===== src/Router/Alike.antt =====
-- What serving a request never changes: the accounts of the pool with their configuration, the
-- registry and the routes. So the candidates for a model stay the same.
use ghcp_pool_go.Account
use ghcp_pool_go.Account.{Account}
use ghcp_pool_go.Base.{
  ℕ, zero, suc, ◌≡◌, refl, ap, ◌∙◌, Bool, not, Option, none, some, List, [], ◌∷◌, arith, keep, any,
  Text, text_eq, lookup, sort_texts, Bool-cases, Option-cases, inl, inr, ltb, length,
}
use ghcp_pool_go.Config.{RouteConfig}
use ghcp_pool_go.Pool
use ghcp_pool_go.Pool.{Pool, get, update_account, global_retry_after}
use ghcp_pool_go.Pool.Views.{
  view, Alike, Alike-refl, Alike-trans, update_account-Alike, limiter-Alike, try_acquire-Alike,
}
use ghcp_pool_go.Router.{
  Router, Choice, pick, trim_compared, without, try_candidates, select_excluding, is_candidate,
  candidate_ids, candidate_accounts, matching_route, strategy_of,
}
use ghcp_pool_go.Router.Choosing.{pick-IsChoice}

trim_compared-Alike : (now : ℕ) (ids : List Text) (p : Pool) → Alike p (trim_compared now ids p)
unfolding trim_compared Account.recent_stats
trim_compared-Alike now [] p = Alike-refl p
trim_compared-Alike now (id ∷ ids) p =
    let trim : Account → Account = λ a. (Account.recent_stats a now).0 in
    Alike-trans p (update_account id trim p) _ (update_account-Alike id trim p (λ a. refl))
      (trim_compared-Alike now ids (update_account id trim p))

-- A router of the same accounts, registry and routes.
pub record SameRoutes (r q : Router) : Type 0 where
  pub pools : Alike r.pool q.pool
  pub registry : q.registry ≡ r.registry
  pub routes : q.routes ≡ r.routes

pub SameRoutes-trans : (r q s : Router) → SameRoutes r q → SameRoutes q s → SameRoutes r s
SameRoutes-trans r q s a b = record {
  pools = Alike-trans r.pool q.pool s.pool a.pools b.pools;
  registry = b.registry ∙ a.registry;
  routes = b.routes ∙ a.routes;
}

pub pool-SameRoutes :
    (r : Router) (q : Pool) → Alike r.pool q → SameRoutes r (record r { pool = q })
pool-SameRoutes r q a = record { pools = a; registry = refl; routes = refl }

pick-SameRoutes :
    (r : Router) (ids : List Text) (strategy : Text) (now : ℕ) (c : Choice)
    → pick r ids strategy now ≡ some c
    → SameRoutes r c.router
pick-SameRoutes r ids strategy now c h =
    let choice = pick-IsChoice r ids strategy now c h in
    record {
      pools = elim (choice.pool) [
        | inl e ↦ rw e (Alike-refl r.pool)
        | inr e ↦ rw e (trim_compared-Alike now ids r.pool)
      ];
      registry = choice.registry;
      routes = choice.routes;
    }

SameRoutes-refl : (r : Router) → SameRoutes r r
SameRoutes-refl r = record { pools = Alike-refl r.pool; registry = refl; routes = refl }

try_candidates-SameRoutes :
    (fuel : ℕ) (r : Router) (ids : List Text) (strategy : Text) (now : ℕ)
    → SameRoutes r (try_candidates fuel r ids strategy now).0
unfolding try_candidates
try_candidates-SameRoutes zero r ids strategy now = SameRoutes-refl r
try_candidates-SameRoutes (suc fuel) r [] strategy now = SameRoutes-refl r
try_candidates-SameRoutes (suc fuel) r (id ∷ ids) strategy now =
    elim (Option-cases (pick r (id ∷ ids) strategy now)) [
      | inl e ↦ rw (e, try_candidates) (SameRoutes-refl r)
      | inr (c, e) ↦
          let p = (Pool.try_acquire c.router.pool c.picked now).0 in
          let after : Router = record (c.router) { pool = p } in
          let one =
            SameRoutes-trans r c.router after (pick-SameRoutes r (id ∷ ids) strategy now c e)
              (pool-SameRoutes c.router p (try_acquire-Alike c.router.pool c.picked now)) in
          elim (Bool-cases (Pool.try_acquire c.router.pool c.picked now).1) [
            | inl acquired ↦ rw (e, try_candidates) (rw acquired one)
            | inr refused ↦
                rw (e, try_candidates)
                  (rw refused (
                    SameRoutes-trans r after _ one (
                      try_candidates-SameRoutes fuel after (without c.picked c.order) strategy
                        now)))
          ]
    ]

pub select_excluding-SameRoutes :
    (r : Router) (model : Text) (exclude : List Text) (endpoint : Text) (now : ℕ)
    → SameRoutes r (select_excluding r model exclude endpoint now).0
unfolding select_excluding global_retry_after
select_excluding-SameRoutes r model exclude endpoint now =
    let q = (global_retry_after r.pool now).0 in
    let r' : Router = record r { pool = q } in
    let first = pool-SameRoutes r q (limiter-Alike r.pool r.pool _ (Alike-refl r.pool)) in
    let ids = keep (λ id. not (any (text_eq id) exclude)) (candidate_accounts r' model endpoint) in
    elim (Bool-cases (ltb 0 (global_retry_after r.pool now).1)) [
      | inl t ↦ rw (t, select_excluding) first
      | inr f ↦
          rw (f, select_excluding)
            (SameRoutes-trans r r' _ first (
              try_candidates-SameRoutes (length ids) r' ids (strategy_of (matching_route r model))
                now))
    ]

keep-ext : (p q : Text → Bool) (xs : List Text) → ((x : Text) → p x ≡ q x) → keep p xs ≡ keep q xs
keep-ext p q [] h = refl
keep-ext p q (x ∷ xs) h = rw (h x, keep-ext p q xs h) refl

allows_model_config :
    (a b : Account) (model : Text)
    → b.config ≡ a.config
    → Account.allows_model b model ≡ Account.allows_model a model
unfolding Account.allows_model
allows_model_config a b model e = ap (λ c. Account.allows_model (record a { config = c }) model) e

is_candidate_view :
    (r q : Router) (model endpoint id : Text)
    → SameRoutes r q
    → is_candidate q model endpoint id ≡ is_candidate r model endpoint id
unfolding is_candidate Account.allows_model lookup
is_candidate_view r q model endpoint id s = elim (Option-cases (get r.pool id)) [
  | inl e ↦ elim (Option-cases (get q.pool id)) [
    | inl f ↦ rw (f, is_candidate) (rw (e, is_candidate) refl)
    | inr (b, f) ↦ absurd (ground (arith, s.pools.seen id))
  ]
  | inr (a, e) ↦ elim (Option-cases (get q.pool id)) [
    | inl f ↦ absurd (ground (arith, s.pools.seen id))
    | inr (b, f) ↦
        let same : view b ≡ view a = ground (arith, s.pools.seen id) in
        let enabled = ap (λ v. v.0) same in
        let allowed = allows_model_config a b model (ap (λ v. v.1) same) in
        rw (f, is_candidate) (rw (e, is_candidate) (rw (s.registry, enabled, allowed) refl))
  ]
]

matching_route-SameRoutes :
    (r q : Router) (model : Text) → SameRoutes r q → matching_route q model ≡ matching_route r model
unfolding matching_route
matching_route-SameRoutes r q model s =
    ap (λ z. matching_route (record r { routes = z }) model) s.routes

candidate_ids-SameRoutes :
    (r q : Router) (route : Option RouteConfig)
    → SameRoutes r q
    → candidate_ids q route ≡ candidate_ids r route
unfolding candidate_ids
candidate_ids-SameRoutes r q none s = ap sort_texts s.pools.same_ids
candidate_ids-SameRoutes r q (some c) s = named c.accounts refl
  where
    named :
        (ids : List Text) → c.accounts ≡ ids → candidate_ids q (some c) ≡ candidate_ids r (some c)
    named [] e = rw (e, candidate_ids) (ap sort_texts s.pools.same_ids)
    named (id ∷ ids) e = rw (e, candidate_ids) refl

-- Routers of the same accounts, registry and routes have the same candidates.
pub candidate_accounts-SameRoutes :
    (r q : Router) (model endpoint : Text)
    → SameRoutes r q
    → candidate_accounts q model endpoint ≡ candidate_accounts r model endpoint
unfolding candidate_accounts
candidate_accounts-SameRoutes r q model endpoint s =
    keep-ext (is_candidate q model endpoint) (is_candidate r model endpoint) _
      (λ id. is_candidate_view r q model endpoint id s)
    ∙ ap (keep (is_candidate r model endpoint)) (
        candidate_ids-SameRoutes r q (matching_route q model) s
        ∙ ap (candidate_ids r) (matching_route-SameRoutes r q model s))
