-- ===== src/Router/Matching.antt =====
-- Which route applies to a model, and which accounts may serve it.
use ghcp_pool_go.Account
use ghcp_pool_go.Account.{Account}
use ghcp_pool_go.Base.{
  ◌≡◌, refl, sym, ◌↔◌, true, false, none, some, arith, any, In, In-keep, keep-In, Text, text_eq,
  is_empty, sort_by, In-sort_by, sort_by-In, subst, Bool-cases, Option-cases, inl, inr, ◌<◌,
}
use ghcp_pool_go.Config.{RouteConfig}
use ghcp_pool_go.Glob.{glob_match}
use ghcp_pool_go.Pool.{get}
use ghcp_pool_go.Registry.{accounts_for, account_supports_endpoint}
use ghcp_pool_go.Router.{
  Router, ranks_before, matching_route, candidate_ids, is_candidate, candidate_accounts,
}
use ghcp_pool_go.Router.Ranked.{List-cases, matched}

-- No route applies exactly where none matches.
pub matching_route-none :
    (r : Router) (model : Text)
    → (matching_route r model ≡ none)
      ↔ ((d : RouteConfig) → In d r.routes → glob_match d.model model ≡ false)
unfolding matching_route
matching_route-none r model = (to, from)
  where
    to :
        matching_route r model ≡ none
        → (d : RouteConfig) → In d r.routes
        → glob_match d.model model ≡ false
    to h d m = elim (Bool-cases (glob_match d.model model)) [
      | inr f ↦ f
      | inl t ↦ elim (List-cases (sort_by ranks_before (matched r model))) [
        | inl e ↦ absurd (
            subst (In d) e (
              In-sort_by ranks_before d (matched r model)
                (In-keep (λ route. glob_match route.model model) d r.routes m t)))
        | inr (x, rest, e) ↦ absurd (ground arith)
      ]
    ]

    from :
        ((d : RouteConfig) → In d r.routes → glob_match d.model model ≡ false)
        → matching_route r model ≡ none
    from h = elim (List-cases (sort_by ranks_before (matched r model))) [
      | inl e ↦ ground arith
      | inr (x, rest, e) ↦
          let here : In x (matched r model) =
            sort_by-In ranks_before x (matched r model) (subst (In x) (sym e) (inl refl)) in
          let (m, g) = keep-In (λ route. glob_match route.model model) x r.routes here in
          absurd (ground (arith, h x m))
    ]

-- What CandidateAccounts asks of an account.
pub record Serves (r : Router) (model endpoint id : Text) (a : Account) : Type 0 where
  pub present : get r.pool id ≡ some a
  pub enabled : a.enabled ≡ true
  pub allowed : Account.allows_model a model ≡ true
  pub listed : 0 < r.registry.last_refresh → any (text_eq id) (accounts_for r.registry model) ≡ true
  pub supported :
      0 < r.registry.last_refresh
      → is_empty endpoint ≡ false
      → account_supports_endpoint r.registry model id endpoint ≡ true

is_candidate-Serves :
    (r : Router) (model endpoint id : Text)
    → (is_candidate r model endpoint id ≡ true) ↔ ((a : Account) × Serves r model endpoint id a)
unfolding is_candidate
is_candidate-Serves r model endpoint id = elim (Option-cases (get r.pool id)) [
  | inl e ↦ ((λ h. absurd (ground arith)), λ (a, s). absurd (ground (arith, s.present)))
  | inr (a, e) ↦ (
    (λ h. (
      a,
      record {
        present = e;
        enabled = ground arith;
        allowed = ground arith;
        listed = λ ready. ground arith;
        supported = λ ready named. ground arith;
      },
    )),
    λ (b, s).
        let same : b ≡ a = ground (arith, s.present) in
        let t : Serves r model endpoint id a = subst (Serves r model endpoint id) same s in
        ground (arith, t.enabled, t.allowed, t.listed, t.supported),
  )
]

-- The candidates are exactly the accounts, among those that the route names or else all of the
-- pool, that are enabled, may use the model, and by the registry (once refreshed) serve the model
-- on the endpoint.
pub candidate_accounts_iff :
    (r : Router) (model endpoint id : Text)
    → In id (candidate_accounts r model endpoint) ↔ (
        In id (candidate_ids r (matching_route r model))
        × ((a : Account) × Serves r model endpoint id a))
unfolding candidate_accounts
candidate_accounts_iff r model endpoint id = (
  (λ m.
      let (named, t) =
        keep-In (is_candidate r model endpoint) id (candidate_ids r (matching_route r model)) m in
      (named, (is_candidate-Serves r model endpoint id).0 t)),
  λ s.
      In-keep (is_candidate r model endpoint) id (candidate_ids r (matching_route r model)) s.0
        ((is_candidate-Serves r model endpoint id).1 s.1),
)
