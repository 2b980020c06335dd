-- ===== src/Tests/Routes.antt =====
-- Examples of the patterns, the routes and the choice of an account.
use ghcp_pool_go.Account
use ghcp_pool_go.Base.{
  subst, sym, byte_length, arith, ◌≡◌, refl, ◌↔◌, true, false, some, List, [], ◌∷◌, In, Text, text,
  text_eq, lookup, inl, inr, if◌then◌else◌, ◌||◌,
}
use ghcp_pool_go.Config.{RouteConfig}
use ghcp_pool_go.Glob.{glob_match}
use ghcp_pool_go.Pool.{get}
use ghcp_pool_go.Router.{
  Choice, matching_route, candidate_ids, candidate_accounts, pick, less_busy, lighter, smarter,
}
use ghcp_pool_go.Router.Matching
use ghcp_pool_go.Router.Ranked
use ghcp_pool_go.Router.Ranked.{FitsRank, Precedes}
use ghcp_pool_go.Router.Matching.{Serves}
use ghcp_pool_go.Router.Strategies
use ghcp_pool_go.Tests.{id_a, id_b, model, pool, route, router}

-- A star does not go back: the class takes the slash, and the second star stops before it.
no_way_back : glob_match (text "*[^a]*b") (text "x/yb") ≡ false
unfolding glob_match text
no_way_back = refl

in_a_class : glob_match (text "gpt-[3-5]*") (text "gpt-4o") ≡ true
unfolding glob_match text
in_a_class = refl

matched : matching_route router model ≡ some route
unfolding matching_route
matched = refl

ranks_fit : (d : RouteConfig) → In d router.routes → FitsRank d
unfolding byte_length
ranks_fit d (inl e) =
    subst FitsRank (sym e) (record { low = omega arith; high = omega arith; short = omega arith })
ranks_fit d (inr m) = elim m [ ]

matching_route_best_example :
    In route router.routes
    × (glob_match route.model model ≡ true)
    × ((d : RouteConfig) → In d router.routes → glob_match d.model model ≡ true → Precedes route d)
matching_route_best_example = Ranked.matching_route_best router model route matched ranks_fit

candidate_accounts_iff_example : In id_a (candidate_accounts router model []) ↔ (
    In id_a (candidate_ids router (matching_route router model))
    × ((a : Account.Account) × Serves router model [] id_a a))
candidate_accounts_iff_example = Matching.candidate_accounts_iff router model [] id_a

abbrev ids : List Text
ids = id_a ∷ id_b ∷ []

abbrev choice : Choice
choice = record { router = router; order = ids; picked = id_b }

least_busy : pick router ids [] 3 ≡ some choice
unfolding pick text_eq get lookup
least_busy = refl

pick_best_example :
    (if text_eq [] (text "weighted")
      then lighter pool id_a id_b
      else if text_eq [] (text "quota_aware") || text_eq [] (text "smart")
      then smarter pool 3 id_a id_b
      else less_busy pool id_a id_b)
    ≡ false
unfolding text_eq text
pick_best_example = Strategies.pick_best router ids [] 3 choice least_busy refl id_a (inl refl)
