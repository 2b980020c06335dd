-- ===== src/Tests/Selects.antt =====
-- Examples of Select and SelectExcluding.
use ghcp_pool_go.Base.{
  ◌+◌, ◌<◌, ◌≡◌, refl, true, [], ◌∷◌, arith, In, Text, inl, length, lookup, text_eq, text_lt, ◌^◌,
}
use ghcp_pool_go.Account
use ghcp_pool_go.Bucket
use ghcp_pool_go.Pool
use ghcp_pool_go.Pool.{get}
use ghcp_pool_go.Pool.Same.{open_for}
use ghcp_pool_go.Router.{candidate_accounts, select, selected}
use ghcp_pool_go.Router.Selected
use ghcp_pool_go.Router.Selected.{Outcome}
use ghcp_pool_go.Router.Found
use ghcp_pool_go.Router.Found.{is_free}
use ghcp_pool_go.Tests.{id_a, id_b, model, pool, router}
use ghcp_pool_go.Tests.Pools.{pool-IsValid}

both : candidate_accounts router model [] ≡ id_a ∷ id_b ∷ []
unfolding candidate_accounts text_lt lookup Account.allows_model
both = refl

select-Outcome_example :
    Outcome pool (candidate_accounts router model []) (select router model [] 7)
select-Outcome_example = Selected.select-Outcome router model [] 7 pool-IsValid

few : router.rr + length (candidate_accounts router model []) < 2 ^ 63
unfolding candidate_accounts text_lt lookup Account.allows_model
few = omega arith

here : In id_a (candidate_accounts router model [])
unfolding candidate_accounts text_lt lookup Account.allows_model
here = inl refl

ready : open_for 7 pool id_a ≡ true
unfolding get lookup text_eq Account.available Bucket.available Bucket.refill
ready = refl

select_finds_example : (x : Text) × ((select router model [] 7).1 ≡ selected x)
unfolding Bucket.available
select_finds_example = Found.select_finds router model [] 7 id_a pool-IsValid few here ready refl

-- The less busy of the two accounts is taken, and the other one when it is excluded.
select_runs : (select router model [] 7).1 ≡ selected id_b
unfolding select text_lt lookup Account.allows_model Pool.global_retry_after Bucket.retry_after
    Pool.try_acquire Account.available Bucket.available Bucket.refill Bucket.consume
    Account.try_acquire
select_runs = refl
