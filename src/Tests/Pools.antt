-- ===== src/Tests/Pools.antt =====
-- Examples of the pool.
use ghcp_pool_go.Account
use ghcp_pool_go.Account.{Account}
use ghcp_pool_go.Base.{◌≡◌, refl, ◌↔◌, true, some, [], ◌∷◌, arith, text_eq, lookup, insert, ok, err}
use ghcp_pool_go.Bucket
use ghcp_pool_go.Config.{is_enabled}
use ghcp_pool_go.Pool
use ghcp_pool_go.Pool.{Pool, Services, get, add_account, remove_account}
use ghcp_pool_go.Pool.Valid
use ghcp_pool_go.Pool.Acquire
use ghcp_pool_go.Tests.{config_of, id_a, id_c, pool, services}
use ghcp_pool_go.Tests.Limits.{bucket-IsValid}

pub pool-IsValid : Valid.IsValid pool
unfolding Account.max_concurrency lookup text_eq
pool-IsValid = record {
  unique = (refl, (refl, tt));
  entries = (
    record { named = refl; valid = record { within = omega arith; limiter = bucket-IsValid } },
    (
      record { named = refl; valid = record { within = omega arith; limiter = bucket-IsValid } },
      tt,
    ),
  );
  limiter = tt;
}

acquires_iff_example : ((Pool.try_acquire pool id_a 7).1 ≡ true) ↔ (
    (a : Account) × (get pool id_a ≡ some a)
    × ((Account.available a 7).1 ≡ true)
    × ((Bucket.available pool.global_rate_limiter 7).1 ≡ true))
acquires_iff_example = Acquire.acquires_iff pool id_a 7 pool-IsValid

-- A backend that does not start.
abbrev broken : Services
broken = record services { start_backend = λ c. err (b'x' ∷ []) }

add_broken : (add_account broken pool (config_of id_c) 9).1 ≡ err (b'x' ∷ [])
unfolding add_account lookup insert text_eq is_enabled
add_broken = refl

add_working : (add_account services pool (config_of id_c) 9).1 ≡ ok tt
unfolding add_account lookup insert text_eq is_enabled
add_working = refl
