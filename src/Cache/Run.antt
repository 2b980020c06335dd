-- ===== src/Cache/Run.antt =====
-- Any run of calls of a cache.
use ghcp_pool_go.Base.{ℕ, refl, List, [], ◌∷◌, arith, Text, lookup, ℤ}
use ghcp_pool_go.Cache.{MemoryCache, CacheRecord, new_memory_cache, get, set, clear}
use ghcp_pool_go.Cache.Valid.{IsValid, get-IsValid, set-IsValid, new_memory_cache-IsValid}

-- The calls of a cache, with their times.
pub data Call : Type 0 where
  gets : Text → Call
  sets : Text → CacheRecord → Call
  clears : Call

unfoldable pub step : MemoryCache → ℕ × Call → MemoryCache
step c (now, gets key) = (get c key now).0
step c (now, sets key value) = set c key value now
step c (now, clears) = (clear c).0

unfoldable pub run : MemoryCache → List (ℕ × Call) → MemoryCache
run c [] = c
run c (x ∷ xs) = run (step c x) xs

step-IsValid : (c : MemoryCache) (x : ℕ × Call) → IsValid c → IsValid (step c x)
unfolding step clear lookup
step-IsValid c (now, gets key) v = get-IsValid c key now v
step-IsValid c (now, sets key value) v = set-IsValid c key value now v
step-IsValid c (now, clears) v = record {
  agrees = record {
    items_unique = tt;
    order_unique = tt;
    same_keys = λ k. refl;
    same_length = refl;
  };
  bounded = omega arith;
  positive = v.positive;
}

run_keeps : (c : MemoryCache) (xs : List (ℕ × Call)) → IsValid c → IsValid (run c xs)
unfolding run
run_keeps c [] v = v
run_keeps c (x ∷ xs) v = run_keeps (step c x) xs (step-IsValid c x v)

-- A new cache, whatever is called in whatever order, never holds more than its limit (one at
-- least), its map and its list hold the same keys, and no key twice.
pub new_memory_cache-run :
    (ttl most : ℤ) (xs : List (ℕ × Call)) → IsValid (run (new_memory_cache ttl most) xs)
new_memory_cache-run ttl most xs =
    run_keeps (new_memory_cache ttl most) xs (new_memory_cache-IsValid ttl most)
