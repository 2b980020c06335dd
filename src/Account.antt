-- ===== src/Account.antt =====
-- internal/gateway/pool.go: Account. The mutex makes each method one step on this record; a method
-- returns the new record beside its result. Times are nanoseconds since Go's zero time, and a
-- method reads the clock once. Not in the record: the backend, which its callers take as a
-- parameter, the mutex, and the channel `maxParallel`, which nothing uses.
pub mod Window
pub mod Slots
pub mod Health
use ghcp_pool_go.Base.{
  ℕ, ◌+◌, ◌-◌, ◌*◌, Bool, true, false, not, ◌&&◌, ◌||◌, Option, none, some, List, [], ◌∷◌, ◌++◌,
  leb, ltb, ◌==◌, if◌then◌else◌, min, max, length, get_elem?, drop, positive_or, Text, text, keep,
}
use ghcp_pool_go.Bucket
use ghcp_pool_go.Bucket.{Bucket, second}
use ghcp_pool_go.Config.{AccountConfig}
use ghcp_pool_go.Errors.{is_rate_limit_error, is_non_retryable_client_error}
use ghcp_pool_go.Glob.{matches_any}
use Window.{RequestRecord, trim_recent_requests}

pub record Account : Type 0 where
  pub config : AccountConfig
  pub enabled : Bool
  pub models : List Text
  pub home_dir : Text
  pub started : Bool
  pub last_error : Text
  pub cooldown : ℕ
  pub failures : ℕ
  pub in_flight : ℕ
  pub rate_limiter : Option Bucket
  pub last_rate_limited_at : ℕ
  pub recent_requests : List RequestRecord

unfoldable pub max_concurrency : Account → ℕ
max_concurrency a = positive_or 32 a.config.max_concurrency

unfoldable pub weight : Account → ℕ
weight a = positive_or 1 a.config.weight

-- The part of `Available` under the mutex.
unfoldable pub is_open : Account → ℕ → Bool
unfolding max_concurrency
is_open a now = a.enabled && ltb a.cooldown now && ltb a.in_flight (max_concurrency a)

unfoldable pub available : Account → ℕ → Account × Bool
unfolding is_open
available a now =
    if is_open a now
    then (let (b, ok) = Bucket.available a.rate_limiter now in (record a { rate_limiter = b }, ok))
    else (a, false)

unfoldable pub rate_retry_after : Account → ℕ → Account × ℕ
rate_retry_after a now =
    let (b, wait) = Bucket.retry_after a.rate_limiter now in (record a { rate_limiter = b }, wait)

unfoldable pub is_rate_limited : Account → ℕ → Account × Bool
unfolding rate_retry_after
is_rate_limited a now = let (a', wait) = rate_retry_after a now in (a', ltb 0 wait)

unfoldable pub allows_model : Account → Text → Bool
unfolding matches_any
allows_model a model =
    if matches_any model a.config.deny
    then false
    else matches_any model (elim a.config.allow [ [] ↦ text "*" ∷ [] | p ∷ ps ↦ p ∷ ps ])

unfoldable pub acquire : Account → Account
acquire a = record a { in_flight = a.in_flight + 1 }

-- A limiter that refuses leaves the time of the refusal.
unfoldable pub try_acquire : Account → ℕ → Account × Bool
unfolding max_concurrency
try_acquire a now =
    if not a.enabled || ltb now a.cooldown || leb (max_concurrency a) a.in_flight
    then (a, false)
    else (let (b, ok) = Bucket.consume a.rate_limiter now in
        if ok
        then (record a { rate_limiter = b; in_flight = a.in_flight + 1 }, true)
        else (record a { rate_limiter = b; last_rate_limited_at = now }, false))

unfoldable pub release : Account → Account
release a = if ltb 0 a.in_flight then record a { in_flight = a.in_flight - 1 } else a

unfoldable pub record_request : Bool → Bool → ℕ → Account → Account
record_request failed is_429 now a = record a {
  recent_requests =
      trim_recent_requests now
        (a.recent_requests ++ record { at = now; failed = failed; is_429 = is_429 } ∷ []);
}

unfoldable pub record_success : Account → ℕ → Account
unfolding record_request
record_success a now = record_request false false now (record a { failures = 0; last_error = [] })

-- The back-off in seconds: 30 for each failure in a row, 120 if it was a rate limit, 300 at most.
unfoldable pub backoff : ℕ → Bool → ℕ
backoff failures rate_limited = min (failures * (if rate_limited then 120 else 30)) 300

unfoldable pub record_failure : Account → Text → ℕ → Account
unfolding record_request backoff
record_failure a message now =
    if is_non_retryable_client_error message
    then record_request true false now (record a { last_error = message })
    else (let limited = is_rate_limit_error message in
        let a' = record_request true limited now (record a {
          last_error = message;
          failures = a.failures + 1;
          last_rate_limited_at = if limited then now else a.last_rate_limited_at;
        }) in
        record a' { cooldown = now + backoff a'.failures limited * second })

unfoldable pub clear_error : Account → Account
clear_error a = record a { failures = 0; last_error = [] }

-- The loop of `RecentStats`: requests, failures and the time of the last 429.
unfoldable pub count_requests : List RequestRecord → ℕ × ℕ × ℕ → ℕ × ℕ × ℕ
count_requests [] s = s
count_requests (r ∷ rs) s =
    count_requests rs
      (s.0 + 1, if r.failed then s.1 + 1 else s.1, if r.is_429 && ltb s.2 r.at then r.at else s.2)

unfoldable pub recent_stats : Account → ℕ → Account × (ℕ × ℕ × ℕ)
unfolding count_requests
recent_stats a now =
    let trimmed = trim_recent_requests now a.recent_requests in
    let s = count_requests trimmed (0, 0, 0) in
    (record a { recent_requests = trimmed }, (s.0, s.1, max s.2 a.last_rate_limited_at))
