-- ===== src/Account/Slots.antt =====
-- The concurrency slots of an account: TryAcquire, Release and the tests that guard them.
use ghcp_pool_go.Base.{
  ℕ, ◌+◌, ◌≤◌, ◌<◌, ◌≡◌, refl, ◌↔◌, true, List, [], ◌∷◌, arith, if◌then◌else◌, Text,
}
use ghcp_pool_go.Bucket
use ghcp_pool_go.Bucket.Refill.{
  IsValid?, consume-IsValid, available-IsValid, retry_after-IsValid, consume-available,
  consume-available_again, available_twice,
}
use ghcp_pool_go.Account.{
  Account, acquire, is_open, max_concurrency, available, rate_retry_after, try_acquire, release,
  record_success, record_failure, record_request, clear_error, recent_stats,
}

-- No more requests in flight than the account takes, and a well-formed limiter.
pub record IsValid (a : Account) : Type 0 where
  pub within : a.in_flight ≤ max_concurrency a
  pub limiter : IsValid? a.rate_limiter

-- The methods that change an account. `takes` is Acquire, which tests nothing; `acquires` is TryAcquire.
pub data Call : Type 0 where
  checks acquires takes releases succeeds clears reads_stats asks_wait : Call
  fails : Text → Call

pub step : Account → ℕ × Call → Account
step a (now, checks) = (available a now).0
step a (now, acquires) = (try_acquire a now).0
step a (now, takes) = acquire a
step a (now, releases) = release a
step a (now, succeeds) = record_success a now
step a (now, clears) = clear_error a
step a (now, reads_stats) = (recent_stats a now).0
step a (now, asks_wait) = (rate_retry_after a now).0
step a (now, fails message) = record_failure a message now

pub run : Account → List (ℕ × Call) → Account
run a [] = a
run a (c ∷ cs) = run (step a c) cs

-- The slots that a call, and a list of calls, may take without a test.
abbrev untested : Call → ℕ
untested takes = 1
untested c = 0

abbrev pub all_untested : List (ℕ × Call) → ℕ
all_untested [] = 0
all_untested (c ∷ cs) = untested c.1 + all_untested cs

-- At most `k` requests more in flight than the account takes, and a well-formed limiter.
pub record IsWithin (k : ℕ) (a : Account) : Type 0 where
  pub within : a.in_flight ≤ max_concurrency a + k
  pub limiter : IsValid? a.rate_limiter

pub record_failure-IsValid :
    (a : Account) (message : Text) (now : ℕ)
    → IsValid a
    → IsValid (record_failure a message now) × ((record_failure a message now).config ≡ a.config)
unfolding record_failure record_request max_concurrency
record_failure-IsValid a message now v = (ground arith, ground arith)

pub available_keeps :
    (a : Account) (now : ℕ)
    → IsValid a
    → IsValid (available a now).0 × ((available a now).0.config ≡ a.config)
unfolding available max_concurrency
available_keeps a now v =
    (ground (arith, available-IsValid a.rate_limiter now v.limiter), ground arith)

pub try_acquire_keeps :
    (a : Account) (now : ℕ)
    → IsValid a
    → IsValid (try_acquire a now).0 × ((try_acquire a now).0.config ≡ a.config)
unfolding try_acquire max_concurrency
try_acquire_keeps a now v =
    (ground (arith, consume-IsValid a.rate_limiter now v.limiter), ground arith)

step-IsWithin :
    (k : ℕ) (a : Account) (c : ℕ × Call) → IsWithin k a → IsWithin (k + untested c.1) (step a c)
unfolding step max_concurrency acquire release record_success record_failure record_request
    clear_error recent_stats rate_retry_after available try_acquire
step-IsWithin k a (now, checks) v = ground (arith, available-IsValid a.rate_limiter now v.limiter)
step-IsWithin k a (now, acquires) v = ground (arith, consume-IsValid a.rate_limiter now v.limiter)
step-IsWithin k a (now, takes) v = ground arith
step-IsWithin k a (now, releases) v = ground arith
step-IsWithin k a (now, succeeds) v = ground arith
step-IsWithin k a (now, clears) v = ground arith
step-IsWithin k a (now, reads_stats) v = ground arith
step-IsWithin k a (now, asks_wait) v =
    ground (arith, retry_after-IsValid a.rate_limiter now v.limiter)
step-IsWithin k a (now, fails message) v = ground arith

run_on-IsWithin :
    (k : ℕ) (a : Account) (cs : List (ℕ × Call))
    → IsWithin k a
    → IsWithin (k + all_untested cs) (run a cs)
unfolding run
run_on-IsWithin k a [] v = record { within = omega (arith, v.within); limiter = v.limiter }
run_on-IsWithin k a (c ∷ cs) v =
    let rest = run_on-IsWithin (k + untested c.1) (step a c) cs (step-IsWithin k a c v) in
    record { within = omega (arith, rest.within); limiter = rest.limiter }

-- From a well-formed account, whatever is called in whatever order, there are never more requests in
-- flight than `max_concurrency` and one more for each call of Acquire, which tests nothing; the
-- limiter stays well formed.
pub run-IsWithin :
    (a : Account) (cs : List (ℕ × Call)) → IsValid a → IsWithin (all_untested cs) (run a cs)
run-IsWithin a cs v =
    let start : IsWithin 0 a = record { within = omega (arith, v.within); limiter = v.limiter } in
    let end = run_on-IsWithin 0 a cs start in
    record { within = omega (arith, end.within); limiter = end.limiter }

-- TryAcquire takes a slot exactly where the account is enabled, past its cool-down, below its
-- limit of concurrent requests, and its limiter has a token.
pub try_acquire_iff :
    (a : Account) (now : ℕ)
    → ((try_acquire a now).1 ≡ true) ↔ (
        (a.enabled ≡ true)
        × (a.cooldown ≤ now)
        × (a.in_flight < max_concurrency a)
        × ((Bucket.available a.rate_limiter now).1 ≡ true))
unfolding try_acquire
try_acquire_iff a now = ground (arith, consume-available a.rate_limiter now)

-- A slot that is taken is one more request in flight; a refusal leaves the count.
pub in_flight-try_acquire :
    (a : Account) (now : ℕ)
    → (try_acquire a now).0.in_flight ≡ a.in_flight + (if (try_acquire a now).1 then 1 else 0)
unfolding try_acquire
in_flight-try_acquire a now = ground arith

-- The release of a slot that was taken leaves the count of requests in flight as it was before.
pub release-try_acquire :
    (a : Account) (now : ℕ)
    → (try_acquire a now).1 ≡ true
    → (release (try_acquire a now).0).in_flight ≡ a.in_flight
unfolding release
release-try_acquire a now h = ground (arith, in_flight-try_acquire a now)

-- What Available promises, TryAcquire keeps, as long as nothing comes between them.
pub try_acquire-available :
    (a : Account) (now : ℕ)
    → IsValid a
    → (available a now).1 ≡ true
    → (try_acquire (available a now).0 now).1 ≡ true
unfolding try_acquire available is_open
try_acquire-available a now v h =
    ground (arith, consume-available_again a.rate_limiter now v.limiter)

pub available_account :
    (a : Account) (now : ℕ)
    → ((available a now).0.in_flight ≡ a.in_flight) × ((available a now).0.config ≡ a.config)
unfolding available
available_account a now = (ground arith, ground arith)

-- Asking twice at one time gives one answer.
pub available_again :
    (a : Account) (now : ℕ)
    → IsValid a
    → (available (available a now).0 now).1 ≡ (available a now).1
unfolding available is_open max_concurrency
available_again a now v = ground (arith, available_twice a.rate_limiter now v.limiter)

-- Reading the statistics leaves what the guards look at.
pub recent_stats_keeps :
    (a : Account) (now later : ℕ)
    → IsValid a
    → IsValid (recent_stats a now).0
      × ((recent_stats a now).0.config ≡ a.config)
      × ((recent_stats a now).0.in_flight ≡ a.in_flight)
      × ((available (recent_stats a now).0 later).1 ≡ (available a later).1)
unfolding recent_stats available is_open max_concurrency
recent_stats_keeps a now later v =
    (record { within = v.within; limiter = v.limiter }, refl, refl, ground arith)
