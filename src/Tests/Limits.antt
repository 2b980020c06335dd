-- ===== src/Tests/Limits.antt =====
-- Examples of the token bucket, the account's slots and its failures.
use ghcp_pool_go.Account
use ghcp_pool_go.Account.{Account}
use ghcp_pool_go.Account.Slots
use ghcp_pool_go.Account.Slots.{run}
use ghcp_pool_go.Account.Health
use ghcp_pool_go.Account.Window
use ghcp_pool_go.Account.Window.{RequestRecord, Sorted}
use ghcp_pool_go.Base.{
  ◌↔◌, ℕ, ◌+◌, ◌-◌, ◌*◌, ◌≤◌, ◌<◌, ◌≡◌, refl, true, false, some, List, [], ◌∷◌, arith, Text,
}
use ghcp_pool_go.Bucket
use ghcp_pool_go.Bucket.Retry
use ghcp_pool_go.Bucket.{Bucket, second, token}
use ghcp_pool_go.Bucket.Grants
use ghcp_pool_go.Bucket.Refill
use ghcp_pool_go.Errors.{is_non_retryable_client_error}
use ghcp_pool_go.Tests.{account, bucket, empty_bucket}

pub bucket-IsValid : Refill.IsValid bucket
bucket-IsValid = record { limited = omega arith; bounded = omega arith }

empty_bucket-IsValid : Refill.IsValid empty_bucket
empty_bucket-IsValid = record { limited = omega arith; bounded = omega arith }

account-IsValid : Slots.IsValid account
unfolding Account.max_concurrency
account-IsValid = record { within = omega arith; limiter = bucket-IsValid }

abbrev times : List ℕ
times = 0 ∷ 0 ∷ second ∷ []

two_of_three : Grants.grants (some bucket) times ≡ 2
unfolding Grants.grants Bucket.consume Bucket.refill
two_of_three = refl

grants-bound_example :
    Grants.grants (some bucket) times * token
    ≤ bucket.tokens + (second - bucket.updated_at) * bucket.rpm
grants-bound_example =
    Grants.grants-bound bucket 0 second times bucket-IsValid (omega arith)
      (omega arith, (omega arith, (omega arith, omega arith)))

retry_after-zero_iff_example :
    ((Bucket.retry_after (some empty_bucket) second).1 ≡ 0)
    ↔ ((Bucket.available (some empty_bucket) second).1 ≡ true)
retry_after-zero_iff_example = Retry.retry_after-zero_iff empty_bucket second empty_bucket-IsValid

-- With a third of a token left at 20 a minute, float64 makes three seconds of the two that are missing.
rounds_up :
    (Bucket.retry_after (some (record { rpm = 20; tokens = 0; updated_at = 0 })) second).1 ≡ 3
unfolding Bucket.retry_after Bucket.refill
rounds_up = refl

abbrev calls : List (ℕ × Slots.Call)
calls =
    (0, Slots.acquires)
    ∷ (1, Slots.acquires)
    ∷ (1, Slots.takes)
    ∷ (2, Slots.releases)
    ∷ (3, Slots.succeeds)
    ∷ []

run-IsWithin_example : Slots.IsWithin 1 (run account calls)
run-IsWithin_example = Slots.run-IsWithin account calls account-IsValid

abbrev timeout : Text
timeout = b'e' ∷ b'o' ∷ b'f' ∷ []

upstream : is_non_retryable_client_error timeout ≡ false
unfolding is_non_retryable_client_error
upstream = refl

record_failure_closes_example :
    let b = Account.record_failure account timeout 10 in
    (b.cooldown ≤ 10 + 300 * second)
    × (10 + 30 * second ≤ b.cooldown)
    × (11 ≤ b.cooldown → (Account.available b 11).1 ≡ false)
    × (11 < b.cooldown → (Account.try_acquire b 11).1 ≡ false)
record_failure_closes_example = Health.record_failure_closes account timeout 10 11 upstream

abbrev refused : Text
refused = b'b' ∷ b'a' ∷ b'd' ∷ b' ' ∷ b'r' ∷ b'e' ∷ b'q' ∷ b'u' ∷ b'e' ∷ b's' ∷ b't' ∷ []

client : is_non_retryable_client_error refused ≡ true
unfolding is_non_retryable_client_error
client = refl

abbrev requests : List RequestRecord
requests =
    record { at = 5; failed = false; is_429 = false }
    ∷ record { at = 2 * Window.window; failed = true; is_429 = true }
    ∷ []

requests-Sorted : Sorted requests
requests-Sorted = ((omega arith, tt), (tt, tt))

abbrev busy : Account
busy = record account { recent_requests = requests }
