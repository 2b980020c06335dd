-- ===== src/Account/Health.antt =====
-- Failures, back-off and the window of recent requests: RecordSuccess, RecordFailure, RecentStats.
use ghcp_pool_go.Base.{
  ℕ, ◌+◌, ◌-◌, ◌*◌, ◌≤◌, ◌<◌, ◌≡◌, Bool, true, false, ◌&&◌, List, [], ◌∷◌, ◌++◌, arith, leb, ltb,
  keep, length, All, if◌then◌else◌, Text,
}
use native.Mathlib.Nat.{le_trans}
use ghcp_pool_go.Bucket.{second}
use ghcp_pool_go.Errors.{is_non_retryable_client_error}
use ghcp_pool_go.Account.{
  Account, available, try_acquire, backoff, record_failure, record_request, count_requests,
  recent_stats,
}
use ghcp_pool_go.Account.Window.{
  RequestRecord, window, trim_recent_requests, Sorted, trim_recent_requests-keep,
}

-- A failure that is not the client's closes the account: until its cool-down has passed neither
-- Available nor TryAcquire lets a request through. The cool-down is 30 seconds to five minutes.
pub record_failure_closes :
    (a : Account) (message : Text) (now later : ℕ)
    → is_non_retryable_client_error message ≡ false
    → let b = record_failure a message now in
      (b.cooldown ≤ now + 300 * second)
      × (now + 30 * second ≤ b.cooldown)
      × (later ≤ b.cooldown → (available b later).1 ≡ false)
      × (later < b.cooldown → (try_acquire b later).1 ≡ false)
unfolding record_failure record_request available try_acquire
record_failure_closes a message now later h =
    (ground arith, ground arith, ground arith, ground arith)

-- An error that the client caused changes neither the count of failures in a row nor the cool-down,
-- so the account stays as open as it was; it is only noted.
pub record_failure_client :
    (a : Account) (message : Text) (now later : ℕ)
    → is_non_retryable_client_error message ≡ true
    → let b = record_failure a message now in
      (b.failures ≡ a.failures)
      × (b.cooldown ≡ a.cooldown)
      × (b.last_error ≡ message)
      × ((available b later).1 ≡ (available a later).1)
unfolding record_failure record_request available
record_failure_client a message now later h =
    (ground arith, ground arith, ground arith, ground arith)

-- A longer row of failures never waits less, nor does a rate limit.
pub backoff_mono :
    (m n : ℕ) (limited : Bool)
    → m ≤ n
    → (backoff m limited ≤ backoff n limited) × (backoff n false ≤ backoff n limited)
unfolding backoff
backoff_mono m n limited h = ground arith

abbrev AllBefore : ℕ → List RequestRecord → Type 0
AllBefore now = All (λ r. r.at ≤ now)

Sorted-snoc :
    (rs : List RequestRecord) (r : RequestRecord)
    → Sorted rs
    → AllBefore r.at rs
    → Sorted (rs ++ r ∷ [])
Sorted-snoc [] r s a = (tt, tt)
Sorted-snoc (q ∷ rs) r s a = (All-snoc rs s.0 a.0, Sorted-snoc rs r s.1 a.1)
  where
    All-snoc :
        (qs : List RequestRecord)
        → All (λ t. q.at ≤ t.at) qs
        → q.at ≤ r.at
        → All (λ t. q.at ≤ t.at) (qs ++ r ∷ [])
    All-snoc [] b le = (le, tt)
    All-snoc (t ∷ qs) b le = (b.0, All-snoc qs b.1 le)

module _ (P : RequestRecord → Type 0) (p : RequestRecord → Bool) where
  All-keep : (rs : List RequestRecord) → All P rs → All P (keep p rs)
  All-keep [] a = tt
  All-keep (r ∷ rs) a = ground (arith, All-keep rs a.1)

Sorted-keep : (p : RequestRecord → Bool) (rs : List RequestRecord) → Sorted rs → Sorted (keep p rs)
Sorted-keep p [] s = tt
Sorted-keep p (r ∷ rs) s =
    ground (arith, Sorted-keep p rs s.1, All-keep (λ t. r.at ≤ t.at) p rs s.0)

-- The window holds the requests in the order of their times, none of them in the future.
pub record IsOrdered (now : ℕ) (rs : List RequestRecord) : Type 0 where
  pub sorted : Sorted rs
  pub past : AllBefore now rs

AllBefore-mono : (m n : ℕ) (rs : List RequestRecord) → m ≤ n → AllBefore m rs → AllBefore n rs
AllBefore-mono m n [] h a = tt
AllBefore-mono m n (r ∷ rs) h a = (omega arith, AllBefore-mono m n rs h a.1)

AllBefore-snoc :
    (now : ℕ) (rs : List RequestRecord) (r : RequestRecord)
    → AllBefore now rs
    → r.at ≤ now
    → AllBefore now (rs ++ r ∷ [])
AllBefore-snoc now [] r a h = (h, tt)
AllBefore-snoc now (q ∷ rs) r a h = (a.0, AllBefore-snoc now rs r a.1 h)

-- Noting a request keeps the window in order, and keeps exactly the last hour of it with the new
-- record at its end.
pub record_request_keeps :
    (a : Account) (failed limited : Bool) (before now : ℕ)
    → before ≤ now
    → IsOrdered before a.recent_requests
    → let rs = a.recent_requests ++ record { at = now; failed = failed; is_429 = limited } ∷ [] in
      ((record_request failed limited now a).recent_requests
        ≡ keep (λ r. leb (now - window) r.at) rs)
      × IsOrdered now (record_request failed limited now a).recent_requests
unfolding record_request
record_request_keeps a failed limited before now h o = (
  trimmed,
  rw trimmed (record {
    sorted = Sorted-keep fresh rs sorted;
    past =
        All-keep (λ r. r.at ≤ now) fresh rs
          (AllBefore-snoc now a.recent_requests new past (omega arith));
  }),
)
  where
    new : RequestRecord
    new = record { at = now; failed = failed; is_429 = limited }

    rs : List RequestRecord
    rs = a.recent_requests ++ new ∷ []

    fresh : RequestRecord → Bool
    fresh r = leb (now - window) r.at

    past : AllBefore now a.recent_requests
    past = AllBefore-mono before now a.recent_requests h o.past

    sorted : Sorted rs
    sorted = Sorted-snoc a.recent_requests new o.sorted past

    trimmed : trim_recent_requests now rs ≡ keep fresh rs
    trimmed = trim_recent_requests-keep now rs sorted

abbrev failed_in : List RequestRecord → ℕ
failed_in rs = length (keep (λ r. r.failed) rs)

count_requests_counts :
    (rs : List RequestRecord) (requests failures last : ℕ)
    → let s = count_requests rs (requests, failures, last) in
      (s.0 ≡ requests + length rs)
      × (s.1 ≡ failures + failed_in rs)
      × (last ≤ s.2)
      × All (λ r. r.is_429 ≡ true → r.at ≤ s.2) rs
unfolding count_requests
count_requests_counts [] requests failures last = (omega arith, omega arith, omega arith, tt)
count_requests_counts (r ∷ rs) requests failures last =
    let (n, f, l, a) =
      count_requests_counts rs (requests + 1) (if r.failed then failures + 1 else failures)
        (if r.is_429 && ltb last r.at then r.at else last) in
    (omega arith, ground arith, ground arith, (ground arith, a))

limits_mono :
    (m n : ℕ) (rs : List RequestRecord)
    → m ≤ n
    → All (λ r. r.is_429 ≡ true → r.at ≤ m) rs
    → All (λ r. r.is_429 ≡ true → r.at ≤ n) rs
limits_mono m n [] h a = tt
limits_mono m n (r ∷ rs) h a = (λ e. le_trans (a.0 e) h, limits_mono m n rs h a.1)

-- Where the requests are in the order of their times, RecentStats counts those of the last hour and
-- those of them that failed, and names a time no earlier than any rate limit that it knows of.
pub recent_stats_counts :
    (a : Account) (now : ℕ)
    → Sorted a.recent_requests
    → let (b, (requests, failures, last)) = recent_stats a now in
      (b.recent_requests ≡ keep (λ r. leb (now - window) r.at) a.recent_requests)
      × (requests ≡ length b.recent_requests)
      × (failures ≡ failed_in b.recent_requests)
      × All (λ r. r.is_429 ≡ true → r.at ≤ last) b.recent_requests
      × (a.last_rate_limited_at ≤ last)
unfolding recent_stats
recent_stats_counts a now s =
    let (n, f, l, limits) =
      count_requests_counts (trim_recent_requests now a.recent_requests) 0 0 0 in
    (
      trim_recent_requests-keep now a.recent_requests s,
      omega arith,
      omega arith,
      limits_mono _ _ (trim_recent_requests now a.recent_requests) (omega arith) limits,
      omega arith,
    )
