-- ===== src/Bucket.antt =====
-- internal/gateway/pool.go: TokenBucket. The fill level is counted in units of a token's
-- 60 * 10^9-th part: in one nanosecond a bucket of `rpm` tokens a minute gains `rpm` units. The level
-- is exact, where the source rounds it at each refill; RetryAfter computes in float64 from the nearest
-- float64 of the level. A nil bucket is `none`, and stands for no limit. The clock is an argument, in
-- nanoseconds.
pub mod Refill
pub mod Grants
pub mod Retry
use ghcp_pool_go.Base.{
  ℕ, ◌+◌, ◌-◌, ◌*◌, ◌/◌, Bool, true, false, Option, none, some, leb, ◌==◌, if◌then◌else◌, min, ℤ,
  Float, round64, divide, ceiling, pos, negsuc,
}

abbrev pub second : ℕ
second = 1000000000

-- One token.
abbrev pub token : ℕ
token = 60000000000

pub record Bucket : Type 0 where
  pub rpm : ℕ
  pub tokens : ℕ
  pub updated_at : ℕ

-- NewTokenBucket: a limit that is not positive is no limit; a new bucket is full.
unfoldable pub new_bucket : ℤ → ℕ → Option Bucket
new_bucket (pos rpm) now =
    if rpm == 0 then none else some (record { rpm = rpm; tokens = rpm * token; updated_at = now })
new_bucket (negsuc n) now = none

-- A clock that went back counts as no time elapsed, as `-` on ℕ does.
unfoldable pub refill : Bucket → ℕ → Bucket
refill b now = if b.rpm == 0 then b else record b {
  tokens = min (b.rpm * token) (b.tokens + (now - b.updated_at) * b.rpm);
  updated_at = now;
}

unfoldable pub available : Option Bucket → ℕ → Option Bucket × Bool
available none now = (none, true)
available (some b) now = let b' = refill b now in (some b', leb token b'.tokens)

unfoldable pub consume : Option Bucket → ℕ → Option Bucket × Bool
consume none now = (none, true)
consume (some b) now =
    let b' = refill b now in
    if leb token b'.tokens
    then (some (record b' { tokens = b'.tokens - token }), true)
    else (some b', false)

-- `1 - b.tokens`
unfoldable pub missing : Bucket → Float
unfolding round64
missing b = let level = round64 b.tokens token in round64 (level.den - level.num) level.den

-- `float64(b.RPM) / 60.0`
unfoldable pub rate : Bucket → Float
unfolding round64
rate b = round64 b.rpm 60

-- math.Ceil of their quotient, in seconds.
unfoldable pub wait : Bucket → ℕ
unfolding missing rate round64
wait b = ceiling (divide (missing b) (rate b))

unfoldable pub retry_after : Option Bucket → ℕ → Option Bucket × ℕ
unfolding wait
retry_after none now = (none, 0)
retry_after (some b) now =
    if b.rpm == 0
    then (some b, 0)
    else let b' = refill b now in (some b', if leb token b'.tokens then 0 else wait b')
