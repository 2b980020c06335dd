-- ===== src/Bucket/Retry.antt =====
-- When RetryAfter asks for a wait.
use ghcp_pool_go.Base.{
  round64, divide, round64-pos, divide-pos, ceiling-pos, round64_token-lt, ℕ, ◌-◌, ◌<◌, ◌≡◌, ◌↔◌,
  true, some, arith,
}
use ghcp_pool_go.Bucket.{Bucket, token, missing, rate, wait, refill, available, retry_after}
use ghcp_pool_go.Bucket.Refill.{IsValid, refill-IsValid}

missing-pos : (b : Bucket) → b.tokens < token → (0 < (missing b).num) × (0 < (missing b).den)
unfolding missing
missing-pos b h =
    let level = round64_token-lt b.tokens h in
    round64-pos ((round64 b.tokens token).den - (round64 b.tokens token).num)
      (round64 b.tokens token).den (omega (arith, level.0)) level.1

wait-pos : (b : Bucket) → IsValid b → b.tokens < token → 0 < wait b
unfolding wait rate
wait-pos b v h =
    let m = missing-pos b h in
    let r = round64-pos b.rpm 60 (omega (arith, v.limited)) (omega arith) in
    let q = divide-pos (missing b) (rate b) m.0 m.1 r.0 r.1 in
    ceiling-pos (divide (missing b) (rate b)) q.0 q.1

-- For a well-formed bucket RetryAfter is zero exactly where Available says that a token is there.
pub retry_after-zero_iff :
    (b : Bucket) (now : ℕ)
    → IsValid b
    → ((retry_after (some b) now).1 ≡ 0) ↔ ((available (some b) now).1 ≡ true)
unfolding retry_after available
retry_after-zero_iff b now v = ground (arith, wait-pos (refill b now) (refill-IsValid b now v))
