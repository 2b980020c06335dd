-- ===== src/Bucket/Refill.antt =====
-- Well-formed buckets, and what a refill does to them.
use ghcp_pool_go.Base.{
  ℕ, ◌+◌, ◌-◌, ◌*◌, ◌≤◌, ◌<◌, ◌≡◌, refl, false, Option, none, some, arith, ℤ, pos, negsuc,
}
use ghcp_pool_go.Bucket.{Bucket, token, new_bucket, refill, available, consume, retry_after}

-- The limit is positive and the bucket never holds more than one minute's tokens.
pub record IsValid (b : Bucket) : Type 0 where
  pub limited : 0 < b.rpm
  pub bounded : b.tokens ≤ b.rpm * token

abbrev pub IsValid? : Option Bucket → Type 0
IsValid? none = Unit
IsValid? (some b) = IsValid b

pub new_bucket-IsValid : (rpm : ℤ) (now : ℕ) → IsValid? (new_bucket rpm now)
unfolding new_bucket
new_bucket-IsValid (pos n) now = ground arith
new_bucket-IsValid (negsuc n) now = tt

pub refill-IsValid : (b : Bucket) (now : ℕ) → IsValid b → IsValid (refill b now)
unfolding refill
refill-IsValid b now v = ground arith

pub rpm-refill : (b : Bucket) (now : ℕ) → (refill b now).rpm ≡ b.rpm
unfolding refill
rpm-refill b now = ground arith

pub updated_at-refill : (b : Bucket) (now : ℕ) → IsValid b → (refill b now).updated_at ≡ now
unfolding refill
updated_at-refill b now v = ground arith

pub refill_mono : (b : Bucket) (now : ℕ) → IsValid b → b.tokens ≤ (refill b now).tokens
unfolding refill
refill_mono b now v = ground arith

-- A refill adds at most the tokens of the time that has passed.
pub tokens-refill-le :
    (b : Bucket) (now : ℕ) → (refill b now).tokens ≤ b.tokens + (now - b.updated_at) * b.rpm
unfolding refill
tokens-refill-le b now = ground arith

-- Refilling twice at one time is refilling once.
pub refill_idem : (b : Bucket) (now : ℕ) → IsValid b → refill (refill b now) now ≡ refill b now
unfolding refill
refill_idem b now v = ground arith

-- Every operation keeps a bucket well formed, and its limit.
pub consume-IsValid : (b : Option Bucket) (now : ℕ) → IsValid? b → IsValid? (consume b now).0
unfolding consume
consume-IsValid none now v = tt
consume-IsValid (some b) now v = ground (arith, refill-IsValid b now v)

pub available-IsValid : (b : Option Bucket) (now : ℕ) → IsValid? b → IsValid? (available b now).0
unfolding available
available-IsValid none now v = tt
available-IsValid (some b) now v = refill-IsValid b now v

pub retry_after-IsValid :
    (b : Option Bucket) (now : ℕ) → IsValid? b → IsValid? (retry_after b now).0
unfolding retry_after
retry_after-IsValid none now v = tt
retry_after-IsValid (some b) now v = ground (arith, refill-IsValid b now v)

-- `Consume` succeeds exactly where `Available` says so.
pub consume-available : (b : Option Bucket) (now : ℕ) → (consume b now).1 ≡ (available b now).1
unfolding consume available
consume-available none now = refl
consume-available (some b) now = ground arith

pub consume-available_again :
    (b : Option Bucket) (now : ℕ)
    → IsValid? b
    → (consume (available b now).0 now).1 ≡ (available b now).1
unfolding consume available
consume-available_again none now v = refl
consume-available_again (some b) now v = ground (arith, refill_idem b now v)

pub available_twice :
    (b : Option Bucket) (now : ℕ)
    → IsValid? b
    → (available (available b now).0 now).1 ≡ (available b now).1
unfolding available
available_twice none now v = refl
available_twice (some b) now v = rw (refill_idem b now v) refl

-- Asking how long to wait leaves whether there is a token.
pub available-retry_after :
    (b : Option Bucket) (now : ℕ)
    → IsValid? b
    → (available (retry_after b now).0 now).1 ≡ (available b now).1
unfolding available retry_after
available-retry_after none now v = refl
available-retry_after (some b) now v = ground (arith, refill_idem b now v)

-- A refused `Consume` leaves whether there is a token.
pub available-consume :
    (b : Option Bucket) (now : ℕ)
    → IsValid? b
    → (consume b now).1 ≡ false
    → (available (consume b now).0 now).1 ≡ (available b now).1
unfolding available consume
available-consume none now v h = refl
available-consume (some b) now v h = ground (arith, refill_idem b now v)
