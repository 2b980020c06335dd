-- ===== src/Bucket/Grants.antt =====
-- The rate limit as a whole: how many requests a bucket lets through.
use ghcp_pool_go.Base.{
  ℕ, ◌+◌, ◌-◌, ◌*◌, ◌≤◌, ◌≡◌, Bool, Option, some, List, [], ◌∷◌, arith, if◌then◌else◌, Bool-cases,
  inl, inr, leb,
}
use ghcp_pool_go.Bucket.{Bucket, token, refill, consume}
use ghcp_pool_go.Bucket.Refill.{
  updated_at-refill, IsValid, rpm-refill, tokens-refill-le, refill-IsValid,
}

-- The calls of `Consume` at the given times: the last bucket, and how many succeeded.
unfoldable pub grants : Option Bucket → List ℕ → ℕ
grants b [] = 0
grants b (now ∷ times) = let r = consume b now in (if r.1 then 1 else 0) + grants r.0 times

-- The times do not fall, starting from `t`, and end by `end`.
abbrev pub Within : ℕ → ℕ → List ℕ → Type 0
Within t end [] = t ≤ end
Within t end (now ∷ times) = (t ≤ now) × Within now end times

split_elapsed : (r a b c : ℕ) → a ≤ b → b ≤ c → (b - a) * r + (c - b) * r ≡ (c - a) * r
split_elapsed r a b c h k = grind arith

abbrev count : Bool → ℕ
count ok = if ok then 1 else 0

-- One call of `Consume` pays for what it grants out of what was there and what has come in.
consume_pays :
    (b : Bucket) (now : ℕ)
    → IsValid b
    → (b' : Bucket) × ((consume (some b) now).0 ≡ some b')
      × IsValid b'
      × (b'.rpm ≡ b.rpm)
      × (b'.updated_at ≡ now)
      × (b'.tokens + count (consume (some b) now).1 * token
          ≤ b.tokens + (now - b.updated_at) * b.rpm)
unfolding consume
consume_pays b now v = elim (Bool-cases (leb token (refill b now).tokens)) [
  | inl t ↦ (
    record (refill b now) { tokens = (refill b now).tokens - token },
    ground arith,
    ground (arith, refill-IsValid b now v),
    rpm-refill b now,
    updated_at-refill b now v,
    ground (arith, tokens-refill-le b now),
  )
  | inr f ↦ (
    refill b now,
    ground arith,
    refill-IsValid b now v,
    rpm-refill b now,
    updated_at-refill b now v,
    ground (arith, tokens-refill-le b now),
  )
]

Within-le : (t end : ℕ) (times : List ℕ) → Within t end times → t ≤ end
Within-le t end [] w = w
Within-le t end (now ∷ times) w = omega (arith, Within-le now end times w.1)

-- For calls of Consume at times that do not fall, a well-formed bucket lets at most the stored
-- tokens through, and `rpm` more for each minute that passes.
pub grants-bound :
    (b : Bucket) (t end : ℕ) (times : List ℕ)
    → IsValid b
    → b.updated_at ≤ t
    → Within t end times
    → grants (some b) times * token ≤ b.tokens + (end - b.updated_at) * b.rpm
unfolding grants
grants-bound b t end [] v h w = omega arith
grants-bound b t end (now ∷ times) v h w =
    let (b', e, v', r, u, paid) = consume_pays b now v in
    let ih = grants-bound b' now end times v' (omega arith) w.1 in
    let rest = rw (u, r) at ih in
    rw e (
      omega (
        arith,
        split_elapsed b.rpm b.updated_at now end (omega arith) (Within-le now end times w.1),
      ))
