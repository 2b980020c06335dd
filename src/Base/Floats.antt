-- ===== src/Base/Floats.antt =====
-- The float64 of Go, for numbers that are not negative and in the range of the normal ones: a quotient
-- of naturals whose value has a mantissa of 53 bits.
use Prim.Native.Nat.{ℕ, zero, suc, ◌+◌, ◌-◌, ◌*◌, ◌/◌, ◌%◌, ◌^◌, ◌≤◌, ◌<◌, max}
use mathlib.Core.Path.{◌≡◌}
use mathlib.Core.Logic.{◌⊎◌, inl, inr}
use mathlib.Core.Bool.{Bool, true, false, ◌&&◌, ◌||◌}
use native.Mathlib.Omega.{arith}
use ghcp_pool_go.Base.Tests.{if◌then◌else◌, ltb, ◌==◌, Bool-cases, not-ltb→le}

pub record Float : Type 0 where
  pub num : ℕ
  pub den : ℕ

-- The greatest power of two that is at most the number, by halving; as many rounds as the number are
-- enough.
unfoldable top_from : ℕ → ℕ → ℕ
top_from zero n = 1
top_from (suc fuel) n = elim (ltb n 2) [ true ↦ 1 | false ↦ 2 * top_from fuel (n / 2) ]

abbrev top : ℕ → ℕ
top n = top_from n n

-- The quotient `p / q` rounded to the nearest number with 53 binary digits, to the even one of two.
abbrev nearest : ℕ → ℕ → ℕ
nearest n d =
    let m = n / d in
    let r = n % d in if ltb d (2 * r) || (d == 2 * r && m % 2 == 1) then m + 1 else m

-- A denominator so great that the quotient over it has 53 digits at least before the point.
abbrev scale : ℕ → ℕ
scale q = 2 * top q * 2 ^ 53

-- The value of the last of the 53 digits of a whole number.
abbrev last_digit : ℕ → ℕ
last_digit n = max 1 (top n / 2 ^ 52)

abbrev rounded : ℕ → ℕ → ℕ → ℕ
rounded n q u = nearest n (q * u) * u

unfoldable pub round64 : ℕ → ℕ → Float
unfolding top_from
round64 p q = record { num = rounded (p * scale q) q (last_digit (p * scale q / q)); den = scale q }

abbrev pub divide : Float → Float → Float
divide x y = round64 (x.num * y.den) (x.den * y.num)

abbrev pub ceiling : Float → ℕ
ceiling x = (x.num + (x.den - 1)) / x.den

top_bounds : (fuel n : ℕ) → n ≤ fuel → 0 < n → (top_from fuel n ≤ n) × (n < 2 * top_from fuel n)
unfolding top_from
top_bounds zero n h p = absurd (omega (arith, h, p))
top_bounds (suc fuel) n h p = elim (Bool-cases (ltb n 2)) [
  | inl y ↦ rw (top_from, y) (ground arith)
  | inr f ↦
      let low : 2 ≤ n = not-ltb→le n 2 f in
      let half = top_bounds fuel (n / 2) (omega (arith, h, low)) (omega (arith, low)) in
      rw (top_from, f) (omega (arith, half.0, half.1), omega (arith, half.0, half.1))
]

product_pos : (a b : ℕ) → 0 < a → 0 < b → 0 < a * b
product_pos a b h k = grind arith

div_pos : (n d : ℕ) → 0 < d → d ≤ n → 0 < n / d
div_pos n d h k = grind arith

times_div_le : (n d : ℕ) → 0 < d → d * (n / d) ≤ n
times_div_le n d h = grind arith

times_mono : (q a b : ℕ) → a ≤ b → q * a ≤ q * b
times_mono q a b h = grind arith

nearest-pos : (n d : ℕ) → 0 < d → d ≤ n → 0 < nearest n d
nearest-pos n d h k = let m = div_pos n d h k in ground (arith, m)

last_digit-le : (n : ℕ) → 0 < n → (0 < last_digit n) × (last_digit n ≤ n)
last_digit-le n h = let t = top_bounds n n (omega arith) h in (omega arith, omega (arith, t.0))

-- A positive quotient stays positive.
pub round64-pos : (p q : ℕ) → 0 < p → 0 < q → (0 < (round64 p q).num) × (0 < (round64 p q).den)
unfolding round64
round64-pos p q hp hq =
    let t = top_bounds q q (omega arith) hq in
    let n : ℕ = p * scale q in
    let big : scale q ≤ n = grows p (scale q) hp in
    let over : q ≤ n = omega (arith, big, t.1) in
    let u = last_digit-le (n / q) (div_pos n q hq over) in
    let fits : q * last_digit (n / q) ≤ n =
      below (times_mono q (last_digit (n / q)) (n / q) u.1) (times_div_le n q hq) in
    (
      product_pos (nearest n (q * last_digit (n / q))) (last_digit (n / q))
          (nearest-pos n (q * last_digit (n / q)) (product_pos q (last_digit (n / q)) hq u.0) fits)
          u.0,
      omega (arith, t.1, hq),
    )
  where
    grows : (p s : ℕ) → 0 < p → s ≤ p * s
    grows p s h = grind arith

    below : {a b c : ℕ} → a ≤ b → b ≤ c → a ≤ c
    below h k = omega (arith, h, k)

pub ceiling-pos : (x : Float) → 0 < x.num → 0 < x.den → 0 < ceiling x
ceiling-pos x h k = div_pos (x.num + (x.den - 1)) x.den k (omega (arith, h))

pub divide-pos :
    (x y : Float)
    → 0 < x.num
    → 0 < x.den
    → 0 < y.num
    → 0 < y.den
    → (0 < (divide x y).num) × (0 < (divide x y).den)
divide-pos x y a b c d =
    round64-pos (x.num * y.den) (x.den * y.num) (product_pos x.num y.den a d)
      (product_pos x.den y.num b c)

-- The nearest multiple is at most half a step too great.
nearest_le : (n d : ℕ) → 0 < d → 2 * (nearest n d * d) ≤ 2 * n + d
nearest_le n d h = elim (Bool-cases (ltb d (2 * (n % d)) || (d == 2 * (n % d) && n / d % 2 == 1))) [
  | inl up ↦
      rw up (omega (arith, half (n % d) (n / d % 2 == 1) up, parts n d h, one_more (n / d) d))
  | inr down ↦ rw down (omega (arith, parts n d h))
]
  where
    parts : (n d : ℕ) → 0 < d → n / d * d + n % d ≡ n
    parts n d h = grind arith

    one_more : (m d : ℕ) → (m + 1) * d ≡ m * d + d
    one_more m d = grind arith

    half : (r : ℕ) (odd : Bool) → (ltb d (2 * r) || (d == 2 * r && odd)) ≡ true → d ≤ 2 * r
    half r odd e = ground arith

last_digit_small : (n : ℕ) → 0 < n → (last_digit n ≡ 1) ⊎ (last_digit n * 2 ^ 52 ≤ n)
last_digit_small n h = let t = top_bounds n n (omega arith) h in by_size (top n) t.0
  where
    by_size : (t : ℕ) → t ≤ n → (max 1 (t / 2 ^ 52) ≡ 1) ⊎ (max 1 (t / 2 ^ 52) * 2 ^ 52 ≤ n)
    by_size t l = elim (Bool-cases (ltb (t / 2 ^ 52) 2)) [
      | inl y ↦ inl (ground arith)
      | inr f ↦ let low = not-ltb→le (t / 2 ^ 52) 2 f in inr (omega (arith, low, l))
    ]

-- The scale of 60 * 10^9.
abbrev token_scale : ℕ
token_scale = 618970019642690137449562112

below_one :
    (p u m : ℕ)
    → p < 60000000000
    → 2 * (m * (60000000000 * u)) ≤ 2 * (p * token_scale) + 60000000000 * u
    → (u ≡ 1) ⊎ (u * 2 ^ 52 ≤ p * token_scale / 60000000000)
    → m * u < token_scale
below_one p u m hp hm (inl one) = omega (arith, hp, hm, one, assoc m u)
  where
    assoc : (m u : ℕ) → m * (60000000000 * u) ≡ 60000000000 * (m * u)
    assoc m u = grind arith
below_one p u m hp hm (inr small) = omega (arith, hp, hm, small, assoc m u)
  where
    assoc : (m u : ℕ) → m * (60000000000 * u) ≡ 60000000000 * (m * u)
    assoc m u = grind arith

-- A quotient below 1 of this denominator stays below 1.
pub round64_token-lt :
    (p : ℕ)
    → p < 60000000000
    → ((round64 p 60000000000).num < (round64 p 60000000000).den)
      × (0 < (round64 p 60000000000).den)
unfolding round64
round64_token-lt zero h = (omega arith, omega arith)
round64_token-lt (suc k) h =
    let n : ℕ = suc k * token_scale in
    let q : ℕ = n / 60000000000 in
    let q_pos : 0 < q = omega arith in
    let u_pos : 0 < last_digit q = (last_digit-le q q_pos).0 in
    (
      below_one (suc k) (last_digit q) (nearest n (60000000000 * last_digit q)) h
          (nearest_le n (60000000000 * last_digit q) (omega (arith, u_pos)))
          (last_digit_small q q_pos),
      omega arith,
    )
