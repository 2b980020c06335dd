-- ===== src/Router/Pick.antt =====
-- internal/gateway/routing.go: pick, with smartPenalty and minBy. The source divides by Weight and
-- counts seconds in float64; here the fractions are compared exactly and the penalty is in
-- nanoseconds.
use ghcp_pool_go.Account
use ghcp_pool_go.Account.{Account}
use ghcp_pool_go.Base.{
  ℕ, ◌+◌, ◌-◌, ◌*◌, ◌%◌, ◌^◌, Bool, ◌||◌, Option, none, some, List, [], ◌∷◌, if◌then◌else◌, Text,
  text, text_eq, sort_by, ltb, ◌==◌, length, get_elem?,
}
use ghcp_pool_go.Bucket.{second}
use ghcp_pool_go.Pool.{Pool, get, update_account}
use ghcp_pool_go.Router.Routes.{Router}

-- The account behind an id that came from the pool; `f` of a missing one is 0, its weight 1.
abbrev pub measure : Pool → (Account → ℕ) → Text → ℕ
measure p f id = elim (get p id) [ none ↦ 0 | some a ↦ f a ]

abbrev pub weight_of : Pool → Text → ℕ
weight_of p id = elim (get p id) [ none ↦ 1 | some a ↦ Account.weight a ]

unfoldable pub min_by {ℓ} : {A : Type ℓ} → (A → A → Bool) → A → List A → A
min_by less best [] = best
min_by less best (x ∷ xs) = min_by less (if less x best then x else best) xs

-- `float64(a.InFlight) / float64(a.Weight())`, compared across the denominators.
abbrev pub lighter : Pool → Text → Text → Bool
lighter p a b =
    ltb (measure p (λ x. x.in_flight) a * weight_of p b)
      (measure p (λ x. x.in_flight) b * weight_of p a)

abbrev pub less_busy : Pool → Text → Text → Bool
less_busy p a b = ltb (measure p (λ x. x.in_flight) a) (measure p (λ x. x.in_flight) b)

-- In nanoseconds: a second for each request, five for each failure, ten for each request in
-- flight, and three for each second of the five minutes after a rate limit that are left.
unfoldable pub smart_penalty : Account → ℕ → ℕ
smart_penalty a now =
    let (requests, failures, last) = (Account.recent_stats a now).1 in
    (requests + failures * 5 + a.in_flight * 10) * second
    + (if last == 0 then 0 else (300 * second + last - now) * 3)

abbrev pub smarter : Pool → ℕ → Text → Text → Bool
smarter p now a b =
    let pa = measure p (λ x. smart_penalty x now) a in
    let pb = measure p (λ x. smart_penalty x now) b in
    let fa = measure p (λ x. x.failures) a in
    let fb = measure p (λ x. x.failures) b in
    if pa == pb then (if fa == fb then less_busy p a b else ltb fa fb) else ltb pa pb

-- The comparison trims the window of each account that it looks at; a list of one is not compared.
unfoldable pub trim_compared : ℕ → List Text → Pool → Pool
unfolding update_account
trim_compared now [] p = p
trim_compared now (id ∷ ids) p =
    trim_compared now ids (update_account id (λ a. (Account.recent_stats a now).0) p)

-- What `pick` leaves: the router, the slice (which sort.Slice reorders) and the choice.
pub record Choice : Type 0 where
  pub router : Router
  pub order : List Text
  pub picked : Text

-- `n := rr + 1` wraps at 2^64.
abbrev pub add_one : ℕ → ℕ
add_one rr = (rr + 1) % 2 ^ 64

-- `accounts[int(n-1) % len(accounts)]`: from 2^63 on the index is negative, a panic.
unfoldable pub at_counter : ℕ → List Text → Option Text
at_counter n ids =
    let before = (n + (2 ^ 64 - 1)) % 2 ^ 64 in
    if ltb before (2 ^ 63) then get_elem? ids (before % length ids) else none

unfoldable pub round_robin : Router → List Text → Option Choice
unfolding at_counter
round_robin r ids = elim (at_counter (add_one r.rr) ids) [
  | none ↦ none
  | some id ↦ some (record { router = record r { rr = add_one r.rr }; order = ids; picked = id })
]

unfoldable pub first_of_sorted : Router → List Text → Option Choice
first_of_sorted r [] = none
first_of_sorted r (id ∷ ids) = some (record { router = r; order = id ∷ ids; picked = id })

unfoldable pub pick_smart : Router → List Text → ℕ → Option Choice
unfolding trim_compared first_of_sorted
pick_smart r ids now =
    let r' = record r {
      pool = if ltb 1 (length ids) then trim_compared now ids r.pool else r.pool;
    } in
    first_of_sorted r' (sort_by (smarter r.pool now) ids)

unfoldable pub pick_min : (Text → Text → Bool) → Router → List Text → Option Choice
unfolding min_by
pick_min less r [] = none
pick_min less r (id ∷ ids) =
    some (record { router = r; order = id ∷ ids; picked = min_by less id ids })

-- `none` is a panic: a slice index out of range.
unfoldable pub pick : Router → List Text → Text → ℕ → Option Choice
unfolding round_robin pick_smart pick_min text
pick r ids strategy now =
    if text_eq strategy (text "round_robin")
    then round_robin r ids
    else if text_eq strategy (text "weighted")
    then pick_min (lighter r.pool) r ids
    else if text_eq strategy (text "quota_aware") || text_eq strategy (text "smart")
    then pick_smart r ids now
    else pick_min (less_busy r.pool) r ids
