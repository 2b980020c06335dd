-- ===== src/Router/Ranked.antt =====
-- internal/gateway/routing.go: the route that matchingRoute finds has the greatest rank.
use ghcp_pool_go.Base.{
  ℕ, ◌+◌, ◌*◌, ◌^◌, ◌≤◌, ℤ, pos, negsuc, pos_part, neg_part, ap, ◌∙◌, eq_of_parts, ◌%◌, +ℤ_parts,
  ◌+ℤ◌, byte_length, ◌≡◌, refl, sym, ◌⊎◌, true, false, some, List, [], ◌∷◌, arith, keep, In,
  In-keep, keep-In, Text, ltb_ℤ, IsWeakOrder, sort_by, sort_by-In, sort_by-least, subst, Bool-cases,
  inl, inr, ◌<◌,
}
use ghcp_pool_go.Config.{RouteConfig}
use ghcp_pool_go.Glob.{glob_match}
use ghcp_pool_go.Router.{
  Router, specificity, times_10000, wrap_int64, rank, ranks_before, matching_route,
}

ranks_before-IsWeakOrder : IsWeakOrder ranks_before
ranks_before-IsWeakOrder = record {
  asym = λ a b h. ground arith;
  cotrans = λ a b c h k. ground arith;
}

pub List-cases :
    {A : Type 0} (xs : List A) → (xs ≡ []) ⊎ ((x : A) × (rest : List A) × (xs ≡ x ∷ rest))
List-cases [] = inl refl
List-cases (x ∷ xs) = inr (x, xs, refl)

abbrev pub matched : Router → Text → List RouteConfig
matched r model = keep (λ route. glob_match route.model model) r.routes

-- No matching route has a higher rank than the one that applies.
matching_route_ranked :
    (r : Router) (model : Text) (c : RouteConfig)
    → matching_route r model ≡ some c
    → In c r.routes
      × (glob_match c.model model ≡ true)
      × ((d : RouteConfig)
          → In d r.routes
          → glob_match d.model model ≡ true
          → ltb_ℤ (rank c) (rank d) ≡ false)
unfolding matching_route
matching_route_ranked r model c h = elim (List-cases (sort_by ranks_before (matched r model))) [
  | inl e ↦ absurd (ground arith)
  | inr (x, rest, e) ↦
      let same : x ≡ c = ground arith in
      let here : In x (matched r model) =
        sort_by-In ranks_before x (matched r model) (subst (In x) (sym e) (inl refl)) in
      let (m, g) = keep-In (λ route. glob_match route.model model) x r.routes here in
      (
        subst (λ z. In z r.routes) same m,
        subst (λ z. glob_match z.model model ≡ true) same g,
        λ d md gd.
            subst (λ z. ltb_ℤ (rank z) (rank d) ≡ false) same
              (sort_by-least ranks_before ranks_before-IsWeakOrder (matched r model) x rest e d
                (In-keep (λ route. glob_match route.model model) d r.routes md gd)),
      )
]

-- The rank of a route stays within an int of 64 bits: at most 10^14 in priority either way, and a
-- pattern shorter than 9000 bytes.
pub record FitsRank (route : RouteConfig) : Type 0 where
  pub low : neg_part route.priority ≤ 100000000000000
  pub high : pos_part route.priority ≤ 100000000000000
  pub short : byte_length route.model < 9000

-- A higher priority, or the same and a pattern that is at least as specific.
abbrev pub Precedes : RouteConfig → RouteConfig → Type 0
Precedes c d =
    (ltb_ℤ d.priority c.priority ≡ true)
    ⊎ ((c.priority ≡ d.priority) × (specificity d.model ≤ specificity c.model))

small : (n : ℕ) → n < 2 ^ 63 → n % 2 ^ 64 ≡ n
small n h = omega (arith, h)

wrap_int64_fits : (n : ℤ) → pos_part n < 2 ^ 63 → neg_part n ≤ 2 ^ 63 → wrap_int64 n ≡ n
unfolding wrap_int64
wrap_int64_fits (pos n) h k = ground (arith, small n (omega (arith, h)))
wrap_int64_fits (negsuc n) h k = ground (arith, small n (omega (arith, k)))

times_10000_parts :
    (n : ℤ)
    → (pos_part (times_10000 n) ≡ pos_part n * 10000)
      × (neg_part (times_10000 n) ≡ neg_part n * 10000)
times_10000_parts (pos n) = (refl, refl)
times_10000_parts (negsuc n) = (refl, omega arith)

specificity-lt : (route : RouteConfig) → FitsRank route → specificity route.model < 10000
unfolding specificity
specificity-lt route f = ground (arith, f.short)

one_sign : (n : ℤ) → (pos_part n ≡ 0) ⊎ (neg_part n ≡ 0)
one_sign (pos n) = inr refl
one_sign (negsuc n) = inl refl

sum_parts :
    (a : ℤ) (s : ℕ)
    → (pos_part (a +ℤ pos s) ≤ pos_part a + s) × (neg_part (a +ℤ pos s) ≤ neg_part a)
unfolding ◌+ℤ◌
sum_parts a s = (ground arith, ground arith)

rank_fits :
    (route : RouteConfig)
    → FitsRank route
    → rank route ≡ times_10000 route.priority +ℤ pos (specificity route.model)
unfolding rank
rank_fits route f =
    let p = times_10000_parts route.priority in
    let s = specificity-lt route f in
    let q = sum_parts (times_10000 route.priority) (specificity route.model) in
    let h : pos_part (times_10000 route.priority) < 2 ^ 63 = omega (arith, p.0, f.high) in
    let k : neg_part (times_10000 route.priority) ≤ 2 ^ 63 = omega (arith, p.1, f.low) in
    ap (λ z. wrap_int64 (z +ℤ pos (specificity route.model)))
      (wrap_int64_fits (times_10000 route.priority) h k)
    ∙ wrap_int64_fits (times_10000 route.priority +ℤ pos (specificity route.model))
        (omega (arith, q.0, p.0, f.high, s)) (omega (arith, q.1, k))

-- Within these bounds the rank is what it is meant to be.
rank_parts :
    (route : RouteConfig)
    → FitsRank route
    → pos_part (rank route) + neg_part route.priority * 10000
      ≡ neg_part (rank route) + pos_part route.priority * 10000 + specificity route.model
rank_parts route f =
    let p = times_10000_parts route.priority in
    let e = +ℤ_parts (times_10000 route.priority) (pos (specificity route.model)) in
    rw (rank_fits route f) (omega (arith, e, p.0, p.1))

Precedes-rank :
    (c d : RouteConfig) → FitsRank c → FitsRank d → ltb_ℤ (rank c) (rank d) ≡ false → Precedes c d
Precedes-rank c d fc fd h = elim (Bool-cases (ltb_ℤ d.priority c.priority)) [
  | inl higher ↦ inl higher
  | inr same ↦
      let rc = rank_parts c fc in
      let rd = rank_parts d fd in
      let sc = specificity-lt c fc in
      let least : pos_part (rank d) + neg_part (rank c) ≤ pos_part (rank c) + neg_part (rank d) =
        not_before (rank c) (rank d) h in
      let above : pos_part c.priority + neg_part d.priority
          ≤ pos_part d.priority + neg_part c.priority =
        not_before d.priority c.priority same in
      let equal : pos_part c.priority + neg_part d.priority
          ≡ pos_part d.priority + neg_part c.priority =
        omega (arith, rc, rd, sc, least, above) in
      inr (eq_of_parts c.priority d.priority equal, omega (arith, rc, rd, least, equal))
]
  where
    not_before : (a b : ℤ) → ltb_ℤ a b ≡ false → pos_part b + neg_part a ≤ pos_part a + neg_part b
    not_before a b q = ground arith

-- The route that applies is one of the configured and matches the model. Where no rank overflows (a
-- priority of at most 10^14 either way, and patterns below 9000 bytes), every other route that matches
-- has a lower priority, or the same and a pattern that is at most as specific.
pub matching_route_best :
    (r : Router) (model : Text) (c : RouteConfig)
    → matching_route r model ≡ some c
    → ((d : RouteConfig) → In d r.routes → FitsRank d)
    → In c r.routes
      × (glob_match c.model model ≡ true)
      × ((d : RouteConfig) → In d r.routes → glob_match d.model model ≡ true → Precedes c d)
matching_route_best r model c h fits =
    let (m, g, best) = matching_route_ranked r model c h in
    (m, g, λ d md gd. Precedes-rank c d (fits c m) (fits d md) (best d md gd))
