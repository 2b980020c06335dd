-- ===== src/Router/Strategies.antt =====
-- The strategies of `pick`: which account each takes, and where it panics.
use native.Mathlib.Nat.{mod-lt}
use ghcp_pool_go.Base.{
  none, text, text_eq, text_eq_refl, length, ◌||◌, if◌then◌else◌, ℕ, ◌+◌, ◌%◌, ◌^◌, ◌≤◌, ◌<◌, ◌≡◌,
  refl, ap, inl, inr, false, some, List, ◌∷◌, arith, In, Text, length, get_elem?, ltb, sort_by,
  length-sort_by, Bool-cases, if◌then◌else◌,
}
use ghcp_pool_go.Router.{
  pick, less_busy, lighter, Router, Choice, min_by, smarter, trim_compared, add_one, round_robin,
  first_of_sorted, pick_smart, pick_min,
}
use ghcp_pool_go.Router.Ranked.{List-cases}
use ghcp_pool_go.Router.Picking.{less_busy-IsWeakOrder, lighter-IsWeakOrder}
use ghcp_pool_go.Router.Choosing.{
  get_elem?-total, at_counter_small, at_counter_big, pick_min-IsChoice, pick_smart-IsChoice,
}

-- `smart` (and its other name) takes an account of the least penalty, `weighted` one of the least
-- requests in flight by weight, and every strategy but these and `round_robin` one of the least
-- requests in flight.
pub pick_best :
    (r : Router) (ids : List Text) (strategy : Text) (now : ℕ) (c : Choice)
    → pick r ids strategy now ≡ some c
    → text_eq strategy (text "round_robin") ≡ false
    → (id : Text) → In id ids
    → (if text_eq strategy (text "weighted")
        then lighter r.pool id c.picked
        else if text_eq strategy (text "quota_aware") || text_eq strategy (text "smart")
        then smarter r.pool now id c.picked
        else less_busy r.pool id c.picked)
      ≡ false
unfolding pick
pick_best r ids strategy now c h other id m =
    let busy = pick_min-IsChoice (less_busy r.pool) r ids now c (less_busy-IsWeakOrder r.pool) in
    let light = pick_min-IsChoice (lighter r.pool) r ids now c (lighter-IsWeakOrder r.pool) in
    elim (Bool-cases (text_eq strategy (text "weighted"))) [
      | inl weighted ↦ rw weighted ((light (ground arith)).1 id m)
      | inr third ↦
          elim (Bool-cases
            (text_eq strategy (text "quota_aware") || text_eq strategy (text "smart"))) [
              | inl smart ↦
                  rw (third, smart) ((pick_smart-IsChoice r ids now c (ground arith)).1 id m)
              | inr last ↦ rw (third, last) ((busy (ground arith)).1 id m)
            ]
    ]

-- Below 2^63 picks `round_robin` takes the account at the counter modulo their number, and the
-- counter goes up by one.
pub pick_round_robin :
    (r : Router) (ids : List Text) (now : ℕ) (id : Text)
    → r.rr < 2 ^ 63
    → get_elem? ids (r.rr % length ids) ≡ some id
    → pick r ids (text "round_robin") now
      ≡ some (record { router = record r { rr = r.rr + 1 }; order = ids; picked = id })
unfolding pick round_robin
pick_round_robin r ids now id small e =
    let next : add_one r.rr ≡ r.rr + 1 = omega arith in
    ground (arith, text_eq_refl (text "round_robin"), at_counter_small r.rr ids small)

round_robin_total :
    (r : Router) (id : Text) (ids : List Text)
    → r.rr < 2 ^ 63
    → (c : Choice) × (round_robin r (id ∷ ids) ≡ some c)
unfolding round_robin
round_robin_total r id ids small =
    let (x, e) =
      get_elem?-total (id ∷ ids) (r.rr % length (id ∷ ids)) (mod-lt r.rr (omega arith)) in
    (
      record { router = record r { rr = add_one r.rr }; order = id ∷ ids; picked = x },
      ground (arith, at_counter_small r.rr (id ∷ ids) small),
    )

pick_smart_total :
    (r : Router) (id : Text) (ids : List Text) (now : ℕ)
    → (c : Choice) × (pick_smart r (id ∷ ids) now ≡ some c)
unfolding pick_smart first_of_sorted
pick_smart_total r id ids now = elim (List-cases (sort_by (smarter r.pool now) (id ∷ ids))) [
  | inl e ↦ absurd (omega (arith, ap length e, length-sort_by (smarter r.pool now) (id ∷ ids)))
  | inr (x, rest, e) ↦ (
    record {
      router = record r {
        pool = if ltb 1 (length (id ∷ ids)) then trim_compared now (id ∷ ids) r.pool else r.pool;
      };
      order = x ∷ rest;
      picked = x;
    },
    rw e refl,
  )
]

-- Below 2^63 picks `pick` returns a choice from any accounts that are not none, by every strategy.
pub pick_total :
    (r : Router) (id : Text) (ids : List Text) (strategy : Text) (now : ℕ)
    → r.rr < 2 ^ 63
    → (c : Choice) × (pick r (id ∷ ids) strategy now ≡ some c)
unfolding pick pick_min
pick_total r id ids strategy now small =
    let (robin, e) = round_robin_total r id ids small in
    let (smart, f) = pick_smart_total r id ids now in
    elim (Bool-cases (text_eq strategy (text "round_robin"))) [
      | inl t ↦ (robin, rw t e)
      | inr n ↦ elim (Bool-cases (text_eq strategy (text "weighted"))) [
        | inl t ↦ (
          record { router = r; order = id ∷ ids; picked = min_by (lighter r.pool) id ids },
          rw (n, t) refl,
        )
        | inr n' ↦
            elim (Bool-cases
              (text_eq strategy (text "quota_aware") || text_eq strategy (text "smart"))) [
                | inl t ↦ (smart, rw (n, n', t) f)
                | inr n'' ↦ (
                  record {
                    router = r;
                    order = id ∷ ids;
                    picked = min_by (less_busy r.pool) id ids;
                  },
                  rw (n, n', n'') refl,
                )
              ]
      ]
    ]

-- From 2^63 picks on `round_robin` panics, whatever the accounts are.
pub pick_panics :
    (r : Router) (ids : List Text) (now : ℕ)
    → 2 ^ 63 ≤ r.rr
    → r.rr < 2 ^ 64
    → pick r ids (text "round_robin") now ≡ none
unfolding pick round_robin
pick_panics r ids now big word =
    ground (arith, text_eq_refl (text "round_robin"), at_counter_big r.rr ids big word)
