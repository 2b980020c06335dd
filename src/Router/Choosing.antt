-- ===== src/Router/Choosing.antt =====
-- `pick` as a whole: it stays in range, chooses one of the accounts, and the best by its strategy.

use ghcp_pool_go.Base.{
  none, text, text_eq, lt→ltb, length, ◌||◌, if◌then◌else◌, ℕ, zero, suc, ◌+◌, ◌-◌, ◌%◌, ◌^◌, ◌≤◌,
  ◌<◌, ◌≡◌, ◌⊎◌, refl, ap, sym, subst, ◌∙◌, inl, inr, Bool, false, some, List, [], ◌∷◌, arith, In,
  Text, length, get_elem?, ltb, sort_by, In-sort_by, sort_by-In, sort_by-least, length-sort_by,
  IsWeakOrder, Bool-cases, Option-cases, if◌then◌else◌,
}
use ghcp_pool_go.Router.{
  pick, less_busy, lighter, Router, Choice, min_by, smarter, trim_compared, add_one, at_counter,
  round_robin, first_of_sorted, pick_smart, pick_min,
}
use ghcp_pool_go.Router.Ranked.{List-cases}
use ghcp_pool_go.Router.Picking.{
  min_by-In, min_by-least, less_busy-IsWeakOrder, smarter-IsWeakOrder, lighter-IsWeakOrder,
}

get_elem?-In : (xs : List Text) (i : ℕ) (x : Text) → get_elem? xs i ≡ some x → In x xs
get_elem?-In [] i x h = absurd (cc)
get_elem?-In (y ∷ xs) zero x h = inl (ground arith)
get_elem?-In (y ∷ xs) (suc i) x h = inr (get_elem?-In xs i x h)

pub get_elem?-total :
    (xs : List Text) (i : ℕ) → i < length xs → (x : Text) × (get_elem? xs i ≡ some x)
get_elem?-total [] i h = absurd (omega arith)
get_elem?-total (x ∷ xs) zero h = (x, refl)
get_elem?-total (x ∷ xs) (suc i) h = get_elem?-total xs i (omega arith)

-- What every strategy keeps: the choice is one of the accounts, the slice holds the same ones, the
-- counter goes up by one at most, and of the pool at most the windows are trimmed.
pub record IsChoice (r : Router) (ids : List Text) (now : ℕ) (c : Choice) : Type 0 where
  pub among : In c.picked ids
  pub ordered : length c.order ≡ length ids
  pub kept : (id : Text) → In id ids → In id c.order
  pub back : (id : Text) → In id c.order → In id ids
  pub counter : r.rr + 1 < 2 ^ 63 → c.router.rr ≤ r.rr + 1
  pub registry : c.router.registry ≡ r.registry
  pub routes : c.router.routes ≡ r.routes
  pub pool : (c.router.pool ≡ r.pool) ⊎ (c.router.pool ≡ trim_compared now ids r.pool)

at_counter-In : (n : ℕ) (ids : List Text) (id : Text) → at_counter n ids ≡ some id → In id ids
unfolding at_counter
at_counter-In n ids id h =
    let before = (n + (2 ^ 64 - 1)) % 2 ^ 64 in
    elim (Bool-cases (ltb before (2 ^ 63))) [
      | inl t ↦ get_elem?-In ids (before % length ids) id (ground arith)
      | inr f ↦ absurd (ground arith)
    ]

at_counter_before :
    (n before : ℕ) (ids : List Text)
    → (n + (2 ^ 64 - 1)) % 2 ^ 64 ≡ before
    → at_counter n ids ≡ (if ltb before (2 ^ 63) then get_elem? ids (before % length ids) else none)
unfolding at_counter
at_counter_before n before ids e =
    ap (λ b. if ltb b (2 ^ 63) then get_elem? ids (b % length ids) else none) e

-- Below 2^63 the index is the counter modulo the length, and from there on it is out of range.
pub at_counter_small :
    (rr : ℕ) (ids : List Text)
    → rr < 2 ^ 63
    → at_counter (add_one rr) ids ≡ get_elem? ids (rr % length ids)
at_counter_small rr ids small =
    at_counter_before (add_one rr) rr ids (omega arith) ∙ rw (lt→ltb rr (2 ^ 63) small) refl

pub at_counter_big :
    (rr : ℕ) (ids : List Text) → 2 ^ 63 ≤ rr → rr < 2 ^ 64 → at_counter (add_one rr) ids ≡ none
at_counter_big rr ids big word = at_counter_before (add_one rr) rr ids (omega arith) ∙ ground arith

round_robin-IsChoice :
    (r : Router) (ids : List Text) (now : ℕ) (c : Choice)
    → round_robin r ids ≡ some c
    → IsChoice r ids now c
unfolding round_robin
round_robin-IsChoice r ids now c h = elim (Option-cases (at_counter (add_one r.rr) ids)) [
  | inl e ↦ absurd (ground arith)
  | inr (id, e) ↦
      let made : Choice = record {
        router = record r { rr = add_one r.rr };
        order = ids;
        picked = id;
      } in
      let same : made ≡ c = ground arith in
      subst (IsChoice r ids now) same (record {
        among = at_counter-In (add_one r.rr) ids id e;
        ordered = refl;
        kept = λ x m. m;
        back = λ x m. m;
        counter = λ small. omega arith;
        registry = refl;
        routes = refl;
        pool = inl refl;
      })
]

pub pick_min-IsChoice :
    (less : Text → Text → Bool) (r : Router) (ids : List Text) (now : ℕ) (c : Choice)
    → IsWeakOrder less
    → pick_min less r ids ≡ some c
    → IsChoice r ids now c × ((id : Text) → In id ids → less id c.picked ≡ false)
unfolding pick_min
pick_min-IsChoice less r [] now c w h = absurd (cc)
pick_min-IsChoice less r (first ∷ ids) now c w h =
    let made : Choice = record {
      router = r;
      order = first ∷ ids;
      picked = min_by less first ids;
    } in
    let same : made ≡ c = ground arith in
    subst
      (λ z.
        IsChoice r (first ∷ ids) now z
        × ((id : Text) → In id (first ∷ ids) → less id z.picked ≡ false))
      same
      (
        record {
          among = min_by-In less w first ids;
          ordered = refl;
          kept = λ x m. m;
          back = λ x m. m;
          counter = λ small. omega arith;
          registry = refl;
          routes = refl;
          pool = inl refl;
        },
        least,
      )
  where
    least : (id : Text) → In id (first ∷ ids) → less id (min_by less first ids) ≡ false
    least id (inl e) =
        ap (λ z. less z (min_by less first ids)) e
        ∙ min_by-least less w first ids first (inl (irrefl first))
      where
        irrefl : (y : Text) → less y y ≡ false
        irrefl y = elim (Bool-cases (less y y)) [ inl u ↦ w.asym y y u | inr f ↦ f ]
    least id (inr m) = min_by-least less w first ids id (inr m)

pub pick_smart-IsChoice :
    (r : Router) (ids : List Text) (now : ℕ) (c : Choice)
    → pick_smart r ids now ≡ some c
    → IsChoice r ids now c × ((id : Text) → In id ids → smarter r.pool now id c.picked ≡ false)
unfolding pick_smart first_of_sorted
pick_smart-IsChoice r ids now c h = elim (List-cases (sort_by (smarter r.pool now) ids)) [
  | inl e ↦ absurd (ground arith)
  | inr (x, rest, e) ↦
      let trimmed : Router = record r {
        pool = if ltb 1 (length ids) then trim_compared now ids r.pool else r.pool;
      } in
      let made : Choice = record { router = trimmed; order = x ∷ rest; picked = x } in
      let same : made ≡ c = ground arith in
      subst
        (λ z.
          IsChoice r ids now z × ((id : Text) → In id ids → smarter r.pool now id z.picked ≡ false))
        same
        (
          record {
            among = sort_by-In (smarter r.pool now) x ids (subst (In x) (sym e) (inl refl));
            ordered = ap length (sym e) ∙ length-sort_by (smarter r.pool now) ids;
            kept = λ id m. subst (In id) e (In-sort_by (smarter r.pool now) id ids m);
            back = λ id m. sort_by-In (smarter r.pool now) id ids (subst (In id) (sym e) m);
            counter = λ small. omega arith;
            registry = refl;
            routes = refl;
            pool = elim (Bool-cases (ltb 1 (length ids))) [
              | inl t ↦ inr (rw t refl)
              | inr f ↦ inl (rw f refl)
            ];
          },
          λ id m.
              sort_by-least (smarter r.pool now) (smarter-IsWeakOrder r.pool now) ids x rest e id m,
        )
]

pub pick-IsChoice :
    (r : Router) (ids : List Text) (strategy : Text) (now : ℕ) (c : Choice)
    → pick r ids strategy now ≡ some c
    → IsChoice r ids now c
unfolding pick
pick-IsChoice r ids strategy now c h =
    let busy = pick_min-IsChoice (less_busy r.pool) r ids now c (less_busy-IsWeakOrder r.pool) in
    let light = pick_min-IsChoice (lighter r.pool) r ids now c (lighter-IsWeakOrder r.pool) in
    elim (Bool-cases (text_eq strategy (text "round_robin"))) [
      | inl robin ↦ round_robin-IsChoice r ids now c (rw (robin, pick) at h)
      | inr other ↦ elim (Bool-cases (text_eq strategy (text "weighted"))) [
        | inl weighted ↦ (light (ground arith)).0
        | inr third ↦
            elim (Bool-cases
              (text_eq strategy (text "quota_aware") || text_eq strategy (text "smart"))) [
                | inl smart ↦ (pick_smart-IsChoice r ids now c (ground arith)).0
                | inr last ↦ (busy (ground arith)).0
              ]
      ]
    ]
