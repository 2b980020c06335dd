-- ===== src/Router/Selecting.antt =====
-- The loop of Select and SelectExcluding: it takes one slot or none, and finds one where there is one.
use ghcp_pool_go.Account
use ghcp_pool_go.Account.{Account}
use ghcp_pool_go.Account.Slots
use ghcp_pool_go.Base.{
  ℕ, zero, suc, ◌+◌, ◌^◌, ◌≤◌, ◌<◌, ◌≡◌, refl, ap, subst, ◌∙◌, true, false, not, some, List, [],
  ◌∷◌, arith, if◌then◌else◌, In, In-keep, keep-In, length-keep-lt, Text, text_eq, text_eq_refl,
  text_eq_iff, length, Option-cases, Bool-cases, inl, inr,
}
use ghcp_pool_go.Pool
use ghcp_pool_go.Pool.{Pool, get, update_account}
use ghcp_pool_go.Pool.Acquire.{
  in_flight_of, acquires_iff, in_flight_of-try_acquire, try_acquire-IsValid,
}
use ghcp_pool_go.Pool.Same.{
  Same, Same-refl, Same-trans, Still, update_account-Same, try_acquire-Same, open_for, global_open,
}
use ghcp_pool_go.Pool.Valid.{IsValid}
use ghcp_pool_go.Router.{
  Router, Choice, Attempt, took, exhausted, panicked, pick, trim_compared, without, try_candidates,
}
use ghcp_pool_go.Router.Choosing.{pick-IsChoice}
use ghcp_pool_go.Router.Strategies.{pick_total}

trim_compared-Same :
    (now : ℕ) (ids : List Text) (p : Pool) → IsValid p → Same now p (trim_compared now ids p)
unfolding trim_compared
trim_compared-Same now [] p v = Same-refl now p v
trim_compared-Same now (id ∷ ids) p v =
    let trim : Account → Account = λ a. (Account.recent_stats a now).0 in
    let one = update_account-Same now id trim p still v in
    Same-trans now p (update_account id trim p) (trim_compared now ids (update_account id trim p))
      one (trim_compared-Same now ids (update_account id trim p) one.valid)
  where
    still : (a : Account) → Slots.IsValid a → Still now a (Account.recent_stats a now).0
    still a w =
        let (valid, config, flight, answer) = Slots.recent_stats_keeps a now now w in
        record { valid = valid; config = config; flight = flight; answer = answer }

pub pick-Same :
    (r : Router) (ids : List Text) (strategy : Text) (now : ℕ) (c : Choice)
    → IsValid r.pool
    → pick r ids strategy now ≡ some c
    → Same now r.pool c.router.pool
pick-Same r ids strategy now c v h = elim ((pick-IsChoice r ids strategy now c h).pool) [
  | inl e ↦ rw e (Same-refl now r.pool v)
  | inr e ↦ rw e (trim_compared-Same now ids r.pool v)
]

-- The slots that an attempt took of an account.
abbrev pub taken : Attempt → Text → ℕ
taken (took id) j = if text_eq id j then 1 else 0
taken exhausted j = 0
taken panicked j = 0

-- What the loop leaves: a valid pool, one slot taken of the account that it names and none of
-- another, and a name among the candidates.
pub record Ends (p : Pool) (ids : List Text) (r : Router × Attempt) : Type 0 where
  pub valid : IsValid r.0.pool
  pub flights : (j : Text) → in_flight_of r.0.pool j ≡ in_flight_of p j + taken r.1 j
  pub among : (id : Text) → r.1 ≡ took id → In id ids

pub Ends-Same :
    (now : ℕ) (p q : Pool) (ids others : List Text) (r : Router × Attempt)
    → Same now p q
    → ((id : Text) → In id others → In id ids)
    → Ends q others r
    → Ends p ids r
Ends-Same now p q ids others r s sub e = record {
  valid = e.valid;
  flights = λ j. e.flights j ∙ ap (λ n. n + taken r.1 j) (s.flights j);
  among = λ id h. sub id (e.among id h);
}

after_pick : Choice → ℕ → Router
after_pick c now = record (c.router) { pool = (Pool.try_acquire c.router.pool c.picked now).0 }

took-Ends :
    (p : Pool) (ids : List Text) (c : Choice) (now : ℕ)
    → Same now p c.router.pool
    → In c.picked ids
    → (Pool.try_acquire c.router.pool c.picked now).1 ≡ true
    → Ends p ids (after_pick c now, took c.picked)
unfolding after_pick
took-Ends p ids c now s m h = record {
  valid = try_acquire-IsValid c.router.pool c.picked now s.valid;
  flights = λ j. ground (arith, in_flight_of-try_acquire c.router.pool c.picked j now, s.flights j);
  among = λ id e. subst (λ t. In t ids) (ground arith) m;
}

pub try_candidates-Ends :
    (fuel : ℕ) (r : Router) (ids : List Text) (strategy : Text) (now : ℕ)
    → IsValid r.pool
    → Ends r.pool ids (try_candidates fuel r ids strategy now)
unfolding try_candidates after_pick
try_candidates-Ends zero r ids strategy now v = record {
  valid = v;
  flights = λ j. omega arith;
  among = λ id h. absurd (cc);
}
try_candidates-Ends (suc fuel) r [] strategy now v = record {
  valid = v;
  flights = λ j. omega arith;
  among = λ id h. absurd (cc);
}
try_candidates-Ends (suc fuel) r (id ∷ ids) strategy now v =
    elim (Option-cases (pick r (id ∷ ids) strategy now)) [
      | inl e ↦
          rw (e, try_candidates)
            (record { valid = v; flights = λ j. omega arith; among = λ id h. absurd (cc) })
      | inr (c, e) ↦
          let choice = pick-IsChoice r (id ∷ ids) strategy now c e in
          let same = pick-Same r (id ∷ ids) strategy now c v e in
          elim (Bool-cases (Pool.try_acquire c.router.pool c.picked now).1) [
            | inl acquired ↦
                rw (e, try_candidates)
                  (rw acquired (took-Ends r.pool (id ∷ ids) c now same choice.among acquired))
            | inr refused ↦
                let kept = try_acquire-Same now c.router.pool c.picked same.valid refused in
                rw (e, try_candidates)
                  (rw refused (
                    Ends-Same now r.pool (after_pick c now).pool (id ∷ ids)
                      (without c.picked c.order) _ (Same-trans now r.pool c.router.pool _ same kept)
                      (λ j m. choice.back j (keep-In (λ x. not (text_eq x c.picked)) j c.order m).0)
                      (try_candidates-Ends fuel (after_pick c now) (without c.picked c.order)
                        strategy now kept.valid)))
          ]
    ]

open_for_iff :
    (now : ℕ) (p : Pool) (id : Text)
    → IsValid p
    → open_for now p id ≡ true
    → global_open now p ≡ true
    → (Pool.try_acquire p id now).1 ≡ true
open_for_iff now p id v opened allowed = elim (Option-cases (get p id)) [
  | inl e ↦ absurd (ground arith)
  | inr (a, e) ↦ (acquires_iff p id now v).1 (a, e, ground arith, allowed)
]

refused_other :
    (now : ℕ) (p : Pool) (id j : Text)
    → IsValid p
    → open_for now p id ≡ true
    → global_open now p ≡ true
    → (Pool.try_acquire p j now).1 ≡ false
    → text_eq id j ≡ false
refused_other now p id j v opened allowed refused = elim (Bool-cases (text_eq id j)) [
  | inr f ↦ f
  | inl t ↦
      let e = (text_eq_iff id j).0 t in
      absurd (cc (open_for_iff now p id v opened allowed, refused, e))
]

-- With the number of candidates as fuel, the loop takes a slot whenever a candidate is available
-- and the pool's limit has a token.
pub try_candidates_finds :
    (fuel : ℕ) (r : Router) (ids : List Text) (strategy : Text) (now : ℕ) (id : Text)
    → IsValid r.pool
    → length ids ≤ fuel
    → r.rr + length ids < 2 ^ 63
    → In id ids
    → open_for now r.pool id ≡ true
    → global_open now r.pool ≡ true
    → (x : Text) × ((try_candidates fuel r ids strategy now).1 ≡ took x)
unfolding try_candidates after_pick
try_candidates_finds fuel r [] strategy now id v enough small m opened allowed = elim m [ ]
try_candidates_finds zero r (first ∷ ids) strategy now id v enough small m opened allowed =
    absurd (omega arith)
try_candidates_finds (suc fuel) r (first ∷ ids) strategy now id v enough small m opened allowed =
    let (c, e) = pick_total r first ids strategy now (omega arith) in
    let choice = pick-IsChoice r (first ∷ ids) strategy now c e in
    let same = pick-Same r (first ∷ ids) strategy now c v e in
    elim (Bool-cases (Pool.try_acquire c.router.pool c.picked now).1) [
      | inl acquired ↦ (c.picked, rw (e, try_candidates) (rw acquired refl))
      | inr refused ↦
          let kept = try_acquire-Same now c.router.pool c.picked same.valid refused in
          let both = Same-trans now r.pool c.router.pool _ same kept in
          let other : text_eq id c.picked ≡ false =
            refused_other now c.router.pool id c.picked same.valid (same.opens id ∙ opened)
              (same.global ∙ allowed) refused in
          let here : In id (without c.picked c.order) =
            In-keep (λ x. not (text_eq x c.picked)) id c.order (choice.kept id m) (ap not other) in
          let fewer =
            length-keep-lt (λ x. not (text_eq x c.picked)) c.picked c.order
              (choice.kept c.picked choice.among) (ap not (text_eq_refl c.picked)) in
          let counter = choice.counter (omega arith) in
          let (x, found) =
            try_candidates_finds fuel (after_pick c now) (without c.picked c.order) strategy now id
              both.valid (omega (arith, choice.ordered)) (omega (arith, choice.ordered)) here
              (both.opens id ∙ opened) (both.global ∙ allowed) in
          (x, rw (e, try_candidates) (rw refused found))
    ]
