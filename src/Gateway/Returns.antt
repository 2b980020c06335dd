-- ===== src/Gateway/Returns.antt =====
-- CompleteResult returns: each account is tried once, so the candidates and one more are enough fuel.
use ghcp_pool_go.Account
use ghcp_pool_go.Account.{Account}
use ghcp_pool_go.Base.{
  ℕ, zero, suc, ◌+◌, ◌≤◌, ◌<◌, ◌≡◌, ◌≢◌, ap, sym, subst, ◌∙◌, Bool, true, false, none, some, List,
  [], ◌∷◌, arith, keep, length, In, keep-In, length-keep-le, Text, text_eq_refl, Bool-cases,
  Option-cases, inl, inr,
}
use ghcp_pool_go.Errors.{BackendError, is_non_retryable_backend_error}
use ghcp_pool_go.Gateway.{
  Gateway, Plan, Outside, out_of_fuel, after_failure, succeed, complete_from, complete_result,
}
use ghcp_pool_go.Gateway.Release.{after_failure-IsValid}
use ghcp_pool_go.Gateway.Slots.{
  Frees, Reply-cases, Attempt-cases, retried, retried-Frees, complete_from_took,
  complete_from-Frees,
}
use ghcp_pool_go.Pool.{Pool}
use ghcp_pool_go.Pool.Valid.{IsValid}
use ghcp_pool_go.Router.{Router, took, candidate_accounts}
use ghcp_pool_go.Pool.Views.{Alike, update_account-Alike}
use ghcp_pool_go.Router.Alike.{
  SameRoutes, SameRoutes-trans, pool-SameRoutes, select_excluding-SameRoutes,
  candidate_accounts-SameRoutes,
}
use ghcp_pool_go.Router.Found.{is_free, select_excluding-Ends}

length-keep-fewer :
    (p q : Text → Bool) (a : Text) (xs : List Text)
    → ((x : Text) → p x ≡ true → q x ≡ true)
    → In a xs
    → q a ≡ true
    → p a ≡ false
    → length (keep p xs) < length (keep q xs)
length-keep-fewer p q a [] sub m is_in is_out = elim m [ ]
length-keep-fewer p q a (x ∷ xs) sub (inl e) is_in is_out =
    rw (← e) (rw (is_in, is_out) (omega (arith, fewer xs)))
  where
    fewer : (ys : List Text) → length (keep p ys) ≤ length (keep q ys)
    fewer [] = omega arith
    fewer (y ∷ ys) = ground (arith, fewer ys, sub y)
length-keep-fewer p q a (x ∷ xs) sub (inr m) is_in is_out =
    ground (arith, length-keep-fewer p q a xs sub m is_in is_out, sub x)

is_free-cons :
    (next : Text) (exclude : List Text) (x : Text)
    → is_free (next ∷ exclude) x ≡ true
    → is_free exclude x ≡ true
is_free-cons next exclude x h = ground arith

is_free_self : (next : Text) (exclude : List Text) → is_free (next ∷ exclude) next ≡ false
is_free_self next exclude = ground (arith, text_eq_refl next)

after_failure-Alike :
    (id : Text) (e : BackendError) (now : ℕ) (p : Pool) → Alike p (after_failure id e now p)
unfolding after_failure Account.release Account.record_failure Account.record_request
after_failure-Alike id e now p =
    update_account-Alike id (λ a. Account.release (Account.record_failure a e.message now)) p
      (λ a. ground arith)

retried-SameRoutes :
    (o : Outside) (i : ℕ) (g : Gateway) (plan : Plan) (exclude : List Text) (id : Text)
    (e : BackendError)
    → SameRoutes g.router (retried o i g plan exclude id e).0
retried-SameRoutes o i g plan exclude id e =
    let p = after_failure id e (o.clock i) g.router.pool in
    let failed : Router = record (g.router) { pool = p } in
    SameRoutes-trans g.router failed (retried o i g plan exclude id e).0
      (pool-SameRoutes g.router p (after_failure-Alike id e (o.clock i) g.router.pool))
      (select_excluding-SameRoutes failed plan.model (id ∷ exclude) plan.endpoint (o.clock i))

-- The candidates of the plan that have not failed.
abbrev pub left : Router → Plan → List Text → ℕ
left r plan exclude =
    length (keep (is_free exclude) (candidate_accounts r plan.model plan.endpoint))

-- A retry took a candidate that had not failed, so fewer are left.
left-retried :
    (o : Outside) (i : ℕ) (g : Gateway) (plan : Plan) (exclude : List Text) (id next : Text)
    (e : BackendError)
    → IsValid g.router.pool
    → (retried o i g plan exclude id e).1 ≡ took next
    → left (retried o i g plan exclude id e).0 plan (next ∷ id ∷ exclude)
      < left g.router plan (id ∷ exclude)
left-retried o i g plan exclude id next e v m =
    let p = after_failure id e (o.clock i) g.router.pool in
    let failed : Router = record (g.router) { pool = p } in
    let cs = candidate_accounts g.router plan.model plan.endpoint in
    let here : In next (keep (is_free (id ∷ exclude)) cs) =
      subst (λ ds. In next (keep (is_free (id ∷ exclude)) ds))
        (candidate_accounts-SameRoutes g.router failed plan.model plan.endpoint
          (pool-SameRoutes g.router p (after_failure-Alike id e (o.clock i) g.router.pool)))
        ((select_excluding-Ends failed plan.model (id ∷ exclude) plan.endpoint (o.clock i)
            (after_failure-IsValid id e (o.clock i) g.router.pool v)).among
          next m) in
    let (member, free) = keep-In (is_free (id ∷ exclude)) next cs here in
    subst
      (λ ds.
        length (keep (is_free (next ∷ id ∷ exclude)) ds)
        < length (keep (is_free (id ∷ exclude)) cs))
      (sym (
        candidate_accounts-SameRoutes g.router (retried o i g plan exclude id e).0 plan.model
          plan.endpoint (retried-SameRoutes o i g plan exclude id e)))
      (length-keep-fewer (is_free (next ∷ id ∷ exclude)) (is_free (id ∷ exclude)) next cs
        (is_free-cons next (id ∷ exclude)) member free (is_free_self next (id ∷ exclude)))

complete_from_returns :
    (fuel : ℕ) (o : Outside) (i : ℕ) (g : Gateway) (plan : Plan) (exclude : List Text) (id : Text)
    → IsValid g.router.pool
    → left g.router plan (id ∷ exclude) < fuel
    → (complete_from fuel o i g plan exclude id).1 ≢ out_of_fuel
unfolding complete_from succeed
complete_from_returns zero o i g plan exclude id v enough = absurd (omega arith)
complete_from_returns (suc fuel) o i g plan exclude id v enough = elim (Reply-cases (o.chat i id)) [
  | inl (result, h) ↦ rw (h, complete_from) (λ out. absurd (cc out))
  | inr (e, h) ↦ elim (Bool-cases (is_non_retryable_backend_error e)) [
    | inl fatal ↦ rw (h, complete_from) (rw fatal (λ out. absurd (cc out)))
    | inr k ↦ elim (Attempt-cases (retried o i g plan exclude id e).1) [
      | inl (next, m) ↦
          let g' : Gateway = record g { router = (retried o i g plan exclude id e).0 } in
          let same = complete_from_took fuel o i g plan exclude id next e h k m in
          λ out.
            complete_from_returns fuel o (i + 1) g' plan (id ∷ exclude) next
              (retried-Frees o i g plan exclude id e v).0
              (omega (arith, left-retried o i g plan exclude id next e v m, enough))
              (ap (λ z. z.1) (sym same) ∙ out)
      | inr (inl m) ↦ rw (h, complete_from) (rw k (rw m (λ out. absurd (cc out))))
      | inr (inr m) ↦ rw (h, complete_from) (rw k (rw m (λ out. absurd (cc out))))
    ]
  ]
]

-- From a valid pool, with more fuel than the plan has candidates, CompleteResult returns, whatever
-- the backends answer.
pub complete_result_returns :
    (fuel : ℕ) (o : Outside) (g : Gateway) (plan : Plan)
    → IsValid g.router.pool
    → length (candidate_accounts g.router plan.model plan.endpoint) < fuel
    → (complete_result fuel o g plan).1 ≢ out_of_fuel
unfolding complete_result
complete_result_returns fuel o g plan v enough = elim (Option-cases (plan.cache_hit)) [
  | inr (rec, hit) ↦ rw (hit, complete_result) (λ out. absurd (cc out))
  | inl missed ↦ elim (Option-cases (plan.account)) [
    | inl nobody ↦ rw (missed, nobody, complete_result) (λ out. absurd (cc out))
    | inr (id, held) ↦
        rw (missed, held, complete_result)
          (complete_from_returns fuel o 0 g plan [] id v (
            omega (
              arith,
              length-keep-le (is_free (id ∷ []))
                  (candidate_accounts g.router plan.model plan.endpoint),
            )))
  ]
]

-- From a valid pool, with more fuel than the plan has candidates, CompleteResult on a plan without
-- an answer from the cache gives back the slot of the plan's account and holds no other, whatever
-- the backends answer, and the pool stays valid.
pub complete_result-Frees :
    (fuel : ℕ) (o : Outside) (g : Gateway) (plan : Plan) (id : Text)
    → IsValid g.router.pool
    → length (candidate_accounts g.router plan.model plan.endpoint) < fuel
    → plan.cache_hit ≡ none
    → plan.account ≡ some id
    → Frees id g.router.pool (complete_result fuel o g plan).0.router.pool
unfolding complete_result
complete_result-Frees fuel o g plan id v enough missed held =
    rw (missed, held, complete_result)
      (complete_from-Frees fuel o 0 g plan [] id v (
        complete_from_returns fuel o 0 g plan [] id v (
          omega (
            arith,
            length-keep-le (is_free (id ∷ []))
                (candidate_accounts g.router plan.model plan.endpoint),
          ))))
