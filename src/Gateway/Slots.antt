-- ===== src/Gateway/Slots.antt =====
-- CompleteResult gives every slot back that it holds, whatever the backends answer.
use ghcp_pool_go.Base.{
  ℕ, zero, suc, ◌+◌, ◌-◌, ◌≡◌, ◌≢◌, ◌⊎◌, refl, ap, sym, subst, ◌∙◌, false, List, ◌∷◌, arith, Text,
  Bool-cases, inl, inr,
}
use ghcp_pool_go.Errors.{BackendError, is_non_retryable_backend_error}
use ghcp_pool_go.Gateway.{
  Gateway, Plan, Outside, out_of_fuel, after_failure, succeed, complete_from,
}
use ghcp_pool_go.Gateway.Release.{
  one_at, after_failure_frees, after_success_frees, after_failure-IsValid, after_success-IsValid,
}
use ghcp_pool_go.Pool.{Pool}
use ghcp_pool_go.Pool.Acquire.{in_flight_of}
use ghcp_pool_go.Pool.Valid.{IsValid}
use ghcp_pool_go.Results.{ChatResult, Reply, answers, fails}
use ghcp_pool_go.Router.{Router, Attempt, took, exhausted, panicked, select_excluding}
use ghcp_pool_go.Router.Found.{select_excluding-Ends}
use ghcp_pool_go.Router.Selecting.{taken}

-- The slots that are left once one of `id` is given back; the pool is valid.
pub record Frees (id : Text) (p q : Pool) : Type 0 where
  pub valid : IsValid q
  pub flights : (j : Text) → in_flight_of q j ≡ in_flight_of p j - one_at id j

succeed-Frees :
    (o : Outside) (i : ℕ) (g : Gateway) (plan : Plan) (id : Text) (result : ChatResult)
    → IsValid g.router.pool
    → Frees id g.router.pool (succeed o i g plan id result).0.router.pool
unfolding succeed
succeed-Frees o i g plan id result v = record {
  valid = after_success-IsValid id (o.clock i) g.router.pool v;
  flights = after_success_frees id (o.clock i) g.router.pool;
}

pub Reply-cases :
    (r : Reply)
    → ((result : ChatResult) × (r ≡ answers result)) ⊎ ((e : BackendError) × (r ≡ fails e))
Reply-cases (answers result) = inl (result, refl)
Reply-cases (fails e) = inr (e, refl)

pub Attempt-cases :
    (a : Attempt) → ((id : Text) × (a ≡ took id)) ⊎ ((a ≡ exhausted) ⊎ (a ≡ panicked))
Attempt-cases (took id) = inl (id, refl)
Attempt-cases exhausted = inr (inl refl)
Attempt-cases panicked = inr (inr refl)

-- The gateway with the router that SelectExcluding leaves after the failure of `id`.
abbrev pub retried :
    Outside → ℕ → Gateway → Plan → List Text → Text → BackendError → Router × Attempt
retried o i g plan exclude id e =
    select_excluding (record (g.router) { pool = after_failure id e (o.clock i) g.router.pool })
      plan.model (id ∷ exclude) plan.endpoint (o.clock i)

-- How the loop goes on after a failure that another account may not have.
pub complete_from_took :
    (fuel : ℕ) (o : Outside) (i : ℕ) (g : Gateway) (plan : Plan) (exclude : List Text)
    (id next : Text) (e : BackendError)
    → o.chat i id ≡ fails e
    → is_non_retryable_backend_error e ≡ false
    → (retried o i g plan exclude id e).1 ≡ took next
    → complete_from (suc fuel) o i g plan exclude id
      ≡ complete_from fuel o
          (i + 1)
          (record g { router = (retried o i g plan exclude id e).0 })
          plan
          (id ∷ exclude)
          next
unfolding complete_from
complete_from_took fuel o i g plan exclude id next e h k m =
    rw (h, complete_from) (rw k (rw m refl))

-- A failure and a retry that took a slot at `next` leave one less at `id` and one more at `next`.
pub retried-Frees :
    (o : Outside) (i : ℕ) (g : Gateway) (plan : Plan) (exclude : List Text) (id : Text)
    (e : BackendError)
    → IsValid g.router.pool
    → IsValid (retried o i g plan exclude id e).0.pool
      × ((j : Text)
          → in_flight_of (retried o i g plan exclude id e).0.pool j
            ≡ in_flight_of g.router.pool j
              - one_at id j
              + taken (retried o i g plan exclude id e).1 j)
retried-Frees o i g plan exclude id e v =
    let failed : Router = record (g.router) {
      pool = after_failure id e (o.clock i) g.router.pool;
    } in
    let ends =
      select_excluding-Ends failed plan.model (id ∷ exclude) plan.endpoint (o.clock i)
        (after_failure-IsValid id e (o.clock i) g.router.pool v) in
    (
      ends.valid,
      λ j.
          ends.flights j
          ∙ ap (λ n. n + taken (retried o i g plan exclude id e).1 j)
              (after_failure_frees id e (o.clock i) g.router.pool j),
    )

failed-Frees :
    (id next : Text) (p q r : Pool)
    → ((j : Text) → in_flight_of q j ≡ in_flight_of p j - one_at id j + one_at next j)
    → Frees next q r
    → Frees id p r
failed-Frees id next p q r h f = record {
  valid = f.valid;
  flights = λ j. omega (arith, f.flights j, h j);
}

-- The loop of CompleteResult holds one slot, of its current account. From a valid pool, whenever it
-- returns, whether with an answer, an error or a panic, that slot is given back and no other is
-- held, and the pool is valid.
pub complete_from-Frees :
    (fuel : ℕ) (o : Outside) (i : ℕ) (g : Gateway) (plan : Plan) (exclude : List Text) (id : Text)
    → IsValid g.router.pool
    → (complete_from fuel o i g plan exclude id).1 ≢ out_of_fuel
    → Frees id g.router.pool (complete_from fuel o i g plan exclude id).0.router.pool
unfolding complete_from
complete_from-Frees zero o i g plan exclude id v returns = absurd (returns refl)
complete_from-Frees (suc fuel) o i g plan exclude id v returns = elim (Reply-cases (o.chat i id)) [
  | inl (result, h) ↦ rw (h, complete_from) (succeed-Frees o i g plan id result v)
  | inr (e, h) ↦ elim (Bool-cases (is_non_retryable_backend_error e)) [
    | inl fatal ↦
        rw (h, complete_from)
          (rw fatal (record {
            valid = after_failure-IsValid id e (o.clock i) g.router.pool v;
            flights = after_failure_frees id e (o.clock i) g.router.pool;
          }))
    | inr k ↦
        let again = retried-Frees o i g plan exclude id e v in
        elim (Attempt-cases (retried o i g plan exclude id e).1) [
          | inl (next, m) ↦
              let g' : Gateway = record g { router = (retried o i g plan exclude id e).0 } in
              let same = complete_from_took fuel o i g plan exclude id next e h k m in
              subst (λ z. Frees id g.router.pool z.0.router.pool) (sym same)
                (failed-Frees id next g.router.pool g'.router.pool _
                  (λ j.
                    again.1 j ∙ ap (λ a. in_flight_of g.router.pool j - one_at id j + taken a j) m)
                  (complete_from-Frees fuel o (i + 1) g' plan (id ∷ exclude) next again.0
                    (λ out. returns (ap (λ z. z.1) same ∙ out))))
          | inr (inl m) ↦
              rw (h, complete_from)
                (rw k (
                  rw m (record {
                    valid = again.0;
                    flights = λ j. omega (arith, again.1 j, ap (λ a. taken a j) m);
                  })))
          | inr (inr m) ↦
              rw (h, complete_from)
                (rw k (
                  rw m (record {
                    valid = again.0;
                    flights = λ j. omega (arith, again.1 j, ap (λ a. taken a j) m);
                  })))
        ]
  ]
]
