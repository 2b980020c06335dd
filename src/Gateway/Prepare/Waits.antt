-- ===== src/Gateway/Prepare/Waits.antt =====
-- internal/gateway/gateway.go: the slots that a request holds after PrepareWithWait, and when its
-- loop ends.
use ghcp_pool_go.Base.{
  ℕ, zero, suc, ◌+◌, ◌≤◌, ◌<◌, ◌≡◌, ◌≢◌, refl, sym, ◌∙◌, subst, inl, inr, true, false, arith, ltb,
  Text, Bool-cases, ltb→lt, ◌≤◌, lt→ltb, true_ne_false,
}
use ghcp_pool_go.Gateway.{Gateway}
use ghcp_pool_go.Gateway.Prepare.{
  PrepareSettings, PrepareRequest, Tuning, Prepared, prepared, invalid_effort, invalid_tier,
  not_selected, Waited, answered, cancelled, out_of_rounds, is_final, Rounds, prepare, wait_from,
  prepare_with_wait,
}
use ghcp_pool_go.Pool.{Pool}
use ghcp_pool_go.Pool.Acquire.{in_flight_of}
use ghcp_pool_go.Pool.Valid.{IsValid}
use ghcp_pool_go.Gateway.Prepare.Held.{slots_of, Holds, prepare-Holds}

abbrev result_slots : Waited → Text → ℕ
result_slots (answered p) j = slots_of p j
result_slots w j = 0

pub record HoldsAfter (p : Pool) (r : Gateway × Waited) : Type 0 where
  pub valid : IsValid r.0.router.pool
  pub flights : (j : Text) → in_flight_of r.0.router.pool j ≡ in_flight_of p j + result_slots r.1 j

not_final-slots : (p : Prepared) → is_final p ≡ false → (j : Text) → slots_of p j ≡ 0
not_final-slots (prepared plan) h j = absurd (cc)
not_final-slots (invalid_effort e) h j = refl
not_final-slots (invalid_tier e) h j = refl
not_final-slots (not_selected s) h j = refl

module _ (rounds : Rounds) (deadline : ℕ) (settings : PrepareSettings) (make_key : Tuning → Text)
    (req : PrepareRequest) (control : Text) where
  wait_from-HoldsAfter :
      (fuel i : ℕ) (g : Gateway)
      → IsValid g.router.pool
      → HoldsAfter g.router.pool (wait_from fuel rounds deadline i settings make_key g req control)
  unfolding wait_from
  wait_from-HoldsAfter zero i g v = record { valid = v; flights = λ j. omega arith }
  wait_from-HoldsAfter (suc fuel) i g v = elim (Bool-cases (is_final r.1)) [
    | inl y ↦ rw (wait_from, y) (record { valid = once.valid; flights = once.flights })
    | inr f ↦ elim (Bool-cases (ltb deadline (rounds.checked i))) [
      | inl y ↦ rw (wait_from, f) (rw y (record { valid = once.valid; flights = once.flights }))
      | inr n ↦ elim (Bool-cases (rounds.waits i)) [
        | inr c ↦
            rw (wait_from, f)
              (rw n (
                rw c (record {
                  valid = once.valid;
                  flights = λ j. omega (arith, once.flights j, not_final-slots r.1 f j);
                })))
        | inl w ↦
            rw (wait_from, f)
              (rw n (rw w (again f (wait_from-HoldsAfter fuel (i + 1) r.0 once.valid))))
      ]
    ]
  ]
    where
      r : Gateway × Prepared
      r = prepare settings make_key g req control (rounds.clock i)

      once : Holds g.router.pool r
      once = prepare-Holds settings make_key g req control (rounds.clock i) v

      again :
          is_final r.1 ≡ false
          → HoldsAfter r.0.router.pool
              (wait_from fuel rounds deadline (i + 1) settings make_key r.0 req control)
          → HoldsAfter g.router.pool
              (wait_from fuel rounds deadline (i + 1) settings make_key r.0 req control)
      again f h = record {
        valid = h.valid;
        flights = λ j. omega (arith, h.flights j, once.flights j, not_final-slots r.1 f j);
      }

  answered_ne : (p : Prepared) → answered p ≢ out_of_rounds
  answered_ne p h = cc

  -- A round whose test comes after the deadline is the last.
  wait_from_ends :
      (fuel i n : ℕ) (g : Gateway)
      → deadline < rounds.checked (i + n)
      → n < fuel
      → (wait_from fuel rounds deadline i settings make_key g req control).1 ≢ out_of_rounds
  unfolding wait_from
  wait_from_ends zero i n g late enough = absurd (omega (arith, enough))
  wait_from_ends (suc fuel) i n g late enough = elim (Bool-cases (is_final r.1)) [
    | inl y ↦ rw (wait_from, y) (answered_ne r.1)
    | inr f ↦ elim (Bool-cases (ltb deadline (rounds.checked i))) [
      | inl y ↦ rw (wait_from, f) (rw y (answered_ne r.1))
      | inr early ↦ elim (Bool-cases (rounds.waits i)) [
        | inr c ↦ rw (wait_from, f) (rw early (rw c (λ h. cc)))
        | inl w ↦
            rw (wait_from, f)
              (rw early (
                rw w (
                  next_round n (λ m l e. wait_from_ends fuel (i + 1) m r.0 l e) late enough early)))
      ]
    ]
  ]
    where
      r : Gateway × Prepared
      r = prepare settings make_key g req control (rounds.clock i)

      next_round :
          (n : ℕ)
          → ((m : ℕ)
              → deadline < rounds.checked (i + 1 + m)
              → m < fuel
              → (wait_from fuel rounds deadline (i + 1) settings make_key r.0 req control).1
                ≢ out_of_rounds)
          → deadline < rounds.checked (i + n)
          → n < suc fuel
          → ltb deadline (rounds.checked i) ≡ false
          → (wait_from fuel rounds deadline (i + 1) settings make_key r.0 req control).1
            ≢ out_of_rounds
      next_round zero ih late enough early = absurd (
          true_ne_false (
            sym (
              lt→ltb deadline (rounds.checked i)
                (subst (λ k. deadline < rounds.checked k) (omega arith) late))
            ∙ early))
      next_round (suc m) ih late enough early =
          ih m (subst (λ k. deadline < rounds.checked k) (omega arith) late) (omega (arith, enough))

  -- What the loop answers before the deadline has passed is final.
  wait_from_early :
      (fuel i : ℕ) (g : Gateway) (p : Prepared)
      → ((n : ℕ) → n < fuel → rounds.checked (i + n) ≤ deadline)
      → (wait_from fuel rounds deadline i settings make_key g req control).1 ≡ answered p
      → is_final p ≡ true
  unfolding wait_from
  wait_from_early zero i g p early h = absurd (answered_ne p (sym h))
  wait_from_early (suc fuel) i g p early h = elim (Bool-cases (is_final r.1)) [
    | inl y ↦ subst (λ q. is_final q ≡ true) (same r.1 (rw (wait_from, y) at h)) y
    | inr f ↦ elim (Bool-cases (ltb deadline (rounds.checked i))) [
      | inl y ↦ absurd (in_time (ltb→lt deadline (rounds.checked i) y))
      | inr l ↦ elim (Bool-cases (rounds.waits i)) [
        | inr c ↦ absurd (gone (rw c at (rw l at (rw (wait_from, f) at h))))
        | inl w ↦
            wait_from_early fuel (i + 1) r.0 p later (rw w at (rw l at (rw (wait_from, f) at h)))
      ]
    ]
  ]
    where
      r : Gateway × Prepared
      r = prepare settings make_key g req control (rounds.clock i)

      same : (q : Prepared) → answered q ≡ answered p → q ≡ p
      same q e = cc

      gone : cancelled ≡ answered p → ⊥
      gone e = cc

      in_time : deadline < rounds.checked i → ⊥
      in_time late =
          let now : rounds.checked i ≤ deadline =
            subst (λ m. rounds.checked m ≤ deadline) (omega arith) (early 0 (omega arith)) in
          omega (arith, late, now)

      later : (n : ℕ) → n < fuel → rounds.checked (i + 1 + n) ≤ deadline
      later n l =
          subst (λ m. rounds.checked m ≤ deadline) (omega arith) (early (suc n) (omega (arith, l)))

module _ (rounds : Rounds) (wait : ℕ) (settings : PrepareSettings) (make_key : Tuning → Text)
    (g : Gateway) (req : PrepareRequest) (control : Text) where
  abbrev pub waited : ℕ → Gateway × Waited
  waited fuel = prepare_with_wait fuel rounds wait settings make_key g req control

  -- From a valid pool, PrepareWithWait holds one slot of the account of the plan that it returns and
  -- none otherwise, however many rounds it has tried; the pool stays valid.
  pub prepare_with_wait-HoldsAfter :
      (fuel : ℕ) → IsValid g.router.pool → HoldsAfter g.router.pool (waited fuel)
  unfolding prepare_with_wait
  prepare_with_wait-HoldsAfter fuel v =
      wait_from-HoldsAfter rounds (rounds.started + wait) settings make_key req control fuel 0 g v

  -- PrepareWithWait returns: if the test of the deadline in the n-th round is the first that comes
  -- after the deadline, it takes n + 1 rounds at most. What it answers before that round is a plan, that
  -- there is no such account, that the rate is limited, or that the choice of an account panics; so it
  -- goes on to try a request with an invalid effort or tier until the deadline.
  pub prepare_with_wait_returns :
      (n : ℕ) (p : Prepared)
      → rounds.started + wait < rounds.checked n
      → ((i : ℕ) → i < n → rounds.checked i ≤ rounds.started + wait)
      → ((waited (suc n)).1 ≢ out_of_rounds) × ((waited n).1 ≡ answered p → is_final p ≡ true)
  unfolding prepare_with_wait
  prepare_with_wait_returns n p late early = (
    wait_from_ends rounds (rounds.started + wait) settings make_key req control (suc n) 0 n g
        (subst (λ k. rounds.started + wait < rounds.checked k) (omega arith) late) (omega arith),
    wait_from_early rounds (rounds.started + wait) settings make_key req control n 0 g p
        (λ i l. subst (λ k. rounds.checked k ≤ rounds.started + wait) (omega arith) (early i l)),
  )
