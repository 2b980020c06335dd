-- ===== src/Gateway/Release.antt =====
-- The release of a slot, after a success or a failure.
use ghcp_pool_go.Account
use ghcp_pool_go.Account.{Account}
use ghcp_pool_go.Account.Slots
use ghcp_pool_go.Base.{
  ℕ, ◌-◌, ◌≡◌, ap, ◌∙◌, arith, if◌then◌else◌, Text, text_eq, text_eq_iff, lookup, lookup-insert,
  Option-cases, inl, inr,
}
use ghcp_pool_go.Errors.{BackendError}
use ghcp_pool_go.Gateway.{after_failure, after_success}
use ghcp_pool_go.Pool.{Pool, get, update_account}
use ghcp_pool_go.Pool.Acquire.{in_flight_of}
use ghcp_pool_go.Pool.Valid.{IsValid, update_account-IsValid}

-- One slot of the account `id`.
abbrev pub one_at : Text → Text → ℕ
one_at id j = if text_eq id j then 1 else 0

pub released :
    (id : Text) (f : Account → Account) (p : Pool) (j : Text)
    → ((a : Account) → (f a).in_flight ≡ a.in_flight - 1)
    → in_flight_of (update_account id f p) j ≡ in_flight_of p j - one_at id j
unfolding update_account get
released id f p j drops = elim (Option-cases (lookup id p.accounts)) [
  | inl e ↦ ground (arith, text_eq_iff id j)
  | inr (a, e) ↦ ground (arith, text_eq_iff id j, lookup-insert id j (f a) p.accounts, drops a)
]

pub release_drops : (a : Account) → (Account.release a).in_flight ≡ a.in_flight - 1
unfolding Account.release
release_drops a = ground arith

-- A release keeps an account valid.
pub release_keeps :
    (a : Account)
    → Slots.IsValid a
    → Slots.IsValid (Account.release a) × ((Account.release a).config.id ≡ a.config.id)
unfolding Account.release Account.max_concurrency
release_keeps a v = (ground arith, ground arith)

pub after_failure_frees :
    (id : Text) (e : BackendError) (now : ℕ) (p : Pool) (j : Text)
    → in_flight_of (after_failure id e now p) j ≡ in_flight_of p j - one_at id j
unfolding after_failure Account.record_failure Account.record_request
after_failure_frees id e now p j =
    released id (λ a. Account.release (Account.record_failure a e.message now)) p j
      (λ a. release_drops (Account.record_failure a e.message now) ∙ ground arith)

pub after_success_frees :
    (id : Text) (now : ℕ) (p : Pool) (j : Text)
    → in_flight_of (after_success id now p) j ≡ in_flight_of p j - one_at id j
unfolding after_success Account.record_success Account.record_request
after_success_frees id now p j =
    released id (λ a. Account.release (Account.record_success a now)) p j
      (λ a. release_drops (Account.record_success a now))

pub after_failure-IsValid :
    (id : Text) (e : BackendError) (now : ℕ) (p : Pool)
    → IsValid p
    → IsValid (after_failure id e now p)
unfolding after_failure
after_failure-IsValid id e now p v =
    update_account-IsValid id (λ a. Account.release (Account.record_failure a e.message now)) p
      (λ a w.
        let (valid, config) = Slots.record_failure-IsValid a e.message now w in
        let (valid', config') = release_keeps (Account.record_failure a e.message now) valid in
        (valid', config' ∙ ap (λ c. c.id) config))
      v

pub after_success-IsValid :
    (id : Text) (now : ℕ) (p : Pool) → IsValid p → IsValid (after_success id now p)
unfolding after_success Account.record_success Account.record_request Account.max_concurrency
after_success-IsValid id now p v =
    update_account-IsValid id (λ a. Account.release (Account.record_success a now)) p
      (λ a w.
        let (valid', config') =
          release_keeps (Account.record_success a now)
            (record { within = w.within; limiter = w.limiter }) in
        (valid', config'))
      v
