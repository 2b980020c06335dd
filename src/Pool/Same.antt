-- ===== src/Pool/Same.antt =====
-- Calls that leave what the guards of a request look at: the accounts that are available, the
-- requests in flight and the limit of the pool.
use ghcp_pool_go.Account
use ghcp_pool_go.Account.{Account}
use ghcp_pool_go.Account.Slots
use ghcp_pool_go.Base.{
  ℕ, ◌≡◌, refl, ap, ◌∙◌, Bool, false, Option, none, some, arith, Text, text_eq_iff, lookup, insert,
  lookup-insert, Option-cases, Bool-cases, inl, inr,
}
use ghcp_pool_go.Bucket
use ghcp_pool_go.Bucket.{Bucket}
use ghcp_pool_go.Bucket.Refill.{
  IsValid?, consume-IsValid, retry_after-IsValid, available-retry_after, available-consume,
}
use ghcp_pool_go.Pool.{Pool, get, update_account, try_acquire, global_retry_after}
use ghcp_pool_go.Pool.Acquire.{in_flight_of}
use ghcp_pool_go.Pool.Valid.{IsValid, IsEntry-lookup, insert-IsValid}

abbrev pub open_for : ℕ → Pool → Text → Bool
open_for now p id = elim (get p id) [ none ↦ false | some a ↦ (Account.available a now).1 ]

abbrev pub global_open : ℕ → Pool → Bool
global_open now p = (Bucket.available p.global_rate_limiter now).1

pub record Same (now : ℕ) (p q : Pool) : Type 0 where
  pub valid : IsValid q
  pub flights : (id : Text) → in_flight_of q id ≡ in_flight_of p id
  pub opens : (id : Text) → open_for now q id ≡ open_for now p id
  pub global : global_open now q ≡ global_open now p

pub Same-refl : (now : ℕ) (p : Pool) → IsValid p → Same now p p
Same-refl now p v = record { valid = v; flights = λ id. refl; opens = λ id. refl; global = refl }

pub Same-trans : (now : ℕ) (p q r : Pool) → Same now p q → Same now q r → Same now p r
Same-trans now p q r s t = record {
  valid = t.valid;
  flights = λ id. t.flights id ∙ s.flights id;
  opens = λ id. t.opens id ∙ s.opens id;
  global = t.global ∙ s.global;
}

-- What a change of one account keeps of it.
pub record Still (now : ℕ) (a b : Account) : Type 0 where
  pub valid : Slots.IsValid b
  pub config : b.config ≡ a.config
  pub flight : b.in_flight ≡ a.in_flight
  pub answer : (Account.available b now).1 ≡ (Account.available a now).1

pub insert-Same :
    (now : ℕ) (p : Pool) (id : Text) (a b : Account)
    → IsValid p
    → get p id ≡ some a
    → Still now a b
    → Same now p (record p { accounts = insert id b p.accounts })
unfolding get
insert-Same now p id a b v e s =
    let entry = IsEntry-lookup id p.accounts a v.entries e in
    record {
      valid =
          insert-IsValid p id b
            (record { named = ap (λ c. c.id) s.config ∙ entry.named; valid = s.valid }) v;
      flights = λ j. ground (arith, text_eq_iff id j, lookup-insert id j b p.accounts, s.flight);
      opens = λ j. ground (arith, text_eq_iff id j, lookup-insert id j b p.accounts, s.answer);
      global = refl;
    }

pub update_account-Same :
    (now : ℕ) (id : Text) (f : Account → Account) (p : Pool)
    → ((a : Account) → Slots.IsValid a → Still now a (f a))
    → IsValid p
    → Same now p (update_account id f p)
unfolding update_account get
update_account-Same now id f p still v = elim (Option-cases (lookup id p.accounts)) [
  | inl e ↦ rw (e, update_account) (Same-refl now p v)
  | inr (a, e) ↦
      let entry = IsEntry-lookup id p.accounts a v.entries e in
      rw (e, update_account) (insert-Same now p id a (f a) v e (still a entry.valid))
]

-- Another limiter of the pool that gives the same answer.
limiter-Same :
    (now : ℕ) (p q : Pool) (b : Option Bucket)
    → Same now p q
    → IsValid? b
    → (Bucket.available b now).1 ≡ global_open now q
    → Same now p (record q { global_rate_limiter = b })
unfolding get
limiter-Same now p q b s w e = record {
  valid = record { unique = s.valid.unique; entries = s.valid.entries; limiter = w };
  flights = s.flights;
  opens = s.opens;
  global = e ∙ s.global;
}

pub global_retry_after-Same :
    (now : ℕ) (p : Pool) → IsValid p → Same now p (global_retry_after p now).0
unfolding global_retry_after
global_retry_after-Same now p v =
    limiter-Same now p p (Bucket.retry_after p.global_rate_limiter now).0 (Same-refl now p v)
      (retry_after-IsValid p.global_rate_limiter now v.limiter)
      (available-retry_after p.global_rate_limiter now v.limiter)

available-Still :
    (now : ℕ) (a : Account) → Slots.IsValid a → Still now a (Account.available a now).0
available-Still now a v = record {
  valid = (Slots.available_keeps a now v).0;
  config = (Slots.available_keeps a now v).1;
  flight = (Slots.available_account a now).0;
  answer = Slots.available_again a now v;
}

-- A refusal changes no answer: the account was not available, or the pool's limit had no token.
pub try_acquire-Same :
    (now : ℕ) (p : Pool) (id : Text)
    → IsValid p
    → (try_acquire p id now).1 ≡ false
    → Same now p (try_acquire p id now).0
unfolding try_acquire get
try_acquire-Same now p id v h = elim (Option-cases (lookup id p.accounts)) [
  | inl e ↦ rw (e, try_acquire) (Same-refl now p v)
  | inr (a, e) ↦
      let entry = IsEntry-lookup id p.accounts a v.entries e in
      let checked =
        insert-Same now p id a (Account.available a now).0 v e
          (available-Still now a entry.valid) in
      elim (Bool-cases (Account.available a now).1) [
        | inr shut ↦ rw (e, try_acquire) (rw shut checked)
        | inl open_now ↦
            let again = Slots.try_acquire-available a now entry.valid open_now in
            let refused : (Bucket.consume p.global_rate_limiter now).1 ≡ false = ground arith in
            rw (e, try_acquire)
              (rw (open_now, refused)
                (limiter-Same now p _ (Bucket.consume p.global_rate_limiter now).0 checked
                  (consume-IsValid p.global_rate_limiter now v.limiter)
                  (available-consume p.global_rate_limiter now v.limiter refused)))
      ]
]
