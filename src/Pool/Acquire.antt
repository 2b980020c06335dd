-- ===== src/Pool/Acquire.antt =====
-- PoolManager.TryAcquire, as one step: what it takes, what it leaves, and when it succeeds.
use ghcp_pool_go.Account
use ghcp_pool_go.Account.{Account}
use ghcp_pool_go.Account.Slots
use ghcp_pool_go.Base.{
  ℕ, ◌+◌, ◌≡◌, ap, ◌∙◌, ◌↔◌, true, ◌&&◌, none, some, arith, if◌then◌else◌, Text, text_eq,
  text_eq_iff, lookup, insert, lookup-insert, Option-cases, inl, inr,
}
use ghcp_pool_go.Bucket
use ghcp_pool_go.Bucket.{Bucket}
use ghcp_pool_go.Bucket.Refill.{consume-IsValid, consume-available}
use ghcp_pool_go.Pool.{Pool, get, try_acquire}
use ghcp_pool_go.Pool.Valid.{IsValid, IsEntry-lookup, insert-IsValid}

-- From a well-formed pool a request is let in exactly where the account is there and available and
-- the global limit has a token: Available, Consume and the account's own TryAcquire agree.
pub acquires_iff :
    (p : Pool) (id : Text) (now : ℕ)
    → IsValid p
    → ((try_acquire p id now).1 ≡ true) ↔ (
        (a : Account) × (get p id ≡ some a)
        × ((Account.available a now).1 ≡ true)
        × ((Bucket.available p.global_rate_limiter now).1 ≡ true))
unfolding try_acquire get
acquires_iff p id now v = elim (Option-cases (lookup id p.accounts)) [
  | inl e ↦ ((λ h. absurd (ground arith)), λ (b, f, open_now, allowed). absurd (ground arith))
  | inr (a, e) ↦
      let entry = IsEntry-lookup id p.accounts a v.entries e in
      let again = Slots.try_acquire-available a now entry.valid in
      let same = consume-available p.global_rate_limiter now in
      (
        (λ h. (a, e, ground arith, ground arith)),
        λ (b, f, open_now, allowed).
            let same_account : b ≡ a = ground arith in
            let open_here = rw same_account at open_now in ground arith,
      )
]

-- TryAcquire keeps a well-formed pool well formed, whether it takes a slot or refuses.
pub try_acquire-IsValid :
    (p : Pool) (id : Text) (now : ℕ) → IsValid p → IsValid (try_acquire p id now).0
unfolding try_acquire get
try_acquire-IsValid p id now v = elim (Option-cases (lookup id p.accounts)) [
  | inl e ↦ rw (e, try_acquire) v
  | inr (a, e) ↦
      let entry = IsEntry-lookup id p.accounts a v.entries e in
      let (open_valid, open_config) = Slots.available_keeps a now entry.valid in
      let (taken_valid, taken_config) =
        Slots.try_acquire_keeps (Account.available a now).0 now open_valid in
      let checked =
        insert-IsValid p id (Account.available a now).0
          (record { named = ap (λ c. c.id) open_config ∙ entry.named; valid = open_valid }) v in
      let q = record p { accounts = insert id (Account.available a now).0 p.accounts } in
      let g = (Bucket.consume p.global_rate_limiter now).0 in
      let paid : IsValid (record q { global_rate_limiter = g }) = record {
        unique = checked.unique;
        entries = checked.entries;
        limiter = consume-IsValid p.global_rate_limiter now v.limiter;
      } in
      let taken =
        insert-IsValid (record q { global_rate_limiter = g }) id
          (Account.try_acquire (Account.available a now).0 now).0
          (record {
            named = ap (λ c. c.id) taken_config ∙ (ap (λ c. c.id) open_config ∙ entry.named);
            valid = taken_valid;
          })
          paid in
      ground (arith, checked, paid, taken)
]

abbrev pub in_flight_of : Pool → Text → ℕ
in_flight_of p id = elim (get p id) [ none ↦ 0 | some a ↦ a.in_flight ]

-- One slot of one account: what is in flight grows by one where the answer is yes, at that account
-- only, and stays everywhere else.
pub in_flight_of-try_acquire :
    (p : Pool) (id j : Text) (now : ℕ)
    → in_flight_of (try_acquire p id now).0 j
      ≡ in_flight_of p j + (if text_eq id j && (try_acquire p id now).1 then 1 else 0)
unfolding try_acquire get
in_flight_of-try_acquire p id j now = elim (Option-cases (lookup id p.accounts)) [
  | inl e ↦ ground arith
  | inr (a, e) ↦ ground (
    arith,
    text_eq_iff id j,
    lookup-insert id j (Account.available a now).0 p.accounts,
    lookup-insert id j (Account.try_acquire (Account.available a now).0 now).0
        (insert id (Account.available a now).0 p.accounts),
    Slots.available_account a now,
    Slots.in_flight-try_acquire (Account.available a now).0 now,
  )
]
