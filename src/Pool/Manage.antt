-- ===== src/Pool/Manage.antt =====
-- The set of accounts: what adding, removing and starting accounts does to it.
use ghcp_pool_go.Account
use ghcp_pool_go.Account.{Account}
use ghcp_pool_go.Base.{
  ℕ, ◌≡◌, refl, ◌↔◌, Bool, true, false, none, some, [], ◌∷◌, ◌++◌, arith, if◌then◌else◌, Text, text,
  ap, text_eq, text_eq_iff, text_eq_refl, lookup, delete, lookup-insert, lookup-delete, Result, ok,
  err, Option-cases, Result-cases, inl, inr, ◌∙◌,
}
use ghcp_pool_go.Config.{AccountConfig, is_enabled}
use ghcp_pool_go.Pool.Valid.{
  IsValid, installed, install_cases, installed-IsValid, delete-IsValid, start_if-IsValid,
}
use ghcp_pool_go.Pool.{
  Pool, Services, get, update_account, new_account, start_account, start_if, add_account,
  remove_account,
}

-- Starting an account touches no other.
get-start_account :
    (s : Services) (p : Pool) (id j : Text) (now : ℕ)
    → text_eq id j ≡ false
    → get (start_account s p id now).0 j ≡ get p j
unfolding start_account get update_account
get-start_account s p id j now ne = elim (Option-cases (lookup id p.accounts)) [
  | inl e ↦ rw (e, start_account) refl
  | inr (a, e) ↦ elim (Result-cases (s.start_backend a.config)) [
    | inl (m, f) ↦
        ground (
          arith,
          lookup-insert id j (Account.record_failure a (text "start: " ++ m) now) p.accounts,
        )
    | inr (u, f) ↦ ground (arith, lookup-insert id j (record a { started = true }) p.accounts)
  ]
]

configured-start_account :
    (s : Services) (p : Pool) (id : Text) (now : ℕ)
    → ((start_account s p id now).0.configured ≡ p.configured)
      × ((start_account s p id now).0.global_rate_limiter ≡ p.global_rate_limiter)
unfolding start_account update_account
configured-start_account s p id now = (ground arith, ground arith)

get-start_if :
    (s : Services) (on : Bool) (p : Pool) (id j : Text) (now : ℕ)
    → text_eq id j ≡ false
    → get (start_if s on p id now).0 j ≡ get p j
unfolding start_if
get-start_if s true p id j now ne = get-start_account s p id j now ne
get-start_if s false p id j now ne = refl

get-start_if_self :
    (s : Services) (on : Bool) (p : Pool) (id : Text) (now : ℕ) (a : Account)
    → get p id ≡ some a
    → (start_if s on p id now).1 ≡ ok tt
    → get (start_if s on p id now).0 id
      ≡ some (record a { started = if on then true else a.started })
unfolding start_if start_account get update_account
get-start_if_self s true p id now a e h =
    ground (arith, lookup-insert id id (record a { started = true }) p.accounts, text_eq_refl id)
get-start_if_self s false p id now a e h = e

configured-start_if :
    (s : Services) (on : Bool) (p : Pool) (id : Text) (now : ℕ)
    → ((start_if s on p id now).0.configured ≡ p.configured)
      × ((start_if s on p id now).0.global_rate_limiter ≡ p.global_rate_limiter)
unfolding start_if
configured-start_if s true p id now = configured-start_account s p id now
configured-start_if s false p id now = (refl, refl)

-- The four ways through AddAccount.
data Adds (s : Services) (p : Pool) (c : AccountConfig) (now : ℕ) (r : Pool × Result (Unit {0}))
    : Type 0 where
  taken : (a : Account) (m : Text) → get p c.id ≡ some a → r ≡ (p, err m) → Adds s p c now r
  unbuilt : (m : Text) → get p c.id ≡ none → r ≡ (p, err m) → Adds s p c now r
  unstarted :
      (home m : Text)
      → get p c.id ≡ none
      → (let q = (start_if s (is_enabled c) (installed p c home now) c.id now).0 in
          r ≡ (record q { accounts = delete c.id q.accounts }, err m))
      → Adds s p c now r
  added :
      (home : Text)
      → get p c.id ≡ none
      → (start_if s (is_enabled c) (installed p c home now) c.id now).1 ≡ ok tt
      → (let q = (start_if s (is_enabled c) (installed p c home now) c.id now).0 in
          r ≡ (record q { configured = q.configured ++ c ∷ [] }, ok tt))
      → Adds s p c now r

add_account-Adds :
    (s : Services) (p : Pool) (c : AccountConfig) (now : ℕ) → Adds s p c now (add_account s p c now)
unfolding add_account
add_account-Adds s p c now = elim (Option-cases (get p c.id)) [
  | inr (a, e) ↦
      taken a (text "account '" ++ c.id ++ text "' already exists") e (rw (e, add_account))
  | inl e ↦ elim (install_cases s p c now) [
    | inl (m, f) ↦ unbuilt m e (rw (e, add_account) (rw f refl))
    | inr (home, f) ↦
        elim (Result-cases (start_if s (is_enabled c) (installed p c home now) c.id now).1) [
          | inl (m, g) ↦ unstarted home m e (rw (e, add_account) (rw f (rw g refl)))
          | inr (u, g) ↦ added home e g (rw (e, add_account) (rw f (rw g refl)))
        ]
  ]
]

-- AddAccount keeps a well-formed pool well formed, whether it succeeds or fails.
pub add_account-IsValid :
    (s : Services) (p : Pool) (c : AccountConfig) (now : ℕ)
    → IsValid p
    → IsValid (add_account s p c now).0
add_account-IsValid s p c now v = elim (add_account-Adds s p c now) [
  | taken a m e f ↦ rw f v
  | unbuilt m e f ↦ rw f v
  | unstarted home m e f ↦ rw f (delete-IsValid _ c.id (started home))
  | added home e g f ↦ rw f (ground (arith, started home))
]
  where
    started :
        (home : Text) → IsValid (start_if s (is_enabled c) (installed p c home now) c.id now).0
    started home =
        start_if-IsValid s (is_enabled c) (installed p c home now) c.id now
          (installed-IsValid p c home now v)

get-delete :
    (p : Pool) (id j : Text)
    → get (record p { accounts = delete id p.accounts }) j
      ≡ (if text_eq id j then none else get p j)
unfolding get
get-delete p id j = lookup-delete id j p.accounts

get-installed :
    (p : Pool) (c : AccountConfig) (home : Text) (now : ℕ) (j : Text)
    → get (installed p c home now) j
      ≡ (if text_eq c.id j then some (new_account p c home now) else get p j)
unfolding get
get-installed p c home now j = lookup-insert c.id j (new_account p c home now) p.accounts

-- An account that cannot be added, because its id is taken, its backend cannot be built or it does
-- not start, leaves the pool with the accounts, the configuration and the limiter that it had.
pub add_account_fails :
    (s : Services) (p : Pool) (c : AccountConfig) (now : ℕ) (m : Text)
    → (add_account s p c now).1 ≡ err m
    → ((j : Text) → get (add_account s p c now).0 j ≡ get p j)
      × ((add_account s p c now).0.configured ≡ p.configured)
      × ((add_account s p c now).0.global_rate_limiter ≡ p.global_rate_limiter)
unfolding add_account
add_account_fails s p c now m h = elim (add_account-Adds s p c now) [
  | taken a m e f ↦ rw f ((λ j. refl), refl, refl)
  | unbuilt m e f ↦ rw f ((λ j. refl), refl, refl)
  | unstarted home m e f ↦
      rw f
        (λ j. others home e j, (configured-start_if s _ _ _ _).0, (configured-start_if s _ _ _ _).1)
  | added home e g f ↦ absurd (cc (ap (λ r. r.1) f))
]
  where
    others :
        (home : Text)
        → get p c.id ≡ none
        → (j : Text)
        → (let q = (start_if s (is_enabled c) (installed p c home now) c.id now).0 in
            get (record q { accounts = delete c.id q.accounts }) j)
          ≡ get p j
    others home e j =
        let q = (start_if s (is_enabled c) (installed p c home now) c.id now).0 in
        ground (
          arith,
          get-delete q c.id j,
          text_eq_iff c.id j,
          get-start_if s (is_enabled c) (installed p c home now) c.id j now,
          get-installed p c home now j,
        )

-- An account that is added is there under its id, with its configuration and nothing in flight.
pub add_account_adds :
    (s : Services) (p : Pool) (c : AccountConfig) (now : ℕ)
    → (add_account s p c now).1 ≡ ok tt
    → ((get p c.id) ≡ none)
      × ((a : Account) × (get (add_account s p c now).0 c.id ≡ some a)
          × (a.config ≡ c)
          × (a.in_flight ≡ 0)
          × (a.started ≡ is_enabled c))
      × ((j : Text) → text_eq c.id j ≡ false → get (add_account s p c now).0 j ≡ get p j)
      × ((add_account s p c now).0.configured ≡ p.configured ++ c ∷ [])
unfolding add_account
add_account_adds s p c now h = elim (add_account-Adds s p c now) [
  | taken a m e f ↦ absurd (cc (ap (λ r. r.1) f))
  | unbuilt m e f ↦ absurd (cc (ap (λ r. r.1) f))
  | unstarted home m e f ↦ absurd (cc (ap (λ r. r.1) f))
  | added home e g f ↦ rw f (
    e,
    (
      record (new_account p c home now) { started = if is_enabled c then true else false },
      get-start_if_self s (is_enabled c) (installed p c home now) c.id now
          (new_account p c home now) (get-installed p c home now c.id ∙ rw (text_eq_refl c.id)) g,
      refl,
      refl,
      ground arith,
    ),
    λ j ne.
        get-start_if s (is_enabled c) (installed p c home now) c.id j now ne
        ∙ (get-installed p c home now j ∙ rw ne),
    ap (λ cs. cs ++ c ∷ []) (configured-start_if s _ _ _ _).0,
  )
]

-- A removed account is gone, the others stay, and the answer is no exactly where there was none.
pub remove_account_removes :
    (p : Pool) (id j : Text)
    → ((remove_account p id).1 ≡ true → get (remove_account p id).0 id ≡ none)
      × (text_eq id j ≡ false → get (remove_account p id).0 j ≡ get p j)
      × (((remove_account p id).1 ≡ false) ↔ (get p id ≡ none))
unfolding remove_account get
remove_account_removes p id j =
    ground (arith, lookup-delete id id p.accounts, lookup-delete id j p.accounts, text_eq_refl id)
