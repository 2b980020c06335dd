-- ===== src/Pool/Valid.antt =====
-- Well-formed pools, and that installing and starting an account keeps them so.
use ghcp_pool_go.Account
use ghcp_pool_go.Account.{Account}
use ghcp_pool_go.Account.Slots
use ghcp_pool_go.Base.{
  ℕ, ◌≡◌, refl, ◌⊎◌, Bool, true, false, some, [], ◌∷◌, ◌++◌, arith, Text, text, ap, text_eq_iff,
  Dict, lookup, insert, delete, insert-Unique, delete-Unique, Unique, ok, err, All, Option-cases,
  Result-cases, inl, inr, ◌∙◌,
}
use ghcp_pool_go.Bucket.Refill.{IsValid?, new_bucket-IsValid}
use ghcp_pool_go.Config.{AccountConfig}
use ghcp_pool_go.Pool.{
  Pool, Services, get, update_account, home_for, account_rate_limit, new_account, install,
  start_account, start_if,
}

-- An account under its own id, with its slots and its limiter in order.
pub record IsEntry (e : Text × Account) : Type 0 where
  pub named : e.1.config.id ≡ e.0
  pub valid : Slots.IsValid e.1

pub record IsValid (p : Pool) : Type 0 where
  pub unique : Unique p.accounts
  pub entries : All IsEntry p.accounts
  pub limiter : IsValid? p.global_rate_limiter

pub All-insert :
    (k : Text) (a : Account) (m : Dict Account)
    → IsEntry (k, a)
    → All IsEntry m
    → All IsEntry (insert k a m)
unfolding insert
All-insert k a [] e h = (e, tt)
All-insert k a ((j, b) ∷ m) e h = ground (arith, All-insert k a m e h.1)

All-delete : (k : Text) (m : Dict Account) → All IsEntry m → All IsEntry (delete k m)
unfolding delete
All-delete k [] h = tt
All-delete k ((j, b) ∷ m) h = ground (arith, All-delete k m h.1)

pub IsEntry-lookup :
    (k : Text) (m : Dict Account) (a : Account)
    → All IsEntry m
    → lookup k m ≡ some a
    → IsEntry (k, a)
unfolding lookup
IsEntry-lookup k [] a h e = absurd (cc)
IsEntry-lookup k ((j, b) ∷ m) a h e = ground (arith, text_eq_iff j k, IsEntry-lookup k m a h.1)

pub update_account-IsValid :
    (id : Text) (f : Account → Account) (p : Pool)
    → ((a : Account) → Slots.IsValid a → Slots.IsValid (f a) × ((f a).config.id ≡ a.config.id))
    → IsValid p
    → IsValid (update_account id f p)
unfolding update_account
update_account-IsValid id f p keep v = elim (Option-cases (lookup id p.accounts)) [
  | inl e ↦ rw (e, update_account) v
  | inr (a, e) ↦
      let entry = IsEntry-lookup id p.accounts a v.entries e in
      let kept = keep a entry.valid in
      rw (e, update_account)
        (record {
          unique = insert-Unique id (f a) p.accounts v.unique;
          entries =
              All-insert id (f a) p.accounts
                (record { named = kept.1 ∙ entry.named; valid = kept.0 }) v.entries;
          limiter = v.limiter;
        })
]

new_account-IsEntry :
    (p : Pool) (c : AccountConfig) (home : Text) (now : ℕ)
    → IsEntry (c.id, new_account p c home now)
new_account-IsEntry p c home now = record {
  named = refl;
  valid = record {
    within = omega arith;
    limiter = new_bucket-IsValid (account_rate_limit p c) now;
  };
}

pub insert-IsValid :
    (p : Pool) (id : Text) (a : Account)
    → IsEntry (id, a)
    → IsValid p
    → IsValid (record p { accounts = insert id a p.accounts })
insert-IsValid p id a e v = record {
  unique = insert-Unique id a p.accounts v.unique;
  entries = All-insert id a p.accounts e v.entries;
  limiter = v.limiter;
}

pub delete-IsValid :
    (p : Pool) (id : Text) → IsValid p → IsValid (record p { accounts = delete id p.accounts })
delete-IsValid p id v = record {
  unique = delete-Unique id p.accounts v.unique;
  entries = All-delete id p.accounts v.entries;
  limiter = v.limiter;
}

-- The pool with a new account in it.
abbrev pub installed : Pool → AccountConfig → Text → ℕ → Pool
installed p c home now = record p { accounts = insert c.id (new_account p c home now) p.accounts }

pub install_cases :
    (s : Services) (p : Pool) (c : AccountConfig) (now : ℕ)
    → ((e : Text) × (install s p c now ≡ err e))
      ⊎ ((home : Text) × (install s p c now ≡ ok (installed p c home now)))
unfolding install
install_cases s p c now = elim (Result-cases (home_for s p c)) [
  | inl (e, failed) ↦ inl (e, rw (failed, install))
  | inr (home, found) ↦ elim (Result-cases (s.build_backend c home)) [
    | inl (e, failed) ↦ inl (e, rw (found, install) (rw failed refl))
    | inr (u, built) ↦ inr (home, rw (found, install) (rw built refl))
  ]
]

pub installed-IsValid :
    (p : Pool) (c : AccountConfig) (home : Text) (now : ℕ)
    → IsValid p
    → IsValid (installed p c home now)
installed-IsValid p c home now v =
    insert-IsValid p c.id (new_account p c home now) (new_account-IsEntry p c home now) v

pub start_account-IsValid :
    (s : Services) (p : Pool) (id : Text) (now : ℕ)
    → IsValid p
    → IsValid (start_account s p id now).0
unfolding start_account Account.max_concurrency
start_account-IsValid s p id now v = elim (Option-cases (get p id)) [
  | inl e ↦ rw (e, start_account) v
  | inr (a, e) ↦ elim (Result-cases (s.start_backend a.config)) [
    | inl (m, f) ↦ rw (e, start_account) (rw f (update_account-IsValid id _ p (failed m) v))
    | inr (u, f) ↦ rw (e, start_account) (rw f (update_account-IsValid id _ p started v))
  ]
]
  where
    failed :
        (m : Text) (b : Account)
        → Slots.IsValid b
        → Slots.IsValid (Account.record_failure b (text "start: " ++ m) now)
          × ((Account.record_failure b (text "start: " ++ m) now).config.id ≡ b.config.id)
    failed m b w =
        let r = Slots.record_failure-IsValid b (text "start: " ++ m) now w in
        (r.0, ap (λ c. c.id) r.1)

    started :
        (b : Account)
        → Slots.IsValid b
        → Slots.IsValid (record b { started = true })
          × ((record b { started = true }).config.id ≡ b.config.id)
    started b w = (record { within = w.within; limiter = w.limiter }, refl)

pub start_if-IsValid :
    (s : Services) (on : Bool) (p : Pool) (id : Text) (now : ℕ)
    → IsValid p
    → IsValid (start_if s on p id now).0
unfolding start_if
start_if-IsValid s true p id now v = start_account-IsValid s p id now v
start_if-IsValid s false p id now v = v
