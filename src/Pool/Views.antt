-- ===== src/Pool/Views.antt =====
-- What serving a request never changes in a pool: its accounts and their configuration.
use ghcp_pool_go.Account
use ghcp_pool_go.Account.{Account}
use ghcp_pool_go.Base.{
  ℕ, ◌≡◌, refl, ◌∙◌, Bool, Option, none, some, [], ◌∷◌, arith, Text, text_eq_iff, Dict, lookup,
  insert, lookup-insert, keys, Bool-cases, Option-cases, inl, inr,
}
use ghcp_pool_go.Bucket
use ghcp_pool_go.Config.{AccountConfig}
use ghcp_pool_go.Pool
use ghcp_pool_go.Pool.{Pool, get, update_account, global_retry_after}

abbrev pub view : Account → Bool × AccountConfig
view a = (a.enabled, a.config)

abbrev pub view_of : Pool → Text → Option (Bool × AccountConfig)
view_of p id = elim (get p id) [ none ↦ none | some a ↦ some (view a) ]

pub record Alike (p q : Pool) : Type 0 where
  pub same_ids : keys q.accounts ≡ keys p.accounts
  pub seen : (id : Text) → view_of q id ≡ view_of p id

pub Alike-refl : (p : Pool) → Alike p p
Alike-refl p = record { same_ids = refl; seen = λ id. refl }

pub Alike-trans : (p q r : Pool) → Alike p q → Alike q r → Alike p r
Alike-trans p q r s t = record {
  same_ids = t.same_ids ∙ s.same_ids;
  seen = λ id. t.seen id ∙ s.seen id;
}

pub keys-insert :
    (k : Text) (a b : Account) (m : Dict Account)
    → lookup k m ≡ some a
    → keys (insert k b m) ≡ keys m
unfolding lookup insert
keys-insert k a b [] h = absurd (cc)
keys-insert k a b ((j, c) ∷ m) h = ground (arith, text_eq_iff j k, keys-insert k a b m)

pub insert-Alike :
    (p : Pool) (id : Text) (a b : Account)
    → lookup id p.accounts ≡ some a
    → view b ≡ view a
    → Alike p (record p { accounts = insert id b p.accounts })
unfolding get
insert-Alike p id a b e same = record {
  same_ids = keys-insert id a b p.accounts e;
  seen = λ j. ground (arith, text_eq_iff id j, lookup-insert id j b p.accounts);
}

pub update_account-Alike :
    (id : Text) (f : Account → Account) (p : Pool)
    → ((a : Account) → view (f a) ≡ view a)
    → Alike p (update_account id f p)
unfolding update_account
update_account-Alike id f p same = elim (Option-cases (lookup id p.accounts)) [
  | inl e ↦ rw (e, update_account) (Alike-refl p)
  | inr (a, e) ↦ rw (e, update_account) (insert-Alike p id a (f a) e (same a))
]

view-available : (a : Account) (now : ℕ) → view (Account.available a now).0 ≡ view a
unfolding Account.available
view-available a now = ground arith

view-try_acquire : (a : Account) (now : ℕ) → view (Account.try_acquire a now).0 ≡ view a
unfolding Account.try_acquire
view-try_acquire a now = ground arith

-- Another limiter of the pool changes no account.
pub limiter-Alike :
    (p q : Pool) (b : Option Bucket.Bucket)
    → Alike p q
    → Alike p (record q { global_rate_limiter = b })
unfolding get
limiter-Alike p q b s = record { same_ids = s.same_ids; seen = s.seen }

pub try_acquire-Alike : (p : Pool) (id : Text) (now : ℕ) → Alike p (Pool.try_acquire p id now).0
unfolding Pool.try_acquire get
try_acquire-Alike p id now = elim (Option-cases (lookup id p.accounts)) [
  | inl e ↦ rw (e, Pool.try_acquire) (Alike-refl p)
  | inr (a, e) ↦
      let a' = (Account.available a now).0 in
      let checked = insert-Alike p id a a' e (view-available a now) in
      let b = (Bucket.consume p.global_rate_limiter now).0 in
      let q : Pool = record p { accounts = insert id a' p.accounts } in
      let paid = limiter-Alike p q b checked in
      elim (Bool-cases (Account.available a now).1) [
        | inr shut ↦ rw (e, Pool.try_acquire) (rw shut checked)
        | inl opened ↦ elim (Bool-cases (Bucket.consume p.global_rate_limiter now).1) [
          | inr refused ↦ rw (e, Pool.try_acquire) (rw (opened, refused) paid)
          | inl allowed ↦
              rw (e, Pool.try_acquire)
                (rw (opened, allowed)
                  (Alike-trans p (record q { global_rate_limiter = b }) _ paid
                    (insert-Alike (record q { global_rate_limiter = b }) id a'
                      (Account.try_acquire a' now).0
                      (lookup-insert id id a' p.accounts ∙ ground (arith, text_eq_iff id id))
                      (view-try_acquire a' now))))
        ]
      ]
]
