-- ===== src/Pool.antt =====
-- internal/gateway/pool.go: PoolManager. A pointer *Account is the account's id, under which the
-- map holds it; a nil pointer is an id that the map lacks. What lies outside is a parameter: the
-- home directory of an account (homes.go, the file system), the construction of its backend
-- (buildBackend) and the start of it.
pub mod Valid
pub mod Manage
pub mod Acquire
pub mod Same
pub mod Views
use ghcp_pool_go.Account
use ghcp_pool_go.Account.{Account}
use ghcp_pool_go.Base.{
  ℕ, ◌+◌, Bool, true, false, not, Option, none, some, List, [], ◌∷◌, ◌++◌, map, if◌then◌else◌, ℤ,
  Text, text, text_eq, Dict, lookup, insert, delete, keep, sort_by, text_lt, Result, ok, err,
}
use ghcp_pool_go.Bucket
use ghcp_pool_go.Bucket.{Bucket}
use ghcp_pool_go.Config.{AccountConfig, RateLimitConfig, is_enabled}

pub record Pool : Type 0 where
  pub backend : Text
  pub rate_limits : RateLimitConfig
  pub configured : List AccountConfig
  pub accounts : Dict Account
  pub global_rate_limiter : Option Bucket

pub record Services : Type 0 where
  pub resolve_home : AccountConfig → Result Text
  pub build_backend : AccountConfig → Text → Result (Unit {0})
  pub start_backend : AccountConfig → Result (Unit {0})

unfoldable pub get : Pool → Text → Option Account
get p id = lookup id p.accounts

-- What a method does to the account behind a pointer.
unfoldable pub update_account : Text → (Account → Account) → Pool → Pool
update_account id f p = elim (lookup id p.accounts) [
  | none ↦ p
  | some a ↦ record p { accounts = insert id (f a) p.accounts }
]

unfoldable pub account_rate_limit : Pool → AccountConfig → ℤ
account_rate_limit p c = elim c.rate_limit_rpm [ none ↦ p.rate_limits.per_account_rpm | some n ↦ n ]

abbrev pub new_account : Pool → AccountConfig → Text → ℕ → Account
new_account p c home now = record {
  config = c;
  enabled = is_enabled c;
  models = c.models;
  home_dir = home;
  started = false;
  last_error = [];
  cooldown = 0;
  failures = 0;
  in_flight = 0;
  rate_limiter = Bucket.new_bucket (account_rate_limit p c) now;
  last_rate_limited_at = 0;
  recent_requests = [];
}

-- Only the backend `copilot` gives an account a home directory.
unfoldable pub home_for : Services → Pool → AccountConfig → Result Text
home_for s p c = if text_eq p.backend (text "copilot") then s.resolve_home c else ok []

unfoldable pub install : Services → Pool → AccountConfig → ℕ → Result Pool
unfolding home_for
install s p c now = elim (home_for s p c) [
  | err e ↦ err e
  | ok home ↦ elim (s.build_backend c home) [
    | err e ↦ err e
    | ok _ ↦ ok (record p { accounts = insert c.id (new_account p c home now) p.accounts })
  ]
]

-- The loop of NewPoolManager: the first account that fails ends it.
unfoldable pub install_all : Services → Pool → List AccountConfig → ℕ → Result Pool
install_all s p [] now = ok p
install_all s p (c ∷ cs) now = elim (install s p c now) [
  | err e ↦ err e
  | ok p' ↦ install_all s p' cs now
]

unfoldable pub new_pool_manager :
    Services → Text → RateLimitConfig → List AccountConfig → ℕ → Result Pool
unfolding install_all
new_pool_manager s backend limits configs now =
    install_all s
      (record {
        backend = backend;
        rate_limits = limits;
        configured = configs;
        accounts = [];
        global_rate_limiter = Bucket.new_bucket limits.global_rpm now;
      })
      configs now

unfoldable pub start_account : Services → Pool → Text → ℕ → Pool × Result (Unit {0})
unfolding get update_account text
start_account s p id now = elim (get p id) [
  | none ↦ (p, ok tt)
  | some a ↦ elim (s.start_backend a.config) [
    | err e ↦ (update_account id (λ b. Account.record_failure b (text "start: " ++ e) now) p, err e)
    | ok _ ↦ (update_account id (λ b. record b { started = true }) p, ok tt)
  ]
]

-- `if account.Enabled { StartAccount }`
unfoldable pub start_if : Services → Bool → Pool → Text → ℕ → Pool × Result (Unit {0})
unfolding start_account
start_if s enabled p id now = if enabled then start_account s p id now else (p, ok tt)

-- The loop of `Start`, over a snapshot of the ids.
unfoldable pub start_each : Services → Pool → List Text → ℕ → Pool × Result (Unit {0})
unfolding start_if get
start_each s p [] now = (p, ok tt)
start_each s p (id ∷ ids) now =
    let enabled : Bool = elim (get p id) [ none ↦ false | some a ↦ a.enabled ] in
    let (p', r) = start_if s enabled p id now in
    elim r [ err e ↦ (p', err e) | ok _ ↦ start_each s p' ids now ]

-- `Close`: every backend is closed.
unfoldable pub close : Pool → Pool
close p = record p { accounts = map (λ e. (e.0, record (e.1) { started = false })) p.accounts }

abbrev pub account_list : Dict Account → List Account
account_list = map (λ e. e.1)

unfoldable pub enabled_accounts : Pool → List Account
enabled_accounts p = keep (λ a. a.enabled) (account_list p.accounts)

unfoldable pub snapshot : Pool → List Account
snapshot p = sort_by (λ a b. text_lt a.config.id b.config.id) (account_list p.accounts)

unfoldable pub set_enabled : Pool → Text → Bool → Pool × Bool
unfolding get update_account
set_enabled p id enabled = elim (get p id) [
  | none ↦ (p, false)
  | some a ↦ (update_account id (λ b. record b { enabled = enabled }) p, true)
]

unfoldable pub configure_rate_limits : Pool → RateLimitConfig → ℕ → Pool
configure_rate_limits p limits now =
    let p' = record p { rate_limits = limits } in
    record p' {
      global_rate_limiter = Bucket.new_bucket limits.global_rpm now;
      accounts =
          map
            (λ e. (
              e.0,
              record (e.1) {
                rate_limiter = Bucket.new_bucket (account_rate_limit p' e.1.config) now;
              },
            ))
            p.accounts;
    }

unfoldable pub add_account : Services → Pool → AccountConfig → ℕ → Pool × Result (Unit {0})
unfolding get install start_if text
add_account s p c now = elim (get p c.id) [
  | some _ ↦ (p, err (text "account '" ++ c.id ++ text "' already exists"))
  | none ↦ elim (install s p c now) [
    | err e ↦ (p, err e)
    | ok q ↦
        let (q', r) = start_if s (is_enabled c) q c.id now in
        elim r [
          | err e ↦ (record q' { accounts = delete c.id q'.accounts }, err e)
          | ok _ ↦ (record q' { configured = q'.configured ++ c ∷ [] }, ok tt)
        ]
  ]
]

unfoldable pub remove_account : Pool → Text → Pool × Bool
unfolding get
remove_account p id = elim (get p id) [
  | none ↦ (p, false)
  | some _ ↦ (
    record p {
      accounts = delete id p.accounts;
      configured = keep (λ c. not (text_eq c.id id)) p.configured;
    },
    true,
  )
]

-- RebuildBackend: `none` is an account that is not there.
unfoldable pub rebuild_backend : Services → Pool → Text → ℕ → Pool × Result (Option Text)
unfolding get update_account start_if
rebuild_backend s p id now = elim (get p id) [
  | none ↦ (p, ok none)
  | some a ↦ elim (s.build_backend a.config a.home_dir) [
    | err e ↦ (p, err e)
    | ok _ ↦
        let q = update_account id (λ b. record b { started = false }) p in
        let (q', r) = start_if s a.enabled q id now in
        elim r [ err e ↦ (q', err e) | ok _ ↦ (q', ok (some id)) ]
  ]
]

unfoldable pub try_acquire : Pool → Text → ℕ → Pool × Bool
unfolding get
try_acquire p id now = elim (get p id) [
  | none ↦ (p, false)
  | some a ↦
      let (a', open_now) = Account.available a now in
      let q = record p { accounts = insert id a' p.accounts } in
      if not open_now
      then (q, false)
      else (let (g, allowed) = Bucket.consume q.global_rate_limiter now in
          let q' = record q { global_rate_limiter = g } in
          if not allowed
          then (q', false)
          else (let (b, acquired) = Account.try_acquire a' now in
              (record q' { accounts = insert id b q'.accounts }, acquired)))
]

unfoldable pub global_retry_after : Pool → ℕ → Pool × ℕ
global_retry_after p now =
    let (g, wait) = Bucket.retry_after p.global_rate_limiter now in
    (record p { global_rate_limiter = g }, wait)
