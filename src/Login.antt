-- ===== src/Login.antt =====
-- internal/gateway/login.go: the device login of an account. The answers of the login server, Key
-- Vault and the host in a URL are parameters, and the clock is an argument. The records of the
-- configuration that an account shares with the settings are those of the pool here.
pub mod Flow
use ghcp_pool_go.Base.{
  ℕ, ◌+◌, Bool, true, false, not, ◌&&◌, ◌||◌, Option, none, some, List, [], ◌∷◌, ◌++◌,
  if◌then◌else◌, ℤ, pos, ◌+ℤ◌, ltb_ℤ, Text, text, text_eq, is_empty, trim_space, Dict, lookup,
  insert, delete, Result, ok, err,
}
use ghcp_pool_go.Account.{Account}
use ghcp_pool_go.Cache.{seconds}
use ghcp_pool_go.Config.{AccountConfig}
use ghcp_pool_go.Json.{
  Value, Fields, get, string_or_empty, number, null, boolean, string, array, object, maps,
}
use ghcp_pool_go.Pool
use ghcp_pool_go.Pool.{Pool, Services, update_account, rebuild_backend}
use ghcp_pool_go.Values.{first_non_empty}

pub record LoginConfig : Type 0 where
  pub client_id : Text
  pub scopes : Text
  pub device_code_url : Text
  pub token_url : Text

-- The strings that the source uses for the status of a login.
pub data Status : Type 0 where
  pending : Status
  authorized : Status
  expired : Status
  failed : Status

pub record LoginState : Type 0 where
  pub account_id : Text
  pub device_code : Text
  pub user_code : Text
  pub verification_uri : Text
  pub token_url : Text
  pub interval : ℤ
  pub expires_at : ℤ
  pub status : Status
  pub error_code : Text

pub record LoginManager : Type 0 where
  pub config : LoginConfig
  pub pool : Pool
  pub states : Dict LoginState

-- postForm, the storing of a token (an error where there is one) and normalizeDomain.
pub record LoginServer : Type 0 where
  pub post_form : Text → List (Text × Text) → Result Fields
  pub store_token : AccountConfig → Text → Option Text
  pub domain_of : Text → Text

abbrev string_from_map : Fields → Text → Text
string_from_map m key = string_or_empty (get key m)

abbrev int_of : Value → ℤ → ℤ
int_of null fallback = fallback
int_of (boolean b) fallback = fallback
int_of (number n t) fallback = n
int_of (string s) fallback = fallback
int_of (array a) fallback = fallback
int_of (object m) fallback = fallback
int_of (maps m) fallback = fallback

abbrev int_from_map : Fields → Text → ℤ → ℤ
int_from_map m key fallback = int_of (get key m) fallback

unfoldable pub login_urls : LoginServer → LoginConfig → Account → Text × Text
unfolding text text_eq
login_urls server c a =
    let domain = server.domain_of a.config.github_enterprise_url in
    if is_empty domain
      || not (text_eq c.device_code_url (text "https://github.com/login/device/code"))
      || not (text_eq c.token_url (text "https://github.com/login/oauth/access_token"))
    then (c.device_code_url, c.token_url)
    else (
      text "https://" ++ domain ++ text "/login/device/code",
      text "https://" ++ domain ++ text "/login/oauth/access_token",
    )

abbrev started : Text → Text → Fields → ℕ → LoginState
started id token_url data_of now = record {
  account_id = id;
  device_code = string_from_map data_of (text "device_code");
  user_code = string_from_map data_of (text "user_code");
  verification_uri = first_non_empty (
      string_from_map data_of (text "verification_uri")
      ∷ string_from_map data_of (text "verification_uri_complete")
      ∷ text "https://github.com/login/device"
      ∷ []);
  token_url = token_url;
  interval = int_from_map data_of (text "interval") (pos 5);
  expires_at = pos now +ℤ seconds (int_from_map data_of (text "expires_in") (pos 900));
  status = pending;
  error_code = [];
}

abbrev with_state : LoginManager → Text → LoginState → LoginManager × Result LoginState
with_state m id s = (record m { states = insert id s m.states }, ok s)

unfoldable pub start_login :
    LoginServer → LoginManager → Text → ℕ → LoginManager × Result LoginState
unfolding login_urls text get first_non_empty Pool.get
start_login server m id now = elim (Pool.get m.pool id) [
  | none ↦ (m, err (text "account not found"))
  | some a ↦
      if is_empty m.config.client_id
      then (m, err (text "login.client_id is not configured"))
      else (let (device_url, token_url) = login_urls server m.config a in
          elim (server.post_form device_url
            ((text "client_id", m.config.client_id) ∷ (text "scope", m.config.scopes) ∷ [])) [
              | err e ↦ (m, err e)
              | ok data_of ↦ with_state m id (started id token_url data_of now)
            ])
]

abbrev source_of : AccountConfig → Text → Text
source_of c source =
    if is_empty c.token_key_vault_secret then source else source ++ text "_key_vault"

abbrev with_token : Text → Text → Account → Account
with_token token source a = record a {
  config = record (a.config) {
    runtime_token = token;
    runtime_token_source = source_of a.config source;
  };
}

abbrev failure_of : Result (Option Text) → Option Text
failure_of (err e) = some e
failure_of (ok id) = none

-- The error, if there is one.
unfoldable pub apply_token :
    Services → LoginServer → LoginManager → Text → Text → Text → ℕ → LoginManager × Option Text
unfolding Pool.get update_account rebuild_backend text
apply_token s server m id token source now = elim (Pool.get m.pool id) [
  | none ↦ (m, some (text "account not found"))
  | some a ↦ elim (server.store_token a.config token) [
    | some e ↦ (m, some e)
    | none ↦
        let (p, r) =
          rebuild_backend s (update_account id (with_token token source) m.pool) id now in
        (record m { pool = p }, failure_of r)
  ]
]

abbrev is_waiting : Text → Bool
is_waiting code =
    is_empty code || text_eq code (text "authorization_pending") || text_eq code (text "slow_down")

-- A login after the answer `data_of` that has no token.
unfoldable pub without_token : LoginState → Fields → LoginState
unfolding text text_eq get
without_token state data_of =
    let code = string_from_map data_of (text "error") in
    if is_waiting code
    then record state {
      status = pending;
      interval =
          if text_eq code (text "slow_down")
          then int_from_map data_of (text "interval") (state.interval +ℤ pos 5)
          else state.interval;
    }
    else record state { status = failed; error_code = code }

abbrev after_apply :
    Text → LoginState → LoginManager × Option Text → LoginManager × Result LoginState
after_apply id state (m, some e) = (m, err e)
after_apply id state (m, none) = with_state m id (record state { status = authorized })

abbrev after_answer :
    Services
    → LoginServer
    → LoginManager
    → Text
    → LoginState
    → Fields
    → Text
    → ℕ
    → LoginManager × Result LoginState
after_answer s server m id state data_of token now =
    if is_empty token
    then with_state m id (without_token state data_of)
    else after_apply id state (apply_token s server m id token (text "device_login") now)

-- The request of Poll, for a login that is pending.
unfoldable pub ask : LoginServer → LoginConfig → LoginState → Result Fields
unfolding text first_non_empty
ask server c state = server.post_form (first_non_empty (state.token_url ∷ c.token_url ∷ [])) (
    (text "client_id", c.client_id)
    ∷ (text "device_code", state.device_code)
    ∷ (text "grant_type", text "urn:ietf:params:oauth:grant-type:device_code")
    ∷ [])

abbrev poll_pending :
    Services
    → LoginServer
    → LoginManager
    → Text
    → LoginState
    → ℕ
    → Result Fields
    → LoginManager × Result LoginState
poll_pending s server m id state now (err e) = (m, err e)
poll_pending s server m id state now (ok data_of) =
    after_answer s server m id state data_of (string_from_map data_of (text "access_token")) now

-- Poll for a login that is found.
unfoldable pub poll_state :
    Services
    → LoginServer
    → LoginManager
    → Text
    → LoginState
    → Status
    → ℕ
    → LoginManager × Result LoginState
unfolding ask without_token apply_token text get
poll_state s server m id state pending now =
    if ltb_ℤ state.expires_at (pos now)
    then with_state m id (record state { status = expired })
    else poll_pending s server m id state now (ask server m.config state)
poll_state s server m id state authorized now = (m, ok state)
poll_state s server m id state expired now = (m, ok state)
poll_state s server m id state failed now = (m, ok state)

unfoldable pub poll :
    Services → LoginServer → LoginManager → Text → ℕ → LoginManager × Result LoginState
unfolding poll_state lookup text
poll s server m id now = elim (lookup id m.states) [
  | none ↦ (m, err (text "no pending login"))
  | some state ↦ poll_state s server m id state state.status now
]

unfoldable pub set_token :
    Services → LoginServer → LoginManager → Text → Text → ℕ → LoginManager × Option Text
unfolding apply_token trim_space text
set_token s server m id token now =
    let trimmed = trim_space token in
    if is_empty trimmed
    then (m, some (text "token must be a non-empty string"))
    else apply_token s server m id trimmed (text "api_token") now

abbrev without_runtime_token : Account → Account
without_runtime_token a = record a {
  config = record (a.config) { runtime_token = []; runtime_token_source = [] };
}

-- The backend is built again where there was a token.
unfoldable pub logout : Services → LoginManager → Text → ℕ → LoginManager × Bool
unfolding Pool.get update_account rebuild_backend
logout s m id now = elim (Pool.get m.pool id) [
  | none ↦ (m, false)
  | some a ↦
      let p = update_account id without_runtime_token m.pool in
      let q = (rebuild_backend s p id now).0 in
      (
        record m {
          pool = if is_empty a.config.runtime_token then p else q;
          states = delete id m.states;
        },
        true,
      )
]
