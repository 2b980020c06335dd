-- ===== src/Login/Flow.antt =====
-- internal/gateway/login.go: Poll moves a login from one status to another.
use ghcp_pool_go.Base.{
  ℕ, ◌≡◌, Bool, true, false, some, pos, ltb_ℤ, Text, text, is_empty, lookup, Result, ok, err,
}
use ghcp_pool_go.Json.{Fields}
use ghcp_pool_go.Login.{
  Status, pending, authorized, expired, failed, LoginState, LoginManager, LoginServer, LoginConfig,
  string_from_map, ask,
}
use ghcp_pool_go.Pool

-- The answer of the login server in time has a token, or has none.
abbrev Answered : LoginServer → LoginConfig → LoginState → ℕ → Bool → Type 0
Answered server c s now lacks_token =
    (ltb_ℤ s.expires_at (pos now) ≡ false)
    × ((answer : Fields) × (ask server c s ≡ ok answer)
        × (is_empty (string_from_map answer (text "access_token")) ≡ lacks_token))

-- When a login may go from one status to another.
abbrev pub Moves : LoginServer → LoginConfig → LoginState → ℕ → Status → Status → Type 0
Moves server c s now pending pending = Answered server c s now true
Moves server c s now pending authorized = Answered server c s now false
Moves server c s now pending expired = ltb_ℤ s.expires_at (pos now) ≡ true
Moves server c s now pending failed = Answered server c s now true
Moves server c s now before after = after ≡ before

-- What Poll returns is kept, and its status is one that the login may go to; an error leaves the login
-- as it is.
abbrev pub Follows :
    LoginServer
    → LoginConfig
    → LoginState
    → Text
    → ℕ
    → Status
    → LoginManager × Result LoginState
    → Type 0
Follows server c s id now before (m, err e) = lookup id m.states ≡ some s
Follows server c s id now before (m, ok t) =
    Moves server c s now before t.status × (lookup id m.states ≡ some t)
