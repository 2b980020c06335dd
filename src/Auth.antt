-- ===== src/Auth.antt =====
-- internal/gateway/auth.go: API keys. How the text of a key is found (the environment, Key Vault) is
-- a parameter.
pub mod Keys
use ghcp_pool_go.Base.{
  Bool, true, false, Option, none, some, List, [], ◌∷◌, ◌++◌, if◌then◌else◌, any, drop, Text, text,
  text_eq, is_empty, has_prefix, to_lower, trim_space, Dict, lookup, insert, Result, ok, err,
}
use ghcp_pool_go.Glob.{matches_any}
use ghcp_pool_go.Values.{first_string_slice}

pub record ApiKeyConfig : Type 0 where
  pub key : Text
  pub key_env : Text
  pub key_vault_secret : Text
  pub key_vault_url : Text
  pub scopes : List Text
  pub model_allow : List Text
  pub cache_namespace : Text

pub record Principal : Type 0 where
  pub config : ApiKeyConfig

unfoldable pub has_scope : Principal → Text → Bool
unfolding text_eq
has_scope p scope = any (λ s. text_eq s scope) p.config.scopes

unfoldable pub cache_namespace : Principal → Text
unfolding text
cache_namespace p =
    if is_empty p.config.cache_namespace then text "default" else p.config.cache_namespace

unfoldable pub may_use_model : Principal → Text → Bool
unfolding matches_any text
may_use_model p model =
    matches_any model (elim (p.config.model_allow) [ [] ↦ text "*" ∷ [] | a ∷ rest ↦ a ∷ rest ])

abbrev pub Authenticator : Type 0
Authenticator = Dict ApiKeyConfig

-- The inner loop of NewAuthenticator: each text is a key of the configuration.
unfoldable pub add_keys : ApiKeyConfig → List Text → Authenticator → Authenticator
unfolding insert
add_keys c [] keys = keys
add_keys c (k ∷ ks) keys = add_keys c ks (insert k (record c { key = k }) keys)

-- The outer loop; the error does not say which key it is about.
unfoldable pub add_each :
    (ApiKeyConfig → Result Text) → List ApiKeyConfig → Authenticator → Result Authenticator
unfolding add_keys first_string_slice text
add_each resolve [] keys = ok keys
add_each resolve (c ∷ cs) keys = elim (resolve c) [
  | err e ↦ err e
  | ok resolved ↦ elim (first_string_slice resolved []) [
    | [] ↦ err (text "api key has no key, key_env, or key_vault_secret")
    | k ∷ ks ↦ add_each resolve cs (add_keys c (k ∷ ks) keys)
  ]
]

unfoldable pub new_authenticator :
    (ApiKeyConfig → Result Text) → List ApiKeyConfig → Result Authenticator
unfolding add_each
new_authenticator resolve configs = add_each resolve configs []

-- The token of a header, with the scheme `Bearer` or without one.
unfoldable pub token_of : Text → Text
unfolding has_prefix to_lower trim_space text
token_of value =
    if has_prefix (to_lower value) (text "bearer ") then trim_space (drop 7 value) else value

unfoldable pub authenticate : Authenticator → Text → Option Principal
unfolding token_of lookup
authenticate a value = if is_empty value then none else elim (lookup (token_of value) a) [
  | none ↦ none
  | some config ↦ some (record { config = config })
]
