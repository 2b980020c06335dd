-- ===== src/Config.antt =====
-- internal/gateway/config.go: the configuration records that the pool, the router and the
-- authenticator read, and where an account's token comes from.
pub mod Models
pub mod Overrides
use ghcp_pool_go.Base.{
  Bool, true, not, Option, none, some, List, if◌then◌else◌, ℤ, Text, text, is_empty,
}

pub record AccountConfig : Type 0 where
  pub id : Text
  pub label : Text
  pub token : Text
  pub token_env : Text
  pub token_key_vault_secret : Text
  pub key_vault_url : Text
  pub base_directory : Text
  pub copilot_mode : Text
  pub copilot_sdk_web_search : Option Bool
  pub copilot_sdk_web_search_mode : Text
  pub copilot_sdk_tools : List Text
  pub github_enterprise_url : Text
  pub enabled : Option Bool
  pub max_concurrency : ℤ
  pub weight : ℤ
  pub rate_limit_rpm : Option ℤ
  pub allow : List Text
  pub deny : List Text
  pub models : List Text
  pub runtime_token : Text
  pub runtime_token_source : Text

-- An account is enabled unless the configuration says no.
unfoldable pub is_enabled : AccountConfig → Bool
is_enabled c = elim c.enabled [ none ↦ true | some b ↦ b ]

pub record RouteConfig : Type 0 where
  pub model : Text
  pub accounts : List Text
  pub strategy : Text
  pub priority : ℤ

pub record RateLimitConfig : Type 0 where
  pub global_rpm : ℤ
  pub per_account_rpm : ℤ

unfoldable pub auth_method : AccountConfig → Text
auth_method c =
    if not (is_empty c.runtime_token)
    then (if not (is_empty c.runtime_token_source)
        then c.runtime_token_source
        else text "device_login")
    else if not (is_empty c.token)
    then text "inline_token"
    else if not (is_empty c.token_env)
    then text "token_env"
    else if not (is_empty c.token_key_vault_secret)
    then text "key_vault"
    else if not (is_empty c.base_directory)
    then text "credential_home"
    else text "auto_home"
