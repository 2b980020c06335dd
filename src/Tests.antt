-- ===== src/Tests.antt =====
-- Concrete inputs for the examples: two accounts, a pool of them, a registry and a router.
pub mod Limits
pub mod Pools
pub mod Routes
pub mod Selects
pub mod Served
pub mod Stores
pub mod Models
pub mod Answers
pub mod Requests
pub mod Limited
pub mod Structures
pub mod Logins
use ghcp_pool_go.Account.{Account}
use ghcp_pool_go.Base.{ℕ, true, none, some, [], ◌∷◌, ◌*◌, ℤ, pos, Text, Result, ok}
use ghcp_pool_go.Bucket.{Bucket, second, token}
use ghcp_pool_go.Config.{AccountConfig, RateLimitConfig, RouteConfig}
use ghcp_pool_go.Pool.{Pool, Services}
use ghcp_pool_go.Registry.{Registry}
use ghcp_pool_go.Router.{Router}
use ghcp_pool_go.Usage.{Usage}

abbrev pub id_a : Text
id_a = b'a' ∷ []

abbrev pub id_b : Text
id_b = b'b' ∷ []

abbrev pub id_c : Text
id_c = b'c' ∷ []

abbrev pub model : Text
model = b'm' ∷ b'1' ∷ []

abbrev pub config_of : Text → AccountConfig
config_of id = record {
  id = id;
  label = [];
  token = [];
  token_env = [];
  token_key_vault_secret = [];
  key_vault_url = [];
  base_directory = [];
  copilot_mode = [];
  copilot_sdk_web_search = none;
  copilot_sdk_web_search_mode = [];
  copilot_sdk_tools = [];
  github_enterprise_url = [];
  enabled = none;
  max_concurrency = pos 2;
  weight = pos 0;
  rate_limit_rpm = none;
  allow = [];
  deny = [];
  models = [];
  runtime_token = [];
  runtime_token_source = [];
}

-- Sixty a minute, with one token left.
abbrev pub bucket : Bucket
bucket = record { rpm = 60; tokens = token; updated_at = 0 }

abbrev pub empty_bucket : Bucket
empty_bucket = record bucket { tokens = 0 }

abbrev pub account_of : Text → ℕ → Account
account_of id busy = record {
  config = config_of id;
  enabled = true;
  models = [];
  home_dir = [];
  started = true;
  last_error = [];
  cooldown = 0;
  failures = 0;
  in_flight = busy;
  rate_limiter = some bucket;
  last_rate_limited_at = 0;
  recent_requests = [];
}

abbrev pub account : Account
account = account_of id_a 1

abbrev pub limits : RateLimitConfig
limits = record { global_rpm = pos 0; per_account_rpm = pos 60 }

abbrev pub pool : Pool
pool = record {
  backend = [];
  rate_limits = limits;
  configured = config_of id_a ∷ config_of id_b ∷ [];
  accounts = (id_a, account) ∷ (id_b, account_of id_b 0) ∷ [];
  global_rate_limiter = none;
}

abbrev pub services : Services
services = record {
  resolve_home = λ c. ok [];
  build_backend = λ c home. ok tt;
  start_backend = λ c. ok tt;
}

abbrev pub route : RouteConfig
route = record { model = b'm' ∷ b'*' ∷ []; accounts = []; strategy = []; priority = pos 1 }

abbrev pub router : Router
router = record {
  pool = pool;
  registry = record { index = []; last_refresh = 0 };
  routes = route ∷ [];
  rr = 5;
}

abbrev pub usage : Usage
usage = record {
  input_tokens = pos 3;
  output_tokens = pos 4;
  cached_tokens = pos 0;
  total_tokens = pos 3;
  credits = pos 0;
  api_endpoint = [];
  provider_call_id = [];
  duration_ms = pos 0;
  quota_snapshots = [];
}
