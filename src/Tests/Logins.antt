-- ===== src/Tests/Logins.antt =====
-- Examples of the device login.
use ghcp_pool_go.Base.{none, [], ◌∷◌, pos, ok, text}
use ghcp_pool_go.Json.{field, no_fields, string}
use ghcp_pool_go.Login.{LoginManager, LoginServer, LoginState, pending}
use ghcp_pool_go.Login.Flow
use ghcp_pool_go.Tests.{id_a, pool}

abbrev state : LoginState
state = record {
  account_id = id_a;
  device_code = b'd' ∷ [];
  user_code = b'u' ∷ [];
  verification_uri = [];
  token_url = b't' ∷ [];
  interval = pos 5;
  expires_at = pos 900;
  status = pending;
  error_code = [];
}

-- The server gives a token at once.
abbrev server : LoginServer
server = record {
  post_form = λ url form. ok (field (text "access_token") (string (b'x' ∷ [])) no_fields);
  store_token = λ c token. none;
  domain_of = λ url. [];
}

abbrev manager : LoginManager
manager = record {
  config = record { client_id = b'c' ∷ []; scopes = []; device_code_url = []; token_url = [] };
  pool = pool;
  states = (id_a, state) ∷ [];
}
