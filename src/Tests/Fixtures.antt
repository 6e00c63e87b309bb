-- ===== src/Tests/Fixtures.antt =====
-- A client, its code, its tokens and its device, and a server that holds them.
use python_oauth2_server.Prelude.{
  String, true, false, none, some, [], ok, if◌then◌else◌, ◌==◌, ◌*◌, ◌∷◌,
}
use python_oauth2_server.Clock.{second}
use python_oauth2_server.Dict
use python_oauth2_server.Json.{malformed, end}
use python_oauth2_server.Models.{Client, Token, AuthorizationCode, DeviceAuthorization}
use python_oauth2_server.Storage.{Storage}
use python_oauth2_server.Services.Tokens.{Config, Fresh}
use python_oauth2_server.Routes.Token.{Library, AppState, Form}

abbrev pub client : Client
client = record {
  id = "1";
  client_id = "app";
  client_secret = "s";
  redirect_uris = "";
  grant_types = "all";
  scope = "read";
  name = "App";
  created_at = 0;
  updated_at = 0;
  token_endpoint_auth_method = "client_secret_basic";
  registration_access_token = "";
  response_types = "";
  contacts = "";
  logo_uri = "";
  client_uri = "";
  policy_uri = "";
  tos_uri = "";
  jwks = "";
  jwks_uri = "";
  backchannel_logout_uri = "";
  backchannel_logout_session_required = false;
  frontchannel_logout_uri = "";
  frontchannel_logout_session_required = false;
  post_logout_redirect_uris = "";
  enabled = true;
  require_state = false;
  tls_client_certificate_subject_dn = "";
  dpop_nonce_required = false;
}

abbrev pub verifier : String
verifier = "0123456789012345678901234567890123456789012"

abbrev pub code : AuthorizationCode
code = record {
  id = "1";
  code = "c";
  client_id = "app";
  user_id = "u";
  redirect_uri = "https://app/cb";
  scope = "read";
  created_at = 0;
  expires_at = 600 * second;
  used = false;
  code_challenge = some verifier;
  code_challenge_method = some "S256";
  nonce = none;
  resource = none;
  authorization_details = none;
  claims_request = none;
  token_family = some "f";
  dpop_jkt = none;
}

abbrev pub token : Token
token = record {
  id = "1";
  access_token = "a";
  refresh_token = some "r";
  token_type = "Bearer";
  expires_in = 3600;
  scope = "read";
  client_id = "app";
  user_id = some "u";
  created_at = 0;
  expires_at = 3600 * second;
  revoked = false;
  token_family = some "f";
}

abbrev pub device : DeviceAuthorization
device = record {
  id = "1";
  device_code = "d";
  user_code = "U";
  client_id = "app";
  scope = "read";
  created_at = 0;
  expires_at = 600 * second;
  interval_seconds = 5;
  approved = true;
  denied = false;
  used = false;
  user_id = some "u";
}

abbrev pub storage : Storage
storage = record {
  tokens = token ∷ [];
  authorization_codes = code ∷ [];
  device_authorizations = device ∷ [];
  clients = client ∷ [];
  users = [];
  trusted_issuers = [];
  denylist = [];
}

-- A library whose PKCE challenge is the verifier itself, and whose tokens carry no claims.
abbrev pub lib : Library
lib = record {
  pkce_challenge = λ v. v;
  decode_unverified_claims = λ t. end;
  json_loads = λ t. malformed;
  loads_texts = λ t.
      "authorization_code" ∷ "refresh_token" ∷ "client_credentials"
      ∷ "urn:ietf:params:oauth:grant-type:device_code"
      ∷ "urn:ietf:params:oauth:grant-type:token-exchange" ∷ [];
  urlsplit =
      λ u. some (record { scheme = "https"; netloc = u; path = ""; query = ""; fragment = "" });
  encode_access_token = λ c. c.jti;
  mint_id_token = λ c u s t k. ok "i";
}

abbrev pub config : Config
config = record {
  issuer = "https://as";
  access_tokens_opaque = false;
  access_token_ttl_secs = 3600;
  refresh_token_ttl_secs = 86400;
  rar_types_supported = [];
}

abbrev pub drawn : Fresh
drawn = record { opaque_token = "o"; refresh_token = "r2"; row_id = "2"; jti = "j"; family = "f2" }

abbrev pub app : AppState
app = record {
  storage = storage;
  jwks_cache = record { entries = Dict.empty };
  jti_guard = record { entries = Dict.empty; max_entries = 10 };
  dpop_replay = record { entries = Dict.empty };
  device_poll = record { entries = Dict.empty };
  invalid_client_limiter = none;
  oauth_failed_authentications = 0;
  oauth_token_issued_total = 0;
  events = [];
}

-- A form that has every parameter that one of the grants reads.
abbrev pub form : Form
form name =
    if name == "code"
    then some "c"
    else if name == "redirect_uri"
    then some "https://app/cb"
    else if name == "code_verifier"
    then some verifier
    else if name == "refresh_token"
    then some "r"
    else if name == "device_code"
    then some "d"
    else if name == "subject_token"
    then some "a"
    else if name == "subject_token_type"
    then some "urn:ietf:params:oauth:token-type:access_token"
    else none
