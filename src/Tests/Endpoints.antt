-- ===== src/Tests/Endpoints.antt =====
-- The libraries, the settings and the requests of the endpoints, for one client.
use python_oauth2_server.Prelude.{
  String, true, none, some, List, [], ok, err, if◌then◌else◌, ◌==◌, ◌*◌, ◌∷◌,
}
use python_oauth2_server.Clock.{second}
use python_oauth2_server.Dict
use python_oauth2_server.Json.{Fields, str, num, obj, end, field, malformed}
use python_oauth2_server.Models.{Client, DenylistEntry}
use python_oauth2_server.Services.Jwt.{Jwt, makes_public}
use python_oauth2_server.Services.JwksCache.{http_error}
use python_oauth2_server.Services.Clients
use python_oauth2_server.Services.Clients.{ClientService}
use python_oauth2_server.Services.Dpop.Proof
use python_oauth2_server.Services.DpopNonce.{DpopNonceIssuer, parts}
use python_oauth2_server.Services.JwtBearer
use python_oauth2_server.Services.Auth.{Drawn, CodeRequest}
use python_oauth2_server.Routes.Token.{Form}
use python_oauth2_server.Routes.Token.Endpoint.{Libraries, Request, Env, missing}
use python_oauth2_server.Routes.Introspect.{Decoders, Body}
use python_oauth2_server.Routes.Authorize
use python_oauth2_server.Routes.Authorize.{State}
use python_oauth2_server.Tests.Fixtures.{client, config, drawn, lib, storage, verifier}

abbrev pub key : Fields
key = field "kty" (str "RSA") (field "e" (str "AQAB") (field "n" (str "1") end))

-- Every proof is one of the same key, for the token endpoint, at the start of time.
abbrev pub jwt : Jwt
jwt = record {
  get_unverified_header = λ t.
      some (field "typ" (str "dpop+jwt") (field "jwk" (obj key) (field "alg" (str "RS256") end)));
  unverified_claims = λ t. none;
  decode = λ now t k alg aud iss required. err "unknown";
  decode_proof = λ t k alg required. ok (
      field "htm" (str "POST") (
        field "htu" (str "https://as/oauth/token")
          (field "iat" (num "0") (field "jti" (str "j") end))));
  rsa_from_jwk = λ k. makes_public;
  instant = λ n. some 0;
  is_finite = λ n. true;
}

abbrev pub clients : Clients.Library
clients = record {
  jwt = jwt;
  json_loads = λ t. malformed;
  b64decode_text = λ t. none;
  unquote_plus = λ t. t;
  is_zero = λ n. n == "0";
}

abbrev pub dpop : Proof.Library
dpop = record {
  jwt = jwt;
  urlsplit = lib.urlsplit;
  hash_members = λ ms. "k";
  hash_text = λ t. t;
  str_of = λ v. "";
  is_zero = λ n. n == "0";
}

abbrev pub bearer : JwtBearer.Library
bearer = record {
  jwt = jwt;
  json_loads = λ t. malformed;
  from_jwk = λ alg k. makes_public;
  lower = λ t. t;
  casefold = λ t. t;
  lower_trim = λ t. t;
}

abbrev pub libraries : Libraries
libraries = record { tokens = lib; clients = clients; dpop = dpop; bearer = bearer }

-- Nonces that are the text of one bucket.
abbrev pub issuer : DpopNonceIssuer
issuer = record {
  codec = record { tag_for_bucket = λ b. "t"; encode = λ b tag. "n"; decode = λ n. parts 2 "t" };
  lifetime_secs = 60;
}

abbrev pub env : Env
env = record {
  config = config;
  fresh = drawn;
  call = record {
    wall = 10 * second;
    monotonic = 10 * second;
    later = 10 * second;
    reply = http_error;
    hash = "h";
  };
  client_reply = http_error;
  nonce_issuer = issuer;
}

abbrev pub form : Form
form name =
    if name == "client_id"
    then some "app"
    else if name == "client_secret"
    then some "s"
    else if name == "grant_type"
    then some "client_credentials"
    else if name == "token"
    then some "a"
    else none

abbrev pub request : Request
request = record { form = form; authorization = none; dpop = missing; mtls = (none, none) }

abbrev pub service : ClientService
service = record {
  storage = storage;
  issuer = some "https://as";
  jwks_cache = none;
  jti_guard = none;
  events = [];
}

abbrev pub decoders : Decoders
decoders = record { unverified = λ t. end; verified = λ t. none; is_zero = λ n. n == "0" }

abbrev pub body : Body
body = record {
  scope = "read";
  client_id = "app";
  username = none;
  exp = 3600;
  iat = 0;
  sub = "u";
  aud = "app" ∷ [];
  jti = "1";
  iss = "https://as";
  cnf = none;
  authorization_details = none;
}

abbrev pub entry : DenylistEntry
entry = record {
  id = "1";
  kind = "client_id";
  value = "app";
  reason = "abuse";
  created_by = "admin";
  created_at = 0;
  expires_at = none;
}

abbrev pub web_client : Client
web_client = record client { redirect_uris = "uris" }

abbrev pub texts : String → List String
texts t = if t == "uris" then "https://app/cb" ∷ [] else "authorization_code" ∷ []

abbrev pub web : Authorize.Library
web = record {
  json_loads = λ t. malformed;
  loads_texts = texts;
  urlsplit =
      λ t. some (record { scheme = "https"; netloc = t; path = ""; query = ""; fragment = "" });
  urlparse = λ t. none;
  process_jar = λ c t. ok [];
  int_of = λ t. none;
  describe = λ d. "";
  mint_id_token = λ c u s n t. ok "i";
  return_to = λ q. "/oauth/authorize";
}

abbrev pub web_config : Authorize.Config
web_config = record {
  issuer = "https://as";
  rar_types_supported = [];
  authorization_code_ttl_secs = 600;
}

abbrev pub web_state : State
web_state = record {
  storage = record storage { clients = web_client ∷ [] };
  par_store = record { entries = Dict.empty };
  session = record { user_id = some "u"; auth_time = some 0; acr = none; return_to = none };
  codes_issued = 0;
  events = [];
}

abbrev pub query : List (String × String)
query =
    ("response_type", "code")
    ∷ ("client_id", "app")
    ∷ ("redirect_uri", "https://app/cb")
    ∷ ("scope", "read")
    ∷ ("code_challenge", verifier)
    ∷ ("code_challenge_method", "S256")
    ∷ []

abbrev pub drawn_code : Drawn
drawn_code = record { id = "2"; code = "c2"; family = "f3" }

abbrev pub asked : CodeRequest
asked = record {
  redirect_uri = "https://app/cb";
  scope = "read";
  code_challenge = some verifier;
  code_challenge_method = some "S256";
  nonce = none;
  authorization_details = none;
  resource = none;
  claims_request = none;
  dpop_jkt = none;
}
