-- ===== src/Routes/Token/Endpoint.antt =====
-- routes/token.py: `POST /oauth/token`, from the form to the grant that it names.
pub mod Handled
pub mod Laws
use Prim.Native.String.{◌++◌ as append}
use python_oauth2_server.Prelude.{
  truthy, suc, String, not, Option, none, some, Result, ok, err, if◌then◌else◌, ◌==◌,
}
use python_oauth2_server.Json.{Fields}
use python_oauth2_server.Errors.{
  OAuthError, Description, text, about, Raised, oauth, uncaught, bad_request, oauth_error,
}
use python_oauth2_server.Models.{Client}
use python_oauth2_server.Strings.{rstrip_slash, cut, strip, starts_with_lower, drop_chars}
use python_oauth2_server.Services.Dpop.{DpopError, DpopValidated}
use python_oauth2_server.Services.Dpop.Proof
use python_oauth2_server.Services.Dpop.Proof.{Failure, invalid, escapes, validate_dpop_proof}
use python_oauth2_server.Services.DpopNonce.{
  DpopNonceIssuer, Demand, met, use_dpop_nonce, forged, enforce_dpop_nonce,
}
use python_oauth2_server.Services.JwksCache.{Answer}
use python_oauth2_server.Services.Tokens.{Config, Fresh}
use python_oauth2_server.Services.JwtBearer
use python_oauth2_server.Services.JwtBearer.Redeem.{Call}
use python_oauth2_server.Services.ClientAssertion.Verify.{unverified_assertion_subject}
use python_oauth2_server.Services.Clients
use python_oauth2_server.Services.Clients.{ClientService}
use python_oauth2_server.Services.Clients.Authenticate.{authenticate}
use python_oauth2_server.Routes.Token.{
  Library, AppState, Form, Response, refused, crashed, nonce_required, invalid_client_response,
  cnf_of,
}
use python_oauth2_server.Routes.Token.Code.{redeem_code}
use python_oauth2_server.Routes.Token.Refresh.{refresh}
use python_oauth2_server.Routes.Token.Device.{redeem_device}
use python_oauth2_server.Routes.Token.Credentials.{client_credentials}
use python_oauth2_server.Routes.Token.Exchange.{token_exchange, token_exchange_grant}
use python_oauth2_server.Routes.Token.Bearer.{jwt_bearer, jwt_bearer_grant}

pub record Libraries : Type 0 where
  pub tokens : Library
  pub clients : Clients.Library
  pub dpop : Proof.Library
  pub bearer : JwtBearer.Library

-- `read_dpop_header`: no header, one that is no UTF-8, or its text.
pub data DpopHeader : Type 0 where
  missing undecodable : DpopHeader
  proof : String → DpopHeader

pub record Request : Type 0 where
  pub form : Form
  pub authorization : Option String
  pub dpop : DpopHeader
  -- the thumbprint and the Subject DN of the client certificate, if the proxy is trusted
  pub mtls : Option String × Option String

-- What the server draws, reads and is set to.
pub record Env : Type 0 where
  pub config : Config
  pub fresh : Fresh
  pub call : Call
  -- what the server of the client's `jwks_uri` answers
  pub client_reply : Answer
  pub nonce_issuer : DpopNonceIssuer

-- `_KNOWN_GRANT_TYPES`
pub data GrantType : Type 0 where
  authorization_code refresh_token device_code credentials exchange bearer : GrantType

unfoldable pub known_grant_type : String → Option GrantType
known_grant_type s =
    if s == "authorization_code"
    then some authorization_code
    else if s == "client_credentials"
    then some credentials
    else if s == "refresh_token"
    then some refresh_token
    else if s == "urn:ietf:params:oauth:grant-type:device_code"
    then some device_code
    else if s == token_exchange_grant
    then some exchange
    else if s == jwt_bearer_grant
    then some bearer
    else none

abbrev pub from_header : Clients.Library → String → Option String
from_header lib header =
    if not (starts_with_lower header "basic ")
    then none
    else elim (lib.b64decode_text (strip (drop_chars 6 header))) [
      | none ↦ none
      | some decoded ↦ elim (cut b':' decoded) [
        | none ↦ none
        | some parts ↦ some (lib.unquote_plus parts.0)
      ]
    ]

abbrev pub from_form : Clients.Library → Form → Option String
from_form lib form = elim (truthy (form "client_id")) [
  | some client_id ↦ some client_id
  | none ↦ elim (form "client_assertion") [
    | none ↦ none
    | some assertion ↦ unverified_assertion_subject lib.jwt assertion
  ]
]

abbrev pub penalized : Clients.Library → Form → Option String → Option String
penalized lib form none = from_form lib form
penalized lib form (some client_id) = truthy (some client_id)

-- `_extract_client_id_for_penalty`: a header that can be read decides, or else the form.
unfoldable pub extract_client_id_for_penalty :
    Clients.Library → Form → Option String → Option String
unfolding starts_with_lower strip drop_chars cut unverified_assertion_subject
extract_client_id_for_penalty lib form authorization = elim (truthy authorization) [
  | none ↦ from_form lib form
  | some header ↦ penalized lib form (from_header lib header)
]

-- The answer to a request whose client is not authenticated.
unfoldable pub unauthenticated :
    Clients.Library → Env → Request → Raised → AppState → AppState × Response
unfolding extract_client_id_for_penalty invalid_client_response oauth_error
unauthenticated lib env request uncaught st = (st, crashed)
unauthenticated lib env request (oauth e) st =
    let counted = record st {
      oauth_failed_authentications = suc st.oauth_failed_authentications;
    } in
    if e.error == "invalid_client"
    then invalid_client_response counted env.call.monotonic env.call.wall
        (extract_client_id_for_penalty lib request.form request.authorization) e.description
    else (counted, refused (oauth_error e))

-- `oauth_error(exc.error, exc.description)` of a `DpopError`.
abbrev pub dpop_refused : DpopError → Response
dpop_refused e = refused (oauth_error (bad_request e.error e.description))

abbrev pub not_utf8 : DpopError
not_utf8 = record { error = "invalid_request"; description = "DPoP header is not valid UTF-8" }

abbrev pub demanded : Demand → Option DpopValidated → Result Response (Option DpopValidated)
demanded met proved = ok proved
demanded (use_dpop_nonce description nonce) proved = err (nonce_required description nonce)
demanded (forged description) proved =
    err (dpop_refused (record { error = "invalid_dpop_proof"; description = description }))

abbrev pub with_nonce :
    Env → Client → Result Failure DpopValidated → Result Response (Option DpopValidated)
with_nonce env client (err (invalid e)) = err (dpop_refused e)
with_nonce env client (err escapes) = err crashed
with_nonce env client (ok validated) =
    if client.dpop_nonce_required
    then demanded (enforce_dpop_nonce validated env.nonce_issuer env.call.wall) (some validated)
    else ok (some validated)

-- The proof of the request, if it has one.
abbrev pub prove_header :
    Proof.Library
    → Env
    → Client
    → DpopHeader
    → AppState
    → AppState × Result Response (Option DpopValidated)
prove_header lib env client missing st = (st, ok none)
prove_header lib env client undecodable st = (st, err (dpop_refused not_utf8))
prove_header lib env client (proof header) st =
    let (replay, r) =
      validate_dpop_proof lib env.call.wall env.call.later header "post"
        (append (rstrip_slash env.config.issuer) "/oauth/token") none st.dpop_replay in
    (record st { dpop_replay = replay }, with_nonce env client r)

-- The dispatch on the grant.
unfoldable pub grant :
    Libraries
    → Env
    → Request
    → Client
    → GrantType
    → Option DpopValidated
    → AppState
    → AppState × Response
unfolding redeem_code refresh redeem_device client_credentials token_exchange jwt_bearer cnf_of
grant libs env request client authorization_code proved st =
    redeem_code libs.tokens env.config env.fresh env.call.wall client request.form proved
      (cnf_of proved request.mtls.0) st
grant libs env request client refresh_token proved st =
    refresh libs.tokens env.config env.fresh env.call.wall client request.form proved st
grant libs env request client device_code proved st =
    redeem_device libs.tokens env.config env.fresh env.call.monotonic env.call.wall client
      request.form proved st
grant libs env request client credentials proved st =
    client_credentials libs.tokens env.config env.fresh env.call.monotonic env.call.wall client
      request.form proved (cnf_of proved request.mtls.0) st
grant libs env request client exchange proved st =
    token_exchange libs.tokens env.config env.fresh env.call.monotonic env.call.wall client
      request.form proved (cnf_of proved request.mtls.0) st
grant libs env request client bearer proved st =
    jwt_bearer libs.tokens libs.bearer env.call env.config env.fresh client request.form proved
      (cnf_of proved request.mtls.0) st

abbrev pub after_proof :
    Libraries
    → Env
    → Request
    → Client
    → GrantType
    → AppState
    → Result Response (Option DpopValidated)
    → AppState × Response
after_proof libs env request client g st (err answer) = (st, answer)
after_proof libs env request client g st (ok proved) = grant libs env request client g proved st

abbrev pub after_client :
    Libraries → Env → Request → GrantType → AppState → Result Raised Client → AppState × Response
after_client libs env request g st (err e) = unauthenticated libs.clients env request e st
after_client libs env request g st (ok client) =
    let (after, proved) = prove_header libs.dpop env client request.dpop st in
    after_proof libs env request client g after proved

-- `ClientService.from_app`
abbrev pub service_of : Env → AppState → ClientService
service_of env st = record {
  storage = st.storage;
  issuer = some env.config.issuer;
  jwks_cache = some st.jwks_cache;
  jti_guard = some st.jti_guard;
  events = st.events;
}

abbrev pub kept {ℓ} : {A : Type ℓ} → Option A → A → A
kept none a = a
kept (some b) a = b

-- The state after the authentication, whose stores are shared.
abbrev pub after_service : ClientService → AppState → AppState
after_service service st = record st {
  jwks_cache = kept service.jwks_cache st.jwks_cache;
  jti_guard = kept service.jti_guard st.jti_guard;
  events = service.events;
}

abbrev pub call_of : Env → Clients.Call
call_of env = record {
  wall = env.call.wall;
  monotonic = env.call.monotonic;
  later = env.call.later;
  reply = env.client_reply;
}

abbrev pub dispatch :
    Libraries → Env → Request → String → Option GrantType → AppState → AppState × Response
dispatch libs env request name none st = (
  st,
  refused (
      oauth_error (record {
        error = "unsupported_grant_type";
        description = about "grant_type is not supported" name;
        status = 400;
      })),
)
dispatch libs env request name (some g) st =
    let (service, client) =
      authenticate libs.clients (call_of env) request.form request.authorization request.mtls
        (service_of env st) in
    after_client libs env request g (after_service service st) client

abbrev pub named : Libraries → Env → Request → AppState → Option String → AppState × Response
named libs env request st none =
    (st, refused (oauth_error (bad_request "invalid_request" "grant_type is required")))
named libs env request st (some name) = dispatch libs env request name (known_grant_type name) st

unfoldable pub token : Libraries → Env → Request → AppState → AppState × Response
unfolding known_grant_type unauthenticated grant authenticate validate_dpop_proof enforce_dpop_nonce
    rstrip_slash oauth_error
token libs env request st = named libs env request st (truthy (request.form "grant_type"))
