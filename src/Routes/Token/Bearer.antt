-- ===== src/Routes/Token/Bearer.antt =====
-- routes/token.py: the jwt-bearer grant.
use Prim.Native.String.{◌++◌ as append}
use python_oauth2_server.Prelude.{
  truthy, elem, ℕ, String, false, Option, none, some, Result, ok, guard, map_err, require,
  if◌then◌else◌, ◌>>=◌,
}
use python_oauth2_server.Json.{Fields}
use python_oauth2_server.Errors.{text, Raised}
use python_oauth2_server.Models.{Client, is_public, grant_type_list}
use python_oauth2_server.Strings.{rstrip_slash}
use python_oauth2_server.Services.Dpop.{DpopValidated}
use python_oauth2_server.Services.Resource.{validate_resource}
use python_oauth2_server.Services.Tokens.{Config, Fresh, Grant}
use python_oauth2_server.Services.JwtBearer
use python_oauth2_server.Services.JwtBearer.{Stores}
use python_oauth2_server.Services.JwtBearer.Redeem.{Call, redeem_jwt_bearer_assertion}
use python_oauth2_server.Routes.Token.{
  Library, AppState, Form, Response, granted, Refusal, raised, refusal, unauthorized,
  invalid_client_response, after_checks, requested_scope, issue_token, sends_nonce,
}

abbrev pub jwt_bearer_grant : String
jwt_bearer_grant = "urn:ietf:params:oauth:grant-type:jwt-bearer"

-- The grant, once the local user is known.
unfoldable pub check_bearer :
    Library → Client → Form → Option Fields → Result Raised String → Result Refusal Grant
unfolding requested_scope validate_resource
check_bearer lib client form cnf redeemed = do
  user_id ← map_err raised redeemed
  scope ←
      requested_scope (truthy (form "scope")) client.scope "requested scope exceeds client scope"
  resource ← map_err raised (validate_resource lib.urlsplit (form "resource"))
  ok (record {
    user_id = some user_id;
    scope = scope;
    with_refresh = false;
    token_family = none;
    cnf = cnf;
    authorization_details = none;
    act = none;
    resource = resource;
    audience = none;
  })

abbrev pub issue_bearer :
    Library
    → Config
    → Fresh
    → ℕ
    → Client
    → Option DpopValidated
    → Grant
    → AppState
    → AppState × Response
issue_bearer lib config fresh now client proof g st =
    let (after, r) = issue_token lib config fresh now client g st in
    (after, granted r (sends_nonce client proof))

abbrev pub with_stores : AppState → Stores → AppState
with_stores st stores = record st {
  storage = stores.storage;
  jwks_cache = stores.jwks_cache;
  jti_guard = stores.jti_guard;
}

-- From the redemption of the assertion on.
unfoldable pub redeem_bearer :
    Library
    → JwtBearer.Library
    → Call
    → Config
    → Fresh
    → Client
    → Form
    → Option DpopValidated
    → Option Fields
    → String
    → AppState
    → AppState × Response
unfolding redeem_jwt_bearer_assertion check_bearer after_checks issue_token rstrip_slash
redeem_bearer lib bearer call config fresh client form proof cnf assertion st =
    let issuer = rstrip_slash config.issuer in
    let (stores, redeemed) =
      redeem_jwt_bearer_assertion bearer call assertion client issuer (append issuer "/oauth/token")
        (record { storage = st.storage; jwks_cache = st.jwks_cache; jti_guard = st.jti_guard }) in
    let after = with_stores st stores in
    after_checks (check_bearer lib client form cnf redeemed) after
      (λ g. issue_bearer lib config fresh call.wall client proof g after)

unfoldable pub jwt_bearer :
    Library
    → JwtBearer.Library
    → Call
    → Config
    → Fresh
    → Client
    → Form
    → Option DpopValidated
    → Option Fields
    → AppState
    → AppState × Response
unfolding redeem_bearer after_checks invalid_client_response
jwt_bearer lib bearer call config fresh client form proof cnf st =
    let rejected =
      invalid_client_response st call.monotonic call.wall (some client.client_id)
        (text "Public clients cannot use the jwt-bearer grant") in
    after_checks
      (guard (elem jwt_bearer_grant (grant_type_list lib.loads_texts client)) unauthorized) st
      (λ listed.
        if is_public client
        then rejected
        else after_checks
            (require (truthy (form "assertion"))
              (refusal "invalid_request" "assertion is required"))
            st
            (λ assertion.
              redeem_bearer lib bearer call config fresh client form proof cnf assertion st))
