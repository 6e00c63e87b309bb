-- ===== src/Services/Clients/Assertion.antt =====
-- services/clients.py: authentication by a signed assertion.
use python_oauth2_server.Prelude.{
  truthy, String, Option, some, [], Result, ok, err, guard, require, ◌==◌, ◌∷◌, ◌>>=◌, ◌>>◌,
}
use python_oauth2_server.Json.{Value}
use python_oauth2_server.Errors.{Raised, invalid_client}
use python_oauth2_server.Models.{Client}
use python_oauth2_server.Strings.{rstrip_slash}
use python_oauth2_server.Services.JwksCache.{resolve_client_jwks}
use python_oauth2_server.Services.ClientAssertion.{JtiReplayGuard}
use python_oauth2_server.Services.ClientAssertion.Verify.{validate_client_assertion}
use python_oauth2_server.Services.Clients.{Library, Call, ClientService}

-- The form of an assertion: the issuer, the guard and the assertion.
unfoldable pub check_form :
    ClientService → (String → Option String) → Result Raised (String × JtiReplayGuard × String)
check_form st form = do
  let unconfigured = invalid_client "Client is not configured for JWT authentication"
  issuer ← require st.issuer unconfigured
  g ← require st.jti_guard unconfigured
  assertion_type ←
      require (truthy (form "client_assertion_type"))
        (invalid_client "Missing client_assertion_type")
  guard (assertion_type == "urn:ietf:params:oauth:client-assertion-type:jwt-bearer")
      (invalid_client "Unsupported client_assertion_type")
  assertion ← require (truthy (form "client_assertion")) (invalid_client "Missing client_assertion")
  ok (issuer, g, assertion)

abbrev pub token_endpoint_url : String → String
token_endpoint_url issuer = Prim.Native.String.◌++◌ (rstrip_slash issuer) "/oauth/token"

abbrev pub validated :
    Library
    → Call
    → Client
    → String × JtiReplayGuard × String
    → ClientService
    → Result Raised (Option Value)
    → ClientService × Result Raised (Unit {0})
validated lib call client checked st (err e) = (st, err e)
validated lib call client (issuer, g, assertion) st (ok jwks) =
    let (after, r) =
      validate_client_assertion lib.jwt call.wall call.later client assertion
        (token_endpoint_url issuer) jwks g in
    (record st { jti_guard = some after }, r)

abbrev pub after_form :
    Library
    → Call
    → Client
    → ClientService
    → Result Raised (String × JtiReplayGuard × String)
    → ClientService × Result Raised (Unit {0})
after_form lib call client st (err e) = (st, err e)
after_form lib call client st (ok checked) =
    let (cache, jwks) =
      resolve_client_jwks lib.json_loads client st.jwks_cache ("private_key_jwt" ∷ [])
        call.monotonic call.reply call.later in
    validated lib call client checked (record st { jwks_cache = cache }) jwks

unfoldable pub authenticate_jwt :
    Library
    → Call
    → Client
    → (String → Option String)
    → ClientService
    → ClientService × Result Raised (Unit {0})
unfolding check_form resolve_client_jwks validate_client_assertion rstrip_slash
authenticate_jwt lib call client form st = after_form lib call client st (check_form st form)
