-- ===== src/Routes/Token/Credentials.antt =====
-- routes/token.py: the client_credentials grant.
pub mod Laws
use python_oauth2_server.Prelude.{
  truthy, elem, ℕ, false, Option, none, some, Result, ok, guard, map_err, if◌then◌else◌, ◌>>=◌,
  ◌>>◌,
}
use python_oauth2_server.Json.{Fields, Items}
use python_oauth2_server.Errors.{text}
use python_oauth2_server.Models.{Client, is_public, grant_type_list}
use python_oauth2_server.Services.Dpop.{DpopValidated}
use python_oauth2_server.Services.Rar.{validate_authorization_details}
use python_oauth2_server.Services.Resource.{validate_resource}
use python_oauth2_server.Services.Tokens.{Config, Fresh, Grant}
use python_oauth2_server.Routes.Token.{
  raised, Library, AppState, Form, Response, granted, Refusal, plain, unauthorized, after_checks,
  requested_scope, issue_token, sends_nonce, invalid_client_response,
}

unfoldable pub check_details : Library → Config → Form → Result Refusal (Option Items)
check_details lib config form = elim (form "authorization_details") [
  | none ↦ ok none
  | some raw ↦ map_err plain (do
    details ← validate_authorization_details lib.json_loads raw config.rar_types_supported
    ok (some details))
]

-- The checks after that of the kind of client, and the grant.
unfoldable pub check_credentials :
    Library → Config → Client → Form → Option Fields → Result Refusal Grant
unfolding check_details
check_credentials lib config client form cnf = do
  guard (elem "client_credentials" (grant_type_list lib.loads_texts client)) unauthorized
  scope ←
      requested_scope (truthy (form "scope")) client.scope "requested scope exceeds client scope"
  details ← check_details lib config form
  resource ← map_err raised (validate_resource lib.urlsplit (form "resource"))
  ok (record {
    user_id = none;
    scope = scope;
    with_refresh = false;
    token_family = none;
    cnf = cnf;
    authorization_details = details;
    act = none;
    resource = resource;
    audience = none;
  })

unfoldable pub client_credentials :
    Library
    → Config
    → Fresh
    → ℕ
    → ℕ
    → Client
    → Form
    → Option DpopValidated
    → Option Fields
    → AppState
    → AppState × Response
unfolding check_credentials issue_token after_checks
client_credentials lib config fresh monotonic now client form proof cnf st =
    let rejected =
      invalid_client_response st monotonic now (some client.client_id)
        (text "Public clients cannot use the client_credentials grant") in
    if is_public client
    then rejected
    else after_checks (check_credentials lib config client form cnf) st (λ g.
      let (after, r) = issue_token lib config fresh now client g st in
      (after, granted r (sends_nonce client proof)))
