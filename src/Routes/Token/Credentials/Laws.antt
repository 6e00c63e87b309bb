-- ===== src/Routes/Token/Credentials/Laws.antt =====
-- routes/token.py: what a client that acts for itself is given.
use python_oauth2_server.Prelude.{
  truthy, elem, ℕ, refl, sym, Bool, true, false, Option, none, some, ok, map_err, guard_ok, bind_ok,
  else_of, ◌≡◌,
}
use python_oauth2_server.Json.{Fields}
use python_oauth2_server.Errors.{text}
use python_oauth2_server.Models.{Client, TokenResponse, is_public, grant_type_list}
use python_oauth2_server.Services.Dpop.{DpopValidated}
use python_oauth2_server.Services.Resource.{validate_resource}
use python_oauth2_server.Services.Scope.{scope_is_subset}
use python_oauth2_server.Services.Tokens.{Config, Fresh, Grant}
use python_oauth2_server.Routes.Token.{
  raised, Library, AppState, Form, Response, granted, after_checks, requested_scope, sends_nonce,
  issue_token, invalid_client_response,
}
use python_oauth2_server.Routes.Token.Issued.{
  Issued, issue_token-Issued, scope_checked, Grants, after_checks_granted,
  invalid_client_never_grants,
}
use python_oauth2_server.Routes.Token.Credentials.{
  check_details, check_credentials, client_credentials,
}

-- A grant of the client's own: no user, no refresh token, and a part of the client's scope.
pub record OwnGrant (client : Client) (g : Grant) : Type 0 where
  pub no_user : g.user_id ≡ none
  pub no_refresh : g.with_refresh ≡ false
  pub scope_narrows : scope_is_subset g.scope client.scope ≡ true

check_credentials-OwnGrant :
    (lib : Library) (config : Config) (client : Client) (form : Form) (cnf : Option Fields)
    (g : Grant)
    → check_credentials lib config client form cnf ≡ ok g
    → OwnGrant client g
unfolding check_credentials
check_credentials-OwnGrant lib config client form cnf g h =
    let (listed, h1) =
      guard_ok (elem "client_credentials" (grant_type_list lib.loads_texts client)) _ _ _ h in
    let (scope, scoped, h2) =
      bind_ok (requested_scope (truthy (form "scope")) client.scope _) _ _ h1 in
    let (details, valid, h3) = bind_ok (check_details lib config form) _ _ h2 in
    let (resource, absolute, h4) =
      bind_ok (map_err raised (validate_resource lib.urlsplit (form "resource"))) _ _ h3 in
    let g0 : Grant = record {
      user_id = none;
      scope = scope;
      with_refresh = false;
      token_family = none;
      cnf = cnf;
      authorization_details = details;
      act = none;
      resource = resource;
      audience = none;
    } in
    let same : g0 ≡ g = cc in
    rw (sym same) (record {
      no_user = refl;
      no_refresh = refl;
      scope_narrows = scope_checked _ client.scope _ scope scoped;
    })

-- A client_credentials request that is answered with a token came from a client that is not public;
-- the token has no user, no refresh token, and a part of the scope of the client.
pub client_credentials_granted :
    (lib : Library) (config : Config) (fresh : Fresh) (monotonic now : ℕ) (client : Client)
    (form : Form) (proof : Option DpopValidated) (cnf : Option Fields) (st : AppState)
    (r : TokenResponse) (n : Bool)
    → (client_credentials lib config fresh monotonic now client form proof cnf st).1 ≡ granted r n
    → (g : Grant) × (is_public client ≡ false)
      × OwnGrant client g
      × Issued st.storage.tokens
          (client_credentials lib config fresh monotonic now client form proof cnf
            st).0.storage.tokens
          client
          g
          r
unfolding client_credentials
client_credentials_granted lib config fresh monotonic now client form proof cnf st r n h =
    let issue : Grant → AppState × Response = (λ g.
      let (after, r) = issue_token lib config fresh now client g st in
      (after, granted r (sends_nonce client proof))) in
    let rejected =
      invalid_client_response st monotonic now (some client.client_id)
        (text "Public clients cannot use the client_credentials grant") in
    let (confidential, same1, h1) =
      else_of (Grants r n) (is_public client) rejected
        (after_checks (check_credentials lib config client form cnf) st issue) h
        (invalid_client_never_grants st monotonic now _ _ r n) in
    let (g, checked, same2, h2) =
      after_checks_granted (check_credentials lib config client form cnf) st issue r n h1 in
    let response : (issue_token lib config fresh now client g st).1 ≡ r = cc in
    (
      g,
      confidential,
      check_credentials-OwnGrant lib config client form cnf g checked,
      rw same1 (rw same2 (rw (sym response) (issue_token-Issued lib config fresh now client g st))),
    )
