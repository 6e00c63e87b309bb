-- ===== src/Routes/Token/Code.antt =====
-- routes/token.py: the authorization_code grant.
pub mod RoundTrip
pub mod Laws
use Prim.Native.String.{count}
use python_oauth2_server.Prelude.{
  leb, eqb, truthy, elem, same_text, ℕ, String, Bool, true, false, not, Option, none, some, [],
  Result, ok, guard, map_err, require, if◌then◌else◌, ◌==◌, ◌&&◌, ◌>>=◌, ◌>>◌,
}
use python_oauth2_server.Json.{Fields, Items}
use python_oauth2_server.Errors.{OAuthError, bad_request, oauth_error}
use python_oauth2_server.Models.{Client, AuthorizationCode, grant_type_list}
use python_oauth2_server.Storage.{Storage, get_authorization_code, mark_authorization_code_used}
use python_oauth2_server.Services.EventsBus.{Event}
use python_oauth2_server.Services.Dpop.{DpopValidated}
use python_oauth2_server.Services.Rar.{validate_authorization_details}
use python_oauth2_server.Services.Tokens.{Config, Fresh, Grant}
use python_oauth2_server.Routes.Token.{
  Library, AppState, Form, Response, refused, Refusal, plain, expired_code, reuse, refusal,
  unauthorized, refuse, after_checks, log, proves, issue_token, respond,
}

abbrev pub min_verifier_len : ℕ
min_verifier_len = 43

abbrev pub max_verifier_len : ℕ
max_verifier_len = 128

abbrev pub used_before : AuthorizationCode → Refusal
used_before code = reuse code.token_family "authorization code has already been used"

-- The PKCE block.
unfoldable pub check_pkce : (String → String) → Form → AuthorizationCode → Result Refusal (Unit {0})
check_pkce pkce_challenge form code = do
  challenge ← require (truthy code.code_challenge) (refusal "invalid_grant" "PKCE is required")
  verifier ←
      require (truthy (form "code_verifier")) (refusal "invalid_grant" "code_verifier is missing")
  guard (leb min_verifier_len (count verifier) && leb (count verifier) max_verifier_len)
      (refusal "invalid_request" "code_verifier must be between 43 and 128 characters")
  guard (pkce_challenge verifier == challenge)
      (refusal "invalid_grant" "code_verifier does not match code_challenge")

-- Whether both details are given and differ.
abbrev altered : Option String → Option String → Bool
altered (some stored) (some given) = not (given == stored)
altered _ _ = false

abbrev stored_or : Option String → Option String → Option String
stored_or (some stored) given = some stored
stored_or none given = given

-- The authorization details of the code, or else those of the request.
unfoldable pub check_details :
    Library → Config → Form → AuthorizationCode → Result Refusal (Option Items)
check_details lib config form code = do
  guard (not (altered code.authorization_details (form "authorization_details"))) (
      refusal "invalid_authorization_details"
        "authorization_details must not be altered at redemption")
  elim (stored_or code.authorization_details (form "authorization_details")) [
    | none ↦ ok none
    | some raw ↦ map_err plain (do
      details ← validate_authorization_details lib.json_loads raw config.rar_types_supported
      ok (some details))
  ]

abbrev pub find_code : Storage → Option String → Option AuthorizationCode
find_code storage none = none
find_code storage (some value) = get_authorization_code storage value

-- The checks before the code is claimed.
unfoldable pub check_code :
    Library
    → Config
    → ℕ
    → Client
    → Form
    → Storage
    → Result Refusal (AuthorizationCode × Option Items)
unfolding check_pkce check_details
check_code lib config now client form storage = do
  guard (elem "authorization_code" (grant_type_list lib.loads_texts client)) unauthorized
  code ←
      require (find_code storage (truthy (form "code")))
        (refusal "invalid_grant" "authorization code not found")
  guard (code.client_id == client.client_id)
      (refusal "invalid_grant" "authorization code was not issued to this client")
  guard (leb now code.expires_at) (expired_code code)
  guard (not code.used) (used_before code)
  guard (same_text (form "redirect_uri") (some code.redirect_uri))
      (refusal "invalid_grant" "redirect_uri does not match the authorization request")
  check_pkce lib.pkce_challenge form code
  details ← check_details lib config form code
  ok (code, details)

-- `expected_jkt` of the code and the key of the request.
abbrev pub bound_to : Option String → Option DpopValidated → Bool
bound_to none proof = true
bound_to (some jkt) proof = proves jkt proof

unfoldable pub grant_of : AuthorizationCode → Option Fields → Option Items → Grant
grant_of code cnf details = record {
  user_id = some code.user_id;
  scope = code.scope;
  with_refresh = true;
  token_family = code.token_family;
  cnf = cnf;
  authorization_details = details;
  act = none;
  resource = code.resource;
  audience = none;
}

abbrev pub validated : AuthorizationCode → AppState → AppState
validated code st =
    log
      (record {
        event_type = "authorization_code_validated";
        user_id = some code.user_id;
        client_id = code.client_id;
        metadata = [];
      })
      st

-- The code is claimed by now: its binding, the token and the answer.
unfoldable pub issue_for_code :
    Library
    → Config
    → Fresh
    → ℕ
    → Client
    → Option DpopValidated
    → Option Fields
    → AuthorizationCode
    → Option Items
    → AppState
    → AppState × Response
unfolding proves issue_token respond
issue_for_code lib config fresh now client proof cnf code details st =
    if bound_to code.dpop_jkt proof
    then (let (after, r) =
          issue_token lib config fresh now client (grant_of code cnf details) (validated code st) in
        (after, respond lib client proof (some code.user_id) (some code) r))
    else (
      st,
      refused (
          oauth_error
            (bad_request "invalid_grant" "authorization code is bound to a different DPoP key")),
    )

-- From the UPDATE that claims the code on.
unfoldable pub claim_code :
    Library
    → Config
    → Fresh
    → ℕ
    → Client
    → Option DpopValidated
    → Option Fields
    → AuthorizationCode
    → Option Items
    → AppState
    → AppState × Response
unfolding issue_for_code mark_authorization_code_used
claim_code lib config fresh now client proof cnf code details st =
    let (storage, claimed) = mark_authorization_code_used st.storage code.code in
    let after = record st { storage = storage } in
    if eqb claimed 0
    then refuse after (used_before code)
    else issue_for_code lib config fresh now client proof cnf code details after

unfoldable pub redeem_code :
    Library
    → Config
    → Fresh
    → ℕ
    → Client
    → Form
    → Option DpopValidated
    → Option Fields
    → AppState
    → AppState × Response
unfolding check_code claim_code after_checks
redeem_code lib config fresh now client form proof cnf st =
    after_checks (check_code lib config now client form st.storage) st
      (λ checked. claim_code lib config fresh now client proof cnf checked.0 checked.1 st)
