-- ===== src/Routes/Token/Exchange.antt =====
-- routes/token.py: the token exchange grant of RFC 8693.
pub mod Laws
use python_oauth2_server.Prelude.{
  ltb, is_some, truthy, elem, same_text, ℕ, String, false, not, Option, none, some, Result, ok,
  guard, map_err, require, if◌then◌else◌, ◌&&◌, ◌||◌, ◌>>=◌, ◌>>◌,
}
use python_oauth2_server.Json.{Fields, Value, str, obj, field, end, get_field, as_str, as_obj}
use python_oauth2_server.Errors.{text, OAuthError, limit}
use python_oauth2_server.Clock.{second}
use python_oauth2_server.Models.{Client, Token, is_public, grant_type_list}
use python_oauth2_server.Storage.{Storage, get_token_by_access_token}
use python_oauth2_server.Services.Dpop.{DpopValidated}
use python_oauth2_server.Services.Limits.{check_depth}
use python_oauth2_server.Services.Resource.{validate_resource}
use python_oauth2_server.Services.Tokens.{Config, Fresh, Grant}
use python_oauth2_server.Routes.Token.{
  raised, Library, AppState, Form, Response, exchanged, Refusal, plain, refusal, unauthorized,
  after_checks, requested_scope, issue_token, sends_nonce, invalid_client_response,
}

abbrev pub token_exchange_grant : String
token_exchange_grant = "urn:ietf:params:oauth:grant-type:token-exchange"

abbrev pub access_token_type_urn : String
access_token_type_urn = "urn:ietf:params:oauth:token-type:access_token"

-- The `act` of the new token, around the `act` of the subject token, if that is of another client.
unfoldable pub act_of : Client → Option Fields → Fields
act_of client none = field "sub" (str client.client_id) end
act_of client (some prior) =
    if same_text (as_str (get_field "sub" prior)) (some client.client_id)
    then field "sub" (str client.client_id) end
    else field "sub" (str client.client_id) (field "act" (obj prior) end)

abbrev pub subject_type_error : Refusal
subject_type_error =
    refusal "invalid_request"
      "unsupported subject_token_type: only 'urn:ietf:params:oauth:token-type:access_token' is supported"

abbrev pub requested_type_error : Refusal
requested_type_error =
    refusal "invalid_request"
      "unsupported requested_token_type: only 'urn:ietf:params:oauth:token-type:access_token' is supported"

abbrev pub max_act_depth : ℕ
max_act_depth = 10

-- What the checks find.
pub record Exchange : Type 0 where
  pub subject_row : Token
  pub scope : String
  pub act : Fields
  pub resource : Option String

-- The checks after that of the kind of client.
unfoldable pub check_exchange : Library → ℕ → Client → Form → Storage → Result Refusal Exchange
unfolding act_of
check_exchange lib now client form storage = do
  subject_token ←
      require (truthy (form "subject_token")) (refusal "invalid_request" "Missing subject_token")
  guard (same_text (form "subject_token_type") (some access_token_type_urn)) subject_type_error
  guard
      (same_text (form "requested_token_type") none
        || same_text (form "requested_token_type") (some access_token_type_urn))
      requested_type_error
  row ←
      require (get_token_by_access_token storage subject_token)
        (refusal "invalid_grant" "subject_token not found or expired")
  guard (not row.revoked && ltb now row.expires_at)
      (refusal "invalid_grant" "subject_token is expired or revoked")
  scope ←
      requested_scope (truthy (form "scope")) row.scope "requested scope exceeds client permissions"
  let act = act_of client (as_obj (get_field "act" (lib.decode_unverified_claims subject_token)))
  map_err (λ e. plain (record { error = "invalid_request"; description = limit e; status = 400 }))
      (check_depth (obj act) "act" max_act_depth)
  resource ← map_err raised (validate_resource lib.urlsplit (form "resource"))
  ok (record { subject_row = row; scope = scope; act = act; resource = resource })

unfoldable pub grant_of : Exchange → Option Fields → Grant
grant_of exchange cnf = record {
  user_id = exchange.subject_row.user_id;
  scope = exchange.scope;
  with_refresh = false;
  token_family = none;
  cnf = cnf;
  authorization_details = none;
  act = some exchange.act;
  resource = exchange.resource;
  audience = none;
}

unfoldable pub issue_exchanged :
    Library
    → Config
    → Fresh
    → ℕ
    → Client
    → Form
    → Option DpopValidated
    → Option Fields
    → Exchange
    → AppState
    → AppState × Response
unfolding issue_token grant_of
issue_exchanged lib config fresh now client form proof cnf exchange st =
    let (after, r) = issue_token lib config fresh now client (grant_of exchange cnf) st in
    (
      after,
      exchanged r (if is_some (form "actor_token") then some exchange.act else none)
          (sends_nonce client proof),
    )

unfoldable pub token_exchange :
    Library
    → Config
    → Fresh
    → ℕ
    → ℕ
    → Client
    → Form
    → Option DpopValidated
    → Option Fields
    → AppState
    → AppState × Response
unfolding check_exchange issue_exchanged after_checks invalid_client_response
token_exchange lib config fresh monotonic now client form proof cnf st =
    let rejected =
      invalid_client_response st monotonic now (some client.client_id)
        (text "Public clients cannot use token-exchange") in
    after_checks
      (guard (elem token_exchange_grant (grant_type_list lib.loads_texts client)) unauthorized) st
      (λ listed.
        if is_public client
        then rejected
        else after_checks (check_exchange lib now client form st.storage) st
            (λ exchange. issue_exchanged lib config fresh now client form proof cnf exchange st))
