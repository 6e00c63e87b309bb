-- ===== src/Routes/Token/Refresh.antt =====
-- routes/token.py: the refresh_token grant.
pub mod Checks
pub mod Laws
use python_oauth2_server.Prelude.{
  ltb, truthy, elem, ℕ, String, Bool, true, not, Option, none, some, List, [], Result, ok, guard,
  map_err, require, ◌==◌, ◌+◌, ◌*◌, ◌||◌, ◌∷◌, ◌>>=◌, ◌>>◌,
}
use python_oauth2_server.Clock.{second}
use python_oauth2_server.Json.{Fields, Value, str, arr, nil, cons, get_field, as_str, as_obj, texts}
use python_oauth2_server.Errors.{bad_request}
use python_oauth2_server.Models.{Client, Token, is_public, grant_type_list}
use python_oauth2_server.Storage.{Storage, get_token_by_refresh_token, revoke_token}
use python_oauth2_server.Services.Dpop.{DpopValidated}
use python_oauth2_server.Services.Resource.{validate_resource}
use python_oauth2_server.Services.Tokens.{Config, Fresh, Grant, jkt_of}
use python_oauth2_server.Routes.Token.{
  raised, Library, AppState, Form, Response, Refusal, plain, unrecognized, reuse, refusal,
  unauthorized, after_checks, proves, requested_scope, issue_token, respond,
}

-- `_salvage_old_cnf`
unfoldable pub salvage_old_cnf : (String → Fields) → String → Option Fields
salvage_old_cnf decode access_token = as_obj (get_field "cnf" (decode access_token))

-- The texts of an `aud` claim, which is a text or a list of texts that is not empty.
abbrev pub audience : Option Value → Option (List String)
audience (some (str a)) = some (a ∷ [])
audience (some (arr (cons x xs))) = texts (cons x xs)
audience _ = none

-- `_salvage_old_aud`
unfoldable pub salvage_old_aud : (String → Fields) → String → Option (List String)
salvage_old_aud decode access_token = audience (get_field "aud" (decode access_token))

abbrev pub find_token : Storage → Option String → Option Token
find_token storage none = none
find_token storage (some value) = get_token_by_refresh_token storage value

-- The audience to carry forward: none where the request names a resource or the old one is unknown.
unfoldable pub carried_audience :
    Option (List String) → Option String → Result Refusal (Option (List String))
carried_audience none resource = ok none
carried_audience (some old) none = ok (some old)
carried_audience (some old) (some resource) = do
  guard (elem resource old)
      (refusal "invalid_target" "resource is not among the audiences originally granted")
  ok none

-- A public client proves the key that the old token is bound to.
abbrev pub key_proved : Client → Option String → Option DpopValidated → Bool
key_proved client none proof = true
key_proved client (some jkt) proof = not (is_public client) || proves jkt proof

-- What the checks find: the old token, and the grant of the new one up to its family.
pub record Rotation : Type 0 where
  pub old_token : Token
  pub scope : String
  pub resource : Option String
  pub audience : Option (List String)
  pub cnf : Option Fields

-- The checks before the old token is revoked.
unfoldable pub check_refresh :
    Library → Config → ℕ → Client → Form → Option DpopValidated → Storage → Result Refusal Rotation
unfolding carried_audience salvage_old_cnf salvage_old_aud
check_refresh lib config now client form proof storage = do
  guard (elem "refresh_token" (grant_type_list lib.loads_texts client)) unauthorized
  old_token ←
      require (find_token storage (truthy (form "refresh_token")))
        (unrecognized (bad_request "invalid_grant" "refresh token not found"))
  guard (old_token.client_id == client.client_id)
      (refusal "invalid_grant" "refresh token does not belong to this client")
  guard (not old_token.revoked) (reuse old_token.token_family "refresh token has been revoked")
  guard (ltb now (old_token.created_at + config.refresh_token_ttl_secs * second))
      (refusal "invalid_grant" "refresh token has expired")
  scope ←
      requested_scope (truthy (form "scope")) old_token.scope
        "requested scope exceeds the original grant"
  resource ← map_err raised (validate_resource lib.urlsplit (form "resource"))
  audience ←
      carried_audience (salvage_old_aud lib.decode_unverified_claims old_token.access_token)
        resource
  guard
      (key_proved client
        (jkt_of (salvage_old_cnf lib.decode_unverified_claims old_token.access_token)) proof)
      (refusal "invalid_grant"
        "refresh token is bound to a DPoP key; present a proof with the same key")
  ok (record {
    old_token = old_token;
    scope = scope;
    resource = resource;
    audience = audience;
    cnf = salvage_old_cnf lib.decode_unverified_claims old_token.access_token;
  })

-- `old_token.token_family or uuid.uuid4().hex`
abbrev pub family_of : Fresh → Token → String
family_of fresh old_token = elim (truthy old_token.token_family) [
  | none ↦ fresh.family
  | some family ↦ family
]

unfoldable pub grant_of : Fresh → Rotation → Grant
grant_of fresh rotation = record {
  user_id = rotation.old_token.user_id;
  scope = rotation.scope;
  with_refresh = true;
  token_family = some (family_of fresh rotation.old_token);
  cnf = rotation.cnf;
  authorization_details = none;
  act = none;
  resource = rotation.resource;
  audience = rotation.audience;
}

-- From the revocation of the old token on.
unfoldable pub rotate :
    Library
    → Config
    → Fresh
    → ℕ
    → Client
    → Option DpopValidated
    → Rotation
    → AppState
    → AppState × Response
unfolding grant_of issue_token respond revoke_token
rotate lib config fresh now client proof rotation st =
    let revoked = record st { storage = revoke_token st.storage rotation.old_token.access_token } in
    let (after, r) = issue_token lib config fresh now client (grant_of fresh rotation) revoked in
    (after, respond lib client proof (truthy rotation.old_token.user_id) none r)

unfoldable pub refresh :
    Library
    → Config
    → Fresh
    → ℕ
    → Client
    → Form
    → Option DpopValidated
    → AppState
    → AppState × Response
unfolding check_refresh rotate after_checks
refresh lib config fresh now client form proof st =
    after_checks (check_refresh lib config now client form proof st.storage) st
      (λ rotation. rotate lib config fresh now client proof rotation st)
