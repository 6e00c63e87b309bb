-- ===== src/Routes/Introspect.antt =====
-- routes/introspect.py: `POST /oauth/introspect`, without the JWT form of its answer. The verified decoding of
-- an access token is a parameter.
pub mod Bindings
pub mod Laws
use Prim.Native.String.{◌++◌ as append}
use python_oauth2_server.Prelude.{
  ltb, filter_option, truthy, same_text, ℕ, String, Bool, true, false, not, Option, none, some,
  List, [], Result, ok, err, if◌then◌else◌, ◌==◌, ◌+◌, ◌*◌, ◌/◌, ◌&&◌, ◌∷◌,
}
use python_oauth2_server.Clock.{second}
use python_oauth2_server.Json.{Fields, Value, null, str, get_field, as_str, as_obj}
use python_oauth2_server.Errors.{OAuthError, Raised, oauth, uncaught, bad_request, oauth_error}
use python_oauth2_server.Models.{Client, Token, User}
use python_oauth2_server.Strings.{rstrip_slash}
use python_oauth2_server.Storage.{
  Storage, get_token_by_access_token, get_token_by_refresh_token, revoke_token, revoke_token_family,
}
use python_oauth2_server.Storage.Users.{get_user_by_id}
use python_oauth2_server.Services.EventsBus.{Event}
use python_oauth2_server.Services.Dpop.{DpopError, DpopValidated, DpopReplayStore}
use python_oauth2_server.Services.Dpop.Proof
use python_oauth2_server.Services.Dpop.Proof.{
  Failure, invalid, escapes, validate_dpop_proof, is_false,
}
use python_oauth2_server.Services.Tokens.{Config}
use python_oauth2_server.Services.Clients.Authenticate.{authenticate}
use python_oauth2_server.Routes.Token.{AppState, log}
use python_oauth2_server.Routes.Token.Endpoint.{
  Libraries, Request, Env, DpopHeader, missing, undecodable, proof, service_of, after_service,
  call_of,
}

-- The members of an active `IntrospectionResponse` that are not constant.
pub record Body : Type 0 where
  pub scope : String
  pub client_id : String
  pub username : Option String
  pub exp : ℕ
  pub iat : ℕ
  pub sub : String
  pub aud : List String
  pub jti : String
  pub iss : String
  pub cnf : Option Fields
  pub authorization_details : Option Value

-- An answer with a result, none for an inactive token; an error; or an exception.
pub data Reply : Type 0 where
  result : Option Body → Reply
  refused : OAuthError → Reply
  crashed : Reply

-- `_lookup_token`: the row, and whether its refresh token was matched.
unfoldable pub lookup_token : Storage → String → Option (Token × Bool)
unfolding get_token_by_access_token get_token_by_refresh_token
lookup_token storage value = elim (get_token_by_access_token storage value) [
  | some row ↦ some (row, false)
  | none ↦ elim (get_token_by_refresh_token storage value) [
    | some row ↦ some (row, true)
    | none ↦ none
  ]
]

unfoldable pub expiry_deadline : Config → Token → Bool → ℕ
expiry_deadline config row matched_via_refresh =
    if matched_via_refresh
    then row.created_at + config.refresh_token_ttl_secs * second
    else row.expires_at

unfoldable pub is_active : Config → ℕ → Token × Bool → Bool
unfolding expiry_deadline
is_active config now (row, via_refresh) =
    not row.revoked && ltb now (expiry_deadline config row via_refresh)

-- The key that the claims are bound to, if `jkt` is anything that Python takes for true.
unfoldable pub bound_key : (String → Bool) → Option Fields → Option Value
unfolding get_field
bound_key is_zero none = none
bound_key is_zero (some cnf) = filter_option (λ v. not (is_false is_zero v)) (get_field "jkt" cnf)

unfoldable pub bound_thumbprint : Option Fields → Option String
unfolding get_field
bound_thumbprint none = none
bound_thumbprint (some cnf) = truthy (as_str (get_field "x5t#S256" cnf))

-- What a binding check comes to: it is passed, the token counts as inactive, an error or an
-- exception.
pub data Check : Type 0 where
  passed inactive failed : Check
  error : DpopError → Check

abbrev pub same_key : Value → Result Failure DpopValidated → Check
same_key jkt (err (invalid e)) = inactive
same_key jkt (err escapes) = failed
same_key jkt (ok v) = if same_text (as_str (some jkt)) (some v.jkt) then passed else inactive

unfoldable pub check_key :
    Proof.Library → Env → DpopHeader → Option Value → DpopReplayStore → DpopReplayStore × Check
unfolding validate_dpop_proof rstrip_slash
check_key lib env header none replay = (replay, passed)
check_key lib env undecodable (some jkt) replay = (
  replay,
  error (record { error = "invalid_request"; description = "DPoP header is not valid UTF-8" }),
)
check_key lib env missing (some jkt) replay = (replay, inactive)
check_key lib env (proof header) (some jkt) replay =
    let (after, r) =
      validate_dpop_proof lib env.call.wall env.call.later header "post"
        (append (rstrip_slash env.config.issuer) "/oauth/introspect") none replay in
    (after, same_key jkt r)

unfoldable pub check_thumbprint : Option String → Option String → Bool
check_thumbprint none presented = true
check_thumbprint (some thumb) presented = same_text presented (some thumb)

-- What is read of a token that decodes with its signature.
pub record Decoded : Type 0 where
  pub jti : String
  pub aud : List String

pub record Decoders : Type 0 where
  -- `decode_unverified_claims`
  pub unverified : String → Fields
  -- `decode_access_token`; none is `PyJWTError`
  pub verified : String → Option Decoded
  -- whether `json.loads` makes 0 of a number
  pub is_zero : String → Bool

abbrev pub username_of : Storage → Option String → Option String
username_of storage none = none
username_of storage (some user_id) = elim (get_user_by_id storage user_id) [
  | none ↦ none
  | some u ↦ some u.username
]

abbrev pub or_client : Option String → Token → String
or_client none row = row.client_id
or_client (some user_id) row = user_id

abbrev pub decoded_or : Option Decoded → Token → Decoded
decoded_or none row = record { jti = row.id; aud = row.client_id ∷ [] }
decoded_or (some d) row = d

-- The `cnf` is told where the token is bound.
abbrev pub told : Option Value → Option String → Option Fields → Option Fields
told none none cnf = none
told _ _ cnf = cnf

-- `exclude_none`
abbrev pub present : Option Value → Option Value
present (some null) = none
present v = v

unfoldable pub body_of : Decoders → Config → Storage → String → Token × Bool → Body
unfolding expiry_deadline bound_key bound_thumbprint get_user_by_id get_field
body_of decoders config storage value (row, via_refresh) =
    let claims = decoders.unverified value in
    let cnf = as_obj (get_field "cnf" claims) in
    let d = decoded_or (decoders.verified value) row in
    record {
      scope = row.scope;
      client_id = row.client_id;
      username = username_of storage (truthy row.user_id);
      exp = expiry_deadline config row via_refresh / second;
      iat = row.created_at / second;
      sub = or_client (truthy row.user_id) row;
      aud = d.aud;
      jti = d.jti;
      iss = config.issuer;
      cnf = told (bound_key decoders.is_zero cnf) (bound_thumbprint cnf) cnf;
      authorization_details = present (get_field "authorization_details" claims);
    }

abbrev pub token_event : String → Token → Event
token_event event_type row = record {
  event_type = event_type;
  user_id = row.user_id;
  client_id = row.client_id;
  metadata = [];
}

abbrev pub after_key :
    Decoders → Config → Option String → String → Token × Bool → AppState → Check → AppState × Reply
after_key decoders config presented value row st inactive = (st, result none)
after_key decoders config presented value row st failed = (st, crashed)
after_key decoders config presented value row st (error e) =
    (st, refused (oauth_error (bad_request e.error e.description)))
after_key decoders config presented value row st passed =
    if check_thumbprint (bound_thumbprint (as_obj (get_field "cnf" (decoders.unverified value))))
      presented
    then (
      log (token_event "token_validated" row.0) st,
      result (some (body_of decoders config st.storage value row)),
    )
    else (st, result none)

-- A row that is live and the client's own.
unfoldable pub introspect_live :
    Libraries → Decoders → Env → Request → String → Token × Bool → AppState → AppState × Reply
unfolding check_key bound_key bound_thumbprint check_thumbprint body_of get_field
introspect_live libs decoders env request value row st =
    let claims = decoders.unverified value in
    let (replay, check) =
      check_key libs.dpop env request.dpop
        (bound_key decoders.is_zero (as_obj (get_field "cnf" claims))) st.dpop_replay in
    after_key decoders env.config request.mtls.0 value row (record st { dpop_replay = replay })
      check

abbrev pub introspect_row :
    Libraries
    → Decoders
    → Env
    → Request
    → Client
    → String
    → Option (Token × Bool)
    → AppState
    → AppState × Reply
introspect_row libs decoders env request client value none st = (st, result none)
introspect_row libs decoders env request client value (some row) st =
    let live = introspect_live libs decoders env request value row st in
    if not (is_active env.config env.call.wall row)
    then (log (token_event "token_expired" row.0) st, result none)
    else if not (row.0.client_id == client.client_id)
    then (st, result none)
    else live

-- What an authenticated client is told of the `token` of its form.
abbrev pub introspect_for :
    Libraries → Decoders → Env → Request → Client → Option String → AppState → AppState × Reply
introspect_for libs decoders env request client none st = (st, result none)
introspect_for libs decoders env request client (some value) st =
    introspect_row libs decoders env request client value (lookup_token st.storage value) st

abbrev pub after_client :
    Libraries → Decoders → Env → Request → AppState → Result Raised Client → AppState × Reply
after_client libs decoders env request st (err uncaught) = (st, crashed)
after_client libs decoders env request st (err (oauth e)) = (st, refused (oauth_error e))
after_client libs decoders env request st (ok client) =
    introspect_for libs decoders env request client (truthy (request.form "token")) st

unfoldable pub introspect : Libraries → Decoders → Env → Request → AppState → AppState × Reply
unfolding authenticate introspect_live is_active lookup_token oauth_error
introspect libs decoders env request st =
    let (service, client) =
      authenticate libs.clients (call_of env) request.form request.authorization request.mtls
        (service_of env st) in
    after_client libs decoders env request (after_service service st) client
