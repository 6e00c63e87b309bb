-- ===== src/Routes/Token.antt =====
-- routes/token.py: the state of the application that the token endpoint reads and changes, the
-- libraries it calls, its responses, and what its grants share. `form` is `form.get`.
pub mod Issued
pub mod Credentials
pub mod Code
pub mod Refresh
pub mod Device
pub mod Exchange
pub mod Bearer
pub mod Endpoint
use python_oauth2_server.Prelude.{
  is_some, truthy, elem, ℕ, suc, String, Bool, false, not, Option, none, some, List, [], Result, ok,
  err, guard, if◌then◌else◌, ◌==◌, ◌&&◌, ◌∷◌, ◌++◌, ◌>>=◌, ◌>>◌,
}
use python_oauth2_server.Json.{Fields, Value, Loaded, str, field, end}
use python_oauth2_server.Errors.{
  Description, Raised, oauth, uncaught, OAuthError, bad_request, text, oauth_error,
}
use python_oauth2_server.Models.{Client, Claims, AuthorizationCode, TokenResponse}
use python_oauth2_server.Storage.{Storage, revoke_token_family}
use python_oauth2_server.Services.EventsBus.{Event}
use python_oauth2_server.Services.Limiter
use python_oauth2_server.Services.Limiter.{TokenBucketLimiter}
use python_oauth2_server.Services.DevicePoll.{DevicePollTracker}
use python_oauth2_server.Services.Dpop.{DpopValidated, DpopReplayStore}
use python_oauth2_server.Services.JwksCache.{JwksCache}
use python_oauth2_server.Services.ClientAssertion.{JtiReplayGuard}
use python_oauth2_server.Services.Resource.{SplitResult}
use python_oauth2_server.Services.Scope.{split, scope_is_subset}
use python_oauth2_server.Services.Tokens.{Config, Fresh, Grant, issue}

-- What the handler calls outside of the modelled files.
pub record Library : Type 0 where
  -- base64url(sha256(verifier)), without padding
  pub pkce_challenge : String → String
  -- the payload of a JWT, unverified; no fields for any other text
  pub decode_unverified_claims : String → Fields
  pub json_loads : String → Loaded
  -- `json.loads` of a column that holds an array of texts
  pub loads_texts : String → List String
  -- `none` is `ValueError`
  pub urlsplit : String → Option SplitResult
  pub encode_access_token : Claims → String
  -- user, scope, access token and, on the code exchange, the code; the error is a `ValueError`
  pub mint_id_token :
      Client → String → String → String → Option AuthorizationCode → Result String String

pub record AppState : Type 0 where
  pub storage : Storage
  pub jwks_cache : JwksCache
  pub jti_guard : JtiReplayGuard
  pub dpop_replay : DpopReplayStore
  pub device_poll : DevicePollTracker
  pub invalid_client_limiter : Option TokenBucketLimiter
  pub oauth_failed_authentications : ℕ
  pub oauth_token_issued_total : ℕ
  pub events : List Event

-- `act` is the member of an exchange; the flag says whether a `DPoP-Nonce` header is sent.
pub data Response : Type 0 where
  refused : OAuthError → Response
  too_many_requests : Option ℕ → Response
  slow_down : ℕ → Response
  -- `use_dpop_nonce`, with a description and a fresh nonce
  nonce_required : String → String → Response
  -- an exception that nothing catches: status 500
  crashed : Response
  granted : TokenResponse → Bool → Response
  exchanged : TokenResponse → Option Fields → Bool → Response

abbrev pub Form : Type 0
Form = String → Option String

-- The early returns of a grant that has changed nothing yet.
pub data Refusal : Type 0 where
  plain : OAuthError → Refusal
  unrecognized : OAuthError → Refusal
  crash : Refusal
  expired_code : AuthorizationCode → Refusal
  reuse : Option String → String → Refusal

-- An error of a service that the handler catches, or does not.
abbrev pub raised : Raised → Refusal
raised (oauth e) = plain e
raised uncaught = crash

abbrev pub refusal : String → String → Refusal
refusal error description = plain (bad_request error description)

abbrev pub unauthorized : Refusal
unauthorized = refusal "unauthorized_client" "client is not authorized for this grant type"

-- `if family: await storage.revoke_token_family(family)`
unfoldable pub revoke_family : Storage → Option String → Storage
revoke_family storage none = storage
revoke_family storage (some f) = (revoke_token_family storage f).0

abbrev pub log : Event → AppState → AppState
log event st = record st { events = st.events ++ event ∷ [] }

unfoldable pub refuse : AppState → Refusal → AppState × Response
unfolding revoke_family
refuse st (plain e) = (st, refused (oauth_error e))
refuse st crash = (st, crashed)
refuse st (unrecognized e) = (
  record st { oauth_failed_authentications = suc st.oauth_failed_authentications },
  refused (oauth_error e),
)
refuse st (expired_code code) = (
  log
      (record {
        event_type = "authorization_code_expired";
        user_id = some code.user_id;
        client_id = code.client_id;
        metadata = [];
      })
      st,
  refused (oauth_error (bad_request "invalid_grant" "authorization code has expired")),
)
refuse st (reuse family description) = (
  record st { storage = revoke_family st.storage (truthy family) },
  refused (oauth_error (bad_request "invalid_grant" description)),
)

-- The early returns of the checks, or else what follows them.
unfoldable pub after_checks {ℓ} :
    {A : Type ℓ} → Result Refusal A → AppState → (A → AppState × Response) → AppState × Response
unfolding refuse
after_checks (err r) st k = refuse st r
after_checks (ok a) st k = k a

-- `_invalid_client_response`; the limiter reads the monotonic clock and that of the wall.
unfoldable pub invalid_client_response :
    AppState → ℕ → ℕ → Option String → Description → AppState × Response
invalid_client_response st monotonic now client_id description =
    let plain_401 = refused (
      oauth_error (record { error = "invalid_client"; description = description; status = 400 })) in
    elim st.invalid_client_limiter [
      | none ↦ (st, plain_401)
      | some limiter ↦ elim (truthy client_id) [
        | none ↦ (st, plain_401)
        | some key ↦
            let (charged, result) = Limiter.check limiter monotonic now key in
            (
              record st { invalid_client_limiter = some charged },
              if result.allowed then plain_401 else too_many_requests result.retry_after,
            )
      ]
    ]

-- The `cnf` to bind: the key of a DPoP proof, or else the thumbprint of the certificate.
unfoldable pub cnf_of : Option DpopValidated → Option String → Option Fields
cnf_of (some proof) thumbprint = some (field "jkt" (str proof.jkt) end)
cnf_of none (some thumbprint) = some (field "x5t#S256" (str thumbprint) end)
cnf_of none none = none

-- Whether the proof is one of this key.
unfoldable pub proves : String → Option DpopValidated → Bool
proves jkt none = false
proves jkt (some proof) = proof.jkt == jkt

-- The scope of a grant: what is requested may not exceed `allowed`, which is the default.
unfoldable pub requested_scope : Option String → String → String → Result Refusal String
requested_scope none allowed message = ok allowed
requested_scope (some s) allowed message = do
  guard (scope_is_subset s allowed) (refusal "invalid_scope" message)
  ok s

-- `TokenService.issue`, the counter and the event.
unfoldable pub issue_token :
    Library → Config → Fresh → ℕ → Client → Grant → AppState → AppState × TokenResponse
unfolding issue
issue_token lib config fresh now client g st =
    let issued = issue lib.encode_access_token config fresh now client g st.storage in
    (
      record st {
        storage = issued.0;
        oauth_token_issued_total = suc st.oauth_token_issued_total;
        events =
            st.events
            ++ (record {
              event_type = "token_created";
              user_id = g.user_id;
              client_id = client.client_id;
              metadata =
                  ("scope", g.scope)
                  ∷ ("has_refresh_token", if g.with_refresh then "true" else "false")
                  ∷ [];
            })
              ∷ [];
      },
      issued.1,
    )

-- `_with_dpop_nonce`
abbrev pub sends_nonce : Client → Option DpopValidated → Bool
sends_nonce client proof = client.dpop_nonce_required && is_some proof

-- The ID token of a grant with the scope `openid` and a user, and the response.
unfoldable pub respond :
    Library
    → Client
    → Option DpopValidated
    → Option String
    → Option AuthorizationCode
    → TokenResponse
    → Response
respond lib client proof user_id code r =
    let minted : Result String TokenResponse =
      if elem "openid" (split r.scope)
      then elim user_id [
        | none ↦ ok r
        | some user ↦ do
          id_token ← lib.mint_id_token client user r.scope r.access_token code
          ok (record r { id_token = some id_token })
      ]
      else ok r in
    elim minted [
      | ok answer ↦ granted answer (sends_nonce client proof)
      | err message ↦ refused (
          oauth_error (record { error = "server_error"; description = text message; status = 500 }))
    ]
