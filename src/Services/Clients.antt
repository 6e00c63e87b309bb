-- ===== src/Services/Clients.antt =====
-- services/clients.py: the state and the libraries of the authentication of a client, and the method
-- it is registered with. base64, UTF-8 and the decoding of a form are parameters; the comparison of
-- secrets is that of texts.
pub mod Identity
pub mod RedirectUri
pub mod Assertion
pub mod Certificate
pub mod Authenticate
pub mod Registered
pub mod Methods
pub mod Laws
use python_oauth2_server.Prelude.{
  elem, ℕ, String, Bool, Option, none, List, [], Result, err, if◌then◌else◌, ◌==◌, ◌∷◌, ◌++◌,
}
use python_oauth2_server.Json.{
  Fields, Items, Value, Loaded, null, bool, num, str, obj, arr, nil, cons, end, field, get_field,
  as_str,
}
use python_oauth2_server.Errors.{OAuthError, bad_request, Raised, oauth, uncaught, invalid_client}
use python_oauth2_server.Models.{Client, is_public}
use python_oauth2_server.Storage.{Storage}
use python_oauth2_server.Storage.Clients.{get_client}
use python_oauth2_server.Storage.Denylist.{check_subject_denylisted}
use python_oauth2_server.Strings.{strip, cut, drop_chars, starts_with_lower, rstrip_slash}
use python_oauth2_server.Services.EventsBus.{Event}
use python_oauth2_server.Services.Jwt.{Jwt, claim_is}
use python_oauth2_server.Services.JwksCache.{JwksCache, Answer, resolve_client_jwks}
use python_oauth2_server.Services.ClientAssertion.{JtiReplayGuard}
use python_oauth2_server.Services.ClientAssertion.Verify.{
  unverified_assertion_subject, validate_client_assertion,
}

pub record Library : Type 0 where
  pub jwt : Jwt
  pub json_loads : String → Loaded
  -- `b64decode(encoded).decode("utf-8")`; `none` is one of the two errors
  pub b64decode_text : String → Option String
  pub unquote_plus : String → String
  -- whether `json.loads` makes 0 of a number
  pub is_zero : String → Bool

-- What one request reads besides: the clocks, and what the server of `jwks_uri` answers.
pub record Call : Type 0 where
  pub wall : ℕ
  pub monotonic : ℕ
  pub later : ℕ
  pub reply : Answer

pub record ClientService : Type 0 where
  pub storage : Storage
  pub issuer : Option String
  pub jwks_cache : Option JwksCache
  pub jti_guard : Option JtiReplayGuard
  pub events : List Event

-- `_secrets_equal`
abbrev pub secrets_equal : String → String → Bool
secrets_equal a b = a == b

-- The registered method, which alone decides on the credential.
pub data Method : Type 0 where
  by_none by_jwt by_tls by_self_signed by_secret : Method

unfoldable pub method_of : Client → Method
unfolding is_public
method_of client =
    let method = client.token_endpoint_auth_method in
    if is_public client
    then by_none
    else if elem method ("client_secret_jwt" ∷ "private_key_jwt" ∷ [])
    then by_jwt
    else if method == "tls_client_auth"
    then by_tls
    else if method == "self_signed_tls_client_auth"
    then by_self_signed
    else by_secret

-- `_emit_client_validated`
unfoldable pub emit_client_validated : String → Bool → ClientService → ClientService
emit_client_validated client_id success st = record st {
  events =
      st.events
      ++ (record {
        event_type = "client_validated";
        user_id = none;
        client_id = client_id;
        metadata = ("success", if success then "true" else "false") ∷ [];
      })
        ∷ [];
}

abbrev pub raise : String → Result Raised (Unit {0})
raise description = err (invalid_client description)
