-- ===== src/Routes/Authorize/Checks.antt =====
-- routes/authorize.py: the checks whose errors are sent to the client, and the login.
use Prim.Native.Char.{Char, code}
use Prim.Native.String.{count}
use python_oauth2_server.Prelude.{
  ltb, leb, eqb, is_some, length, truthy, elem, same_text, ℕ, String, Bool, true, false, not,
  Option, none, some, List, [], Result, ok, guard, map_err, require, ◌+◌, ◌*◌, ◌&&◌, ◌||◌, ◌>>=◌,
  ◌>>◌,
}
use python_oauth2_server.Clock.{second}
use python_oauth2_server.Json.{Value, obj}
use python_oauth2_server.Errors.{text, limit}
use python_oauth2_server.Models.{Client, grant_type_list}
use python_oauth2_server.Services.Limits.{LimitError, check_json_param}
use python_oauth2_server.Services.Rar.{validate_authorization_details}
use python_oauth2_server.Services.Resource.{validate_resource}
use python_oauth2_server.Services.Scope.{split, scope_is_subset}
use python_oauth2_server.Services.Auth.{CodeRequest}
use python_oauth2_server.Strings.{all_chars}
use python_oauth2_server.Routes.Authorize.{
  Library, Config, Session, Params, Target, Refusal, sent, login, sent_as,
}
use python_oauth2_server.Routes.Authorize.Request.{is_supported, is_hybrid, response_type_of}

abbrev pub told : Target → String → String → Refusal
told target error description = sent target error (text description)

abbrev pub is_jkt_char : Char → Bool
is_jkt_char c =
    let n = code c in
    (leb b'A' n && leb n b'Z')
    || (leb b'a' n && leb n b'z')
    || (leb b'0' n && leb n b'9')
    || eqb n b'_'
    || eqb n b'-'

-- `[A-Za-z0-9_-]{43}`
unfoldable pub is_thumbprint : String → Bool
unfolding all_chars
is_thumbprint s = eqb (count s) 43 && all_chars is_jkt_char s

abbrev pub jkt_fits : Option String → Bool
jkt_fits none = true
jkt_fits (some s) = is_thumbprint s

-- The PKCE challenge, which is required with its method.
unfoldable pub check_challenge : Target → Params → Result Refusal String
check_challenge target merged = do
  challenge ←
      require (truthy (merged "code_challenge"))
        (told target "invalid_request" "a PKCE code_challenge is required (RFC 9700 §2.1.1)")
  guard (same_text (merged "code_challenge_method") (some "S256"))
      (told target "invalid_request" "only the S256 code_challenge_method is supported")
  guard (leb 43 (count challenge) && leb (count challenge) 128)
      (told target "invalid_request" "code_challenge must be between 43 and 128 characters")
  ok challenge

unfoldable pub check_details : Library → Config → Target → Option String → Result Refusal (Unit {0})
unfolding validate_authorization_details
check_details lib config target none = ok tt
check_details lib config target (some raw) =
    map_err (λ e. sent target e.error e.description)
      (validate_authorization_details lib.json_loads raw config.rar_types_supported)
    >>= λ details. ok tt

abbrev pub is_object : Value → Bool
is_object (obj fs) = true
is_object _ = false

abbrev pub claims_error : Target → Option LimitError → Refusal
claims_error target none = told target "invalid_request" "claims must be a JSON object"
claims_error target (some e) = sent target "invalid_request" (limit e)

unfoldable pub check_claims : Library → Target → Option String → Result Refusal (Unit {0})
unfolding check_json_param
check_claims lib target none = ok tt
check_claims lib target (some raw) = do
  parsed ← map_err (claims_error target) (check_json_param lib.json_loads raw "claims" 8192 10)
  guard (is_object parsed) (claims_error target none)

abbrev pub default_scope : Option String → String
default_scope none = "read"
default_scope (some scope) = scope

-- The checks of what is asked for: the arguments of `issue_code`.
unfoldable pub check_grant :
    Library → Config → Client → Params → Params → Target → Result Refusal CodeRequest
unfolding check_challenge check_details check_claims validate_resource is_thumbprint grant_type_list
    scope_is_subset
check_grant lib config client params merged target = do
  let response_type = response_type_of params merged
  guard (elem "authorization_code" (grant_type_list lib.loads_texts client))
      (told target "unauthorized_client" "client is not authorized for this grant type")
  guard (is_some (params "request") || is_supported response_type) (
      told target "unsupported_response_type"
        "only the 'code' and 'code id_token' response_types are supported")
  guard (not (is_hybrid response_type) || is_some (truthy (merged "nonce")))
      (told target "invalid_request" "nonce is required for response_type=code id_token")
  let scope = default_scope (truthy (merged "scope"))
  guard (scope_is_subset scope client.scope)
      (told target "invalid_scope" "requested scope exceeds the client's allowed scope")
  challenge ← check_challenge target merged
  details ← check_details lib config target (merged "authorization_details")
  resource ← map_err (sent_as target) (validate_resource lib.urlsplit (merged "resource"))
  claims ← check_claims lib target (merged "claims")
  guard (jkt_fits (merged "dpop_jkt"))
      (told target "invalid_request" "dpop_jkt must be a base64url-encoded SHA-256 JWK thumbprint")
  ok (record {
    redirect_uri = target.redirect_uri;
    scope = scope;
    code_challenge = some challenge;
    code_challenge_method = merged "code_challenge_method";
    nonce = merged "nonce";
    authorization_details = merged "authorization_details";
    resource = resource;
    claims_request = merged "claims";
    dpop_jkt = merged "dpop_jkt";
  })

abbrev pub words_of : Option String → List String
words_of none = []
words_of (some s) = split s

-- `(time.time() - auth_time) >= max_age_secs`, or no `auth_time`; no limit where it is no integer.
abbrev pub older : ℕ → Option ℕ → Option ℕ → Bool
older now none auth_time = false
older now (some secs) none = true
older now (some secs) (some since) = leb (since + secs * second) now

abbrev pub max_age_of : Library → Params → Option ℕ
max_age_of lib params = elim (params "max_age") [ none ↦ none | some s ↦ lib.int_of s ]

-- The user has to log in, first or again.
abbrev pub must_login : Library → ℕ → Params → Session → Bool
must_login lib now params session =
    let prompt = words_of (params "prompt") in
    not (is_some session.user_id)
    || elem "login" prompt
    || elem "select_account" prompt
    || older now (max_age_of lib params) session.auth_time

abbrev pub acr_satisfied : Option String → Option String → Bool
acr_satisfied none acr = true
acr_satisfied (some values) none = false
acr_satisfied (some values) (some acr) = elem acr (split values)

-- The user who is logged in, recently and strongly enough.
unfoldable pub check_login :
    Library → ℕ → Params → Params → Target → Session → Result Refusal String
unfolding split
check_login lib now params merged target session = do
  let prompt = words_of (params "prompt")
  guard (not (elem "none" prompt && ltb 1 (length prompt)))
      (told target "invalid_request" "prompt=none cannot be combined with other values")
  guard (not (elem "none" prompt && must_login lib now params session))
      (told target "login_required" "User is not authenticated and prompt=none was requested")
  guard (not (must_login lib now params session)) login
  guard (acr_satisfied (merged "acr_values") session.acr) (
      told target "insufficient_user_authentication"
        "Authentication Context Class does not satisfy acr_values")
  require session.user_id login
