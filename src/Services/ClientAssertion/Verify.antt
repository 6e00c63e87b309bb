-- ===== src/Services/ClientAssertion/Verify.antt =====
-- services/client_assertion.py: the validation of a client assertion.
use Prim.Native.String.{◌++◌ as append}
use python_oauth2_server.Prelude.{
  truthy, ℕ, String, Bool, Option, none, some, List, [], Result, ok, err, guard, map_err, require,
  if◌then◌else◌, ◌==◌, ◌-◌, ◌&&◌, ◌∷◌, ◌>>=◌, ◌>>◌,
}
use python_oauth2_server.Json.{Fields, Items, Value, num, obj, arr, nil, cons, get_field, as_str}
use python_oauth2_server.Errors.{OAuthError, bad_request, Raised, oauth, uncaught}
use python_oauth2_server.Models.{Client}
use python_oauth2_server.Services.Jwt.{
  Jwt, Key, secret, public_key, FromJwk, fails, makes_private, makes_public, claim_is,
}
use python_oauth2_server.Services.ClientAssertion.{
  JtiReplayGuard, Observed, fresh, seen, full, observe,
}

-- The `sub` of an assertion that is not verified.
unfoldable pub unverified_assertion_subject : Jwt → String → Option String
unverified_assertion_subject jwt assertion =
    if assertion == "" then none else elim (jwt.unverified_claims assertion) [
      | none ↦ none
      | some claims ↦ truthy (as_str (get_field "sub" claims))
    ]

-- `_ALG_FOR_METHOD`
unfoldable pub alg_for_method : String → Option String
alg_for_method method =
    if method == "client_secret_jwt"
    then some "HS256"
    else if method == "private_key_jwt"
    then some "RS256"
    else none

-- `next((k for k in keys if isinstance(k, dict) and …), None)`
unfoldable pub find_key : (Fields → Bool) → Items → Option Fields
find_key p nil = none
find_key p (cons (obj k) ks) = let rest = find_key p ks in if p k then some k else rest
find_key p (cons _ ks) = find_key p ks

-- The list of keys of a JWKS that is an object.
abbrev pub keys_of : Value → Option Items
keys_of (obj jwks) = elim (get_field "keys" jwks) [ some (arr ks) ↦ some ks | _ ↦ none ]
keys_of _ = none

-- The key that the header names, or else the first RSA key.
abbrev pub select_key : String → String → Items → Option String → Result OAuthError Fields
select_key error context ks (some kid) =
    require (find_key (λ k. claim_is "kid" k kid) ks)
      (bad_request error (append "No matching kid in client JWKS" context))
select_key error context ks none =
    require (find_key (λ k. claim_is "kty" k "RSA") ks)
      (bad_request error (append "No RSA key found in client JWKS" context))

abbrev pub public_rsa : String → FromJwk → Fields → Result OAuthError Key
public_rsa error fails jwk = err (bad_request error "Failed to construct RSA key from client JWKS")
public_rsa error makes_private jwk =
    err (bad_request error "Client JWKS key is not an RSA public key")
public_rsa error makes_public jwk = ok (public_key jwk)

unfoldable pub rsa_key_from_jwks :
    Jwt → Option Value → Option String → String → String → Result OAuthError Key
unfolding find_key
rsa_key_from_jwks jwt jwks kid error context = do
  found ←
      require jwks (bad_request error "Client must register jwks or jwks_uri for private_key_jwt")
  keys ← require (keys_of found) (bad_request error "Client JWKS missing 'keys' array")
  jwk ← select_key error context keys kid
  public_rsa error (jwt.rsa_from_jwk jwk) jwk

abbrev pub refused : String → OAuthError
refused description = bad_request "invalid_client" description

-- `method`, the client's, decides on the key.
abbrev pub key_for : Jwt → Client → Option Value → Fields → Result OAuthError Key
key_for jwt client jwks header =
    if client.token_endpoint_auth_method == "client_secret_jwt"
    then ok (secret client.client_secret)
    else rsa_key_from_jwks jwt jwks (as_str (get_field "kid" header)) "invalid_client" ""

abbrev pub required_claims : List String
required_claims = "exp" ∷ "sub" ∷ "iss" ∷ "aud" ∷ []

-- `validate_client_assertion` up to the replay guard: the claims.
unfoldable pub check_assertion :
    Jwt → ℕ → Client → String → String → Option Value → Result OAuthError Fields
unfolding alg_for_method rsa_key_from_jwks
check_assertion jwt now client assertion token_endpoint_url jwks = do
  let method = client.token_endpoint_auth_method
  alg ← require (alg_for_method method) (refused "Client is not configured for JWT authentication")
  header ← require (jwt.get_unverified_header assertion) (refused "Malformed client_assertion JWT")
  guard (claim_is "alg" header alg)
      (refused (append method (append " requires " (append alg " algorithm"))))
  key ← key_for jwt client jwks header
  claims ←
      map_err (λ e. refused (append method (append " validation failed: " e)))
        (jwt.decode now assertion key alg (token_endpoint_url ∷ []) none required_claims)
  guard (claim_is "iss" claims client.client_id && claim_is "sub" claims client.client_id)
      (refused "JWT iss/sub must equal client_id")
  ok claims

abbrev pub answer : Observed → Result Raised (Unit {0})
answer fresh = ok tt
answer seen = err (oauth (refused "client_assertion jti has already been used"))
answer full = err (oauth (refused "client_assertion replay guard unavailable"))

-- The instant of a claim that is a number; `float` may overflow.
abbrev pub numeric_date : Jwt → Option Value → Raised → Result Raised ℕ
numeric_date jwt (some (num n)) e = require (jwt.instant n) uncaught
numeric_date jwt _ e = err e

-- The identifier and the lifetime left of an assertion.
unfoldable pub jti_and_ttl : Jwt → ℕ → Fields → Result Raised (String × ℕ)
jti_and_ttl jwt now claims = do
  jti ←
      require (truthy (as_str (get_field "jti" claims)))
        (oauth (refused "client_assertion missing required jti claim (RFC 7523 §3)"))
  exp ←
      numeric_date jwt (get_field "exp" claims)
        (oauth (refused "client_assertion missing exp claim"))
  ok (jti, exp - now)

-- `_enforce_jti_replay` once these are read.
abbrev pub observed :
    JtiReplayGuard
    → ℕ
    → String
    → Result Raised (String × ℕ)
    → JtiReplayGuard × Result Raised (Unit {0})
observed g monotonic client_id (err e) = (g, err e)
observed g monotonic client_id (ok (jti, ttl)) =
    let (after, result) = observe g monotonic client_id jti ttl in (after, answer result)

abbrev pub after_check :
    Jwt
    → ℕ
    → ℕ
    → String
    → JtiReplayGuard
    → Result OAuthError Fields
    → JtiReplayGuard × Result Raised (Unit {0})
after_check jwt now monotonic client_id g (err e) = (g, err (oauth e))
after_check jwt now monotonic client_id g (ok claims) =
    observed g monotonic client_id (jti_and_ttl jwt now claims)

-- `now` is the clock of the wall, `monotonic` that of the guard.
unfoldable pub validate_client_assertion :
    Jwt
    → ℕ
    → ℕ
    → Client
    → String
    → String
    → Option Value
    → JtiReplayGuard
    → JtiReplayGuard × Result Raised (Unit {0})
unfolding check_assertion jti_and_ttl observe
validate_client_assertion jwt now monotonic client assertion token_endpoint_url jwks g =
    after_check jwt now monotonic client.client_id g
      (check_assertion jwt now client assertion token_endpoint_url jwks)
