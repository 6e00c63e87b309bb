-- ===== src/Services/JwtBearer.antt =====
-- services/jwt_bearer_grant.py: the state that the grant reads and changes, the trusted issuer of an
-- assertion, and the key that verifies it.
pub mod Subject
pub mod Redeem
pub mod Once
use Prim.Native.String.{◌++◌ as append}
use python_oauth2_server.Prelude.{
  eqb, length, truthy, same_text, String, Bool, true, false, not, Option, none, some, List, [],
  Result, ok, err, guard, require, if◌then◌else◌, ◌==◌, ◌&&◌, ◌||◌, ◌∷◌, ◌>>=◌, ◌>>◌,
}
use python_oauth2_server.Json.{
  Fields, Items, Value, Loaded, loaded, malformed, too_nested, null, str, obj, arr, nil, cons,
  get_field, as_str,
}
use python_oauth2_server.Errors.{Description, text, Raised, oauth, uncaught, bad_request}
use python_oauth2_server.Models.{Client, TrustedIssuer}
use python_oauth2_server.Storage.{Storage}
use python_oauth2_server.Storage.Issuers.{get_trusted_issuer}
use python_oauth2_server.Strings.{strip, split_on, starts_with_lower, same_lower, drop_chars}
use python_oauth2_server.Services.Jwt.{
  Jwt, Key, public_key, FromJwk, fails, makes_private, makes_public, claim_is,
}
use python_oauth2_server.Services.JwksCache.{JwksCache, Answer}
use python_oauth2_server.Services.ClientAssertion.{JtiReplayGuard}
use python_oauth2_server.Services.ClientAssertion.Verify.{find_key, keys_of}

pub record Library : Type 0 where
  pub jwt : Jwt
  pub json_loads : String → Loaded
  -- `from_jwk` of the class of an algorithm
  pub from_jwk : String → Fields → FromJwk
  pub lower : String → String
  pub casefold : String → String
  -- `lower(trim(…))` of the database
  pub lower_trim : String → String

pub record Stores : Type 0 where
  pub storage : Storage
  pub jwks_cache : JwksCache
  pub jti_guard : JtiReplayGuard

abbrev pub grant_error : String → Raised
grant_error description = oauth (bad_request "invalid_grant" description)

-- `_is_id_jag_typ`
unfoldable pub is_id_jag_typ : Option Value → Bool
unfolding strip starts_with_lower drop_chars
is_id_jag_typ (some (str typ)) =
    let t = strip typ in
    same_lower (if starts_with_lower t "application/" then drop_chars 12 t else t)
      "oauth-id-jag+jwt"
is_id_jag_typ _ = false

-- `_unverified_header_and_iss`
unfoldable pub unverified_header_and_iss : Jwt → String → Result Raised (Fields × String)
unfolding split_on
unverified_header_and_iss jwt assertion = do
  guard (eqb (length (split_on b'.' assertion)) 3)
      (grant_error "assertion is not a well-formed JWS Compact Serialization")
  header ←
      require (jwt.get_unverified_header assertion) (grant_error "Malformed assertion JWT header")
  claims ← require (jwt.unverified_claims assertion) (grant_error "assertion payload is not valid")
  iss ←
      require (truthy (as_str (get_field "iss" claims)))
        (grant_error "assertion is missing the iss claim")
  ok (header, iss)

-- `"verify" in ops`, for a list.
unfoldable pub lists : String → Items → Bool
lists s nil = false
lists s (cons (str t) xs) = s == t || lists s xs
lists s (cons _ xs) = lists s xs

-- `v is None or …`, for a member of a JWK.
abbrev pub absent_or : (Value → Bool) → Option Value → Bool
absent_or p none = true
absent_or p (some null) = true
absent_or p (some v) = p v

abbrev pub is_text : String → Value → Bool
is_text s v = same_text (as_str (some v)) (some s)

abbrev pub may_list : Value → Bool
may_list (arr ops) = lists "verify" ops
may_list _ = false

unfoldable pub may_verify : Fields → Bool
unfolding lists
may_verify jwk =
    absent_or (is_text "sig") (get_field "use" jwk) && absent_or may_list (get_field "key_ops" jwk)

unfoldable pub alg_compatible : Fields → String → Bool
alg_compatible jwk alg = absent_or (is_text alg) (get_field "alg" jwk)

-- The key is usable for the assertion.
unfoldable pub is_usable : String → Option String → Fields → Bool
unfolding may_verify alg_compatible
is_usable alg kid k =
    elim kid [ none ↦ true | some name ↦ claim_is "kid" k name ]
    && claim_is "kty" k (if alg == "ES256" then "EC" else "RSA")
    && may_verify k
    && alg_compatible k alg

abbrev pub public_only : FromJwk → Fields → Result Raised Key
public_only fails jwk = err (grant_error "issuer JWKS key is malformed")
public_only makes_private jwk = err (grant_error "issuer JWKS key is not a public key")
public_only makes_public jwk = ok (public_key jwk)

-- `_select_key`
unfoldable pub select_key : Library → Value → Fields → String → Result Raised Key
unfolding is_usable find_key
select_key lib jwks header alg = do
  keys ← require (keys_of jwks) (grant_error "trusted issuer JWKS has no 'keys' array")
  match ←
      require (find_key (is_usable alg (as_str (get_field "kid" header))) keys)
        (grant_error "no usable key for the assertion in the trusted issuer's JWKS")
  public_only (lib.from_jwk alg match) match

-- The texts of a list.
unfoldable pub texts_of : Items → List String
texts_of nil = []
texts_of (cons (str s) xs) = s ∷ texts_of xs
texts_of (cons _ xs) = texts_of xs

abbrev pub listed : Loaded → Result Raised (List String)
listed (loaded (arr xs)) = ok (texts_of xs)
listed too_nested = err uncaught
listed _ = ok []

abbrev pub or_empty_list : String → String
or_empty_list raw = if raw == "" then "[]" else raw

unfoldable pub allowed_audiences_list : Library → TrustedIssuer → Result Raised (List String)
unfolding texts_of
allowed_audiences_list lib trusted =
    listed (lib.json_loads (or_empty_list trusted.allowed_audiences))

unfoldable pub all_texts : Items → Bool
all_texts nil = true
all_texts (cons (str s) xs) = all_texts xs
all_texts (cons _ xs) = false

abbrev pub allows : String → Loaded → Result Raised Bool
allows client_id (loaded (arr nil)) = ok true
allows client_id (loaded (arr xs)) = ok (all_texts xs && lists client_id xs)
allows client_id too_nested = err uncaught
allows client_id _ = ok false

unfoldable pub allows_client : Library → TrustedIssuer → String → Result Raised Bool
unfolding all_texts lists
allows_client lib trusted client_id =
    allows client_id (lib.json_loads (or_empty_list trusted.allowed_client_ids))

-- The issuer that the assertion names is registered, enabled and open to the client.
unfoldable pub trusted_issuer :
    Library → Storage → Client → String → Result Raised (Fields × String × TrustedIssuer)
unfolding unverified_header_and_iss allows_client is_id_jag_typ get_trusted_issuer
trusted_issuer lib storage client assertion = do
  (header, iss) ← unverified_header_and_iss lib.jwt assertion
  trusted ←
      require (get_trusted_issuer storage iss) (grant_error "assertion iss is not a trusted issuer")
  guard trusted.enabled (grant_error "assertion iss is not a trusted issuer")
  allowed ← allows_client lib trusted client.client_id
  guard allowed (grant_error "client is not allowed to use this trusted issuer")
  guard (not (is_id_jag_typ (get_field "typ" header)))
      (grant_error "ID-JAG assertions are not accepted by this authorization server")
  ok (header, iss, trusted)
