-- ===== src/Services/Dpop/Proof.antt =====
-- services/dpop.py: the validation of a DPoP proof. The two hashes, `urlsplit` and `str` of a JSON
-- value that is no text are parameters.
use Prim.Native.String.{◌++◌ as append}
use python_oauth2_server.Prelude.{
  leb, elem, ℕ, String, Bool, true, false, not, Option, none, some, List, [], Result, ok, err,
  guard, map_err, require, if◌then◌else◌, ◌==◌, ◌+◌, ◌*◌, ◌&&◌, ◌∷◌, ◌>>=◌, ◌>>◌,
}
use python_oauth2_server.Clock.{second}
use python_oauth2_server.Json.{
  Fields, Value, null, bool, num, str, obj, arr, nil, end, field, get_field, as_str,
}
use python_oauth2_server.Services.Resource.{SplitResult}
use python_oauth2_server.Services.Jwt.{Jwt}
use python_oauth2_server.Services.Dpop.{DpopError, DpopValidated, DpopReplayStore, check_and_insert}
use python_oauth2_server.Strings.{rstrip_slash, starts_with_lower, same_lower}

pub record Library : Type 0 where
  pub jwt : Jwt
  -- `none` is `ValueError`
  pub urlsplit : String → Option SplitResult
  -- base64url(sha256(…)) of the canonical JSON of the members, and of a text
  pub hash_members : List (String × Value) → String
  pub hash_text : String → String
  -- `str(v)` of a value that is no text
  pub str_of : Value → String
  -- whether `json.loads` makes 0 of a number
  pub is_zero : String → Bool

-- What is raised: `DpopError`, or an exception that nothing catches.
pub data Failure : Type 0 where
  invalid : DpopError → Failure
  escapes : Failure

abbrev pub invalid_proof : String → Failure
invalid_proof description =
    invalid (record { error = "invalid_dpop_proof"; description = description })

-- `str(v)`, of a claim that is required.
abbrev pub str_claim : Library → Option Value → String
str_claim lib none = ""
str_claim lib (some (str s)) = s
str_claim lib (some v) = lib.str_of v

-- What Python takes for false.
abbrev pub is_false : (String → Bool) → Value → Bool
is_false is_zero null = true
is_false is_zero (bool b) = not b
is_false is_zero (num n) = is_zero n
is_false is_zero (str s) = s == ""
is_false is_zero (obj end) = true
is_false is_zero (arr nil) = true
is_false is_zero _ = false

-- `str(v or "")`
abbrev pub text_of : Library → Option Value → String
text_of lib none = ""
text_of lib (some v) = if is_false lib.is_zero v then "" else str_claim lib (some v)

unfoldable pub strip_query : Library → String → Option String
unfolding rstrip_slash
strip_query lib url = elim (lib.urlsplit url) [
  | none ↦ none
  | some parts ↦
      some (append parts.scheme (append "://" (append parts.netloc (rstrip_slash parts.path))))
]

-- The members that are required of a key type, if they are there.
unfoldable pub members : List String → Fields → Option (List (String × Value))
members [] jwk = some []
members (k ∷ ks) jwk =
    let rest = members ks jwk in
    elim (get_field k jwk) [
      | none ↦ none
      | some v ↦ elim rest [ none ↦ none | some vs ↦ some ((k, v) ∷ vs) ]
    ]

-- The required members in the order of their names; none for other key types.
abbrev pub required_members : Option String → Option (List String)
required_members none = none
required_members (some kty) =
    if kty == "EC"
    then some ("crv" ∷ "kty" ∷ "x" ∷ "y" ∷ [])
    else if kty == "RSA"
    then some ("e" ∷ "kty" ∷ "n" ∷ [])
    else if kty == "OKP"
    then some ("crv" ∷ "kty" ∷ "x" ∷ [])
    else none

unfoldable pub jwk_thumbprint : Library → Fields → Result Failure String
unfolding members
jwk_thumbprint lib jwk = do
  let unsupported = invalid_proof "Unsupported JWK key type"
  names ← require (required_members (as_str (get_field "kty" jwk))) unsupported
  subset ← require (members names jwk) unsupported
  ok (lib.hash_members subset)

abbrev pub allowed_algs : List String
allowed_algs = "RS256" ∷ "RS384" ∷ "RS512" ∷ "PS256" ∷ "PS384" ∷ "PS512" ∷ "ES256" ∷ "ES384" ∷ []

-- `alg in _ALLOWED_ALGS`: an array or an object has no hash.
abbrev pub allowed_alg : Option Value → Result Failure String
allowed_alg (some (str alg)) = do
  guard (elem alg allowed_algs) (invalid_proof "DPoP proof uses unsupported algorithm")
  ok alg
allowed_alg (some (arr xs)) = err escapes
allowed_alg (some (obj fs)) = err escapes
allowed_alg _ = err (invalid_proof "DPoP proof uses unsupported algorithm")

abbrev pub jwk_of : Option Value → Result Failure Fields
jwk_of (some (obj (field k v fs))) = ok (field k v fs)
jwk_of _ = err (invalid_proof "DPoP proof missing 'jwk' header claim")

-- `float(iat)` of a number; True and False are numbers.
abbrev pub iat_of : Jwt → Option Value → Result Failure ℕ
iat_of jwt (some (num n)) = require (jwt.instant n) escapes
iat_of jwt (some (bool b)) = ok (if b then second else 0)
iat_of jwt _ = err (invalid_proof "DPoP proof iat must be a number")

abbrev pub nonce_of : Option Value → Result Failure (Option String)
nonce_of none = ok none
nonce_of (some null) = ok none
nonce_of (some (str s)) = ok (some s)
nonce_of (some _) = err (invalid_proof "DPoP proof nonce must be a string")

-- The proof is bound to the token that comes with it.
abbrev pub binds : Library → Option String → Option String → Bool
binds lib none ath = true
binds lib (some access_token) none = false
binds lib (some access_token) (some ath) = ath == lib.hash_text access_token

abbrev pub iat_skew_secs : ℕ
iat_skew_secs = 300

abbrev pub proof_claims : List String
proof_claims = "htm" ∷ "htu" ∷ "iat" ∷ "jti" ∷ []

-- The thumbprint of the key in the header, and the claims that it signed.
unfoldable pub verify_signature : Library → String → Result Failure (String × Fields)
unfolding jwk_thumbprint starts_with_lower
verify_signature lib proof = do
  header ←
      require (lib.jwt.get_unverified_header proof) (invalid_proof "DPoP proof header is malformed")
  guard (same_lower (text_of lib (get_field "typ" header)) "dpop+jwt")
      (invalid_proof "DPoP proof typ must be \"dpop+jwt\"")
  jwk ← jwk_of (get_field "jwk" header)
  jkt ← jwk_thumbprint lib jwk
  alg ← allowed_alg (get_field "alg" header)
  claims ←
      map_err (λ e. invalid_proof (append "DPoP proof signature invalid: " e))
        (lib.jwt.decode_proof proof jwk alg proof_claims)
  ok (jkt, claims)

-- Up to the replay store: what the proof says, and its `jti`. `method` is in lower case.
unfoldable pub check_proof :
    Library → ℕ → String → String → String → Option String → Result Failure (DpopValidated × String)
unfolding verify_signature strip_query starts_with_lower
check_proof lib now proof method url access_token = do
  (jkt, claims) ← verify_signature lib proof
  guard (same_lower (text_of lib (get_field "htm" claims)) method)
      (invalid_proof "DPoP proof htm does not match request method")
  htu ← require (strip_query lib (text_of lib (get_field "htu" claims))) escapes
  target ← require (strip_query lib url) escapes
  guard (htu == target) (invalid_proof "DPoP proof htu does not match request URI")
  let ath = as_str (get_field "ath" claims)
  guard (binds lib access_token ath)
      (invalid_proof "DPoP proof ath does not match the presented access token")
  iat ← iat_of lib.jwt (get_field "iat" claims)
  guard (leb now (iat + iat_skew_secs * second) && leb iat (now + iat_skew_secs * second))
      (invalid_proof "DPoP proof iat is outside the acceptance window")
  nonce ← nonce_of (get_field "nonce" claims)
  ok (record { jkt = jkt; nonce = nonce; ath = ath }, str_claim lib (get_field "jti" claims))

abbrev pub inserted :
    DpopValidated
    → DpopReplayStore × Option DpopError
    → DpopReplayStore × Result Failure DpopValidated
inserted validated (after, none) = (after, ok validated)
inserted validated (after, some e) = (after, err (invalid e))

abbrev pub after_check :
    DpopReplayStore
    → ℕ
    → Result Failure (DpopValidated × String)
    → DpopReplayStore × Result Failure DpopValidated
after_check replay monotonic (err e) = (replay, err e)
after_check replay monotonic (ok (validated, jti)) =
    inserted validated (check_and_insert replay monotonic jti)

unfoldable pub validate_dpop_proof :
    Library
    → ℕ
    → ℕ
    → String
    → String
    → String
    → Option String
    → DpopReplayStore
    → DpopReplayStore × Result Failure DpopValidated
unfolding check_proof check_and_insert
validate_dpop_proof lib now monotonic proof method url access_token replay =
    after_check replay monotonic (check_proof lib now proof method url access_token)
