-- ===== src/Services/JwtBearer/Redeem.antt =====
-- services/jwt_bearer_grant.py: the redemption of an assertion.
use Prim.Native.String.{◌++◌ as append}
use python_oauth2_server.Prelude.{
  leb, truthy, elem, ℕ, String, Option, none, some, List, [], Result, ok, err, guard, map_err,
  require, ◌+◌, ◌-◌, ◌*◌, ◌∷◌, ◌>>=◌, ◌>>◌,
}
use python_oauth2_server.Clock.{second}
use python_oauth2_server.Json.{Fields, Value, num, obj, get_field, as_str}
use python_oauth2_server.Errors.{text, Raised, oauth, uncaught}
use python_oauth2_server.Models.{Client, TrustedIssuer}
use python_oauth2_server.Strings.{strip}
use python_oauth2_server.Services.Jwt.{Jwt}
use python_oauth2_server.Services.JwksCache.{Answer, fetch}
use python_oauth2_server.Services.ClientAssertion.{
  Observed, fresh, seen, full, observe, max_jti_ttl_secs,
}
use python_oauth2_server.Services.JwtBearer.{
  Library, Stores, grant_error, select_key, allowed_audiences_list, trusted_issuer,
}
use python_oauth2_server.Services.JwtBearer.Subject.{resolve_subject}

-- What one request reads besides: the clocks, the answer of the issuer's server and a drawn hash.
pub record Call : Type 0 where
  pub wall : ℕ
  pub monotonic : ℕ
  pub later : ℕ
  pub reply : Answer
  pub hash : String

abbrev pub iat_skew_secs : ℕ
iat_skew_secs = 60

abbrev pub fetch_error : Raised → Raised
fetch_error uncaught = uncaught
fetch_error (oauth e) = elim e.description [
  | text s ↦ grant_error (append "could not fetch the trusted issuer's JWKS: " s)
  | _ ↦ grant_error "could not fetch the trusted issuer's JWKS"
]

-- The text of the header's algorithm, if it is one of `ALLOWED_ALGS`.
abbrev pub allowed_alg : Option String → Result Raised String
allowed_alg none = err (grant_error "assertion uses an unsupported signature algorithm")
allowed_alg (some alg) = do
  guard (elem alg ("RS256" ∷ "ES256" ∷ "PS256" ∷ []))
      (grant_error "assertion uses an unsupported signature algorithm")
  ok alg

abbrev pub required : List String
required = "iss" ∷ "sub" ∷ "aud" ∷ "exp" ∷ "iat" ∷ "jti" ∷ []

-- The claims, under a key of the document.
unfoldable pub verify_with :
    Library → ℕ → String → TrustedIssuer → Fields → String → String → Value → Result Raised Fields
unfolding select_key allowed_audiences_list
verify_with lib now assertion trusted header our_issuer token_endpoint_url jwks = do
  alg ← allowed_alg (as_str (get_field "alg" header))
  key ← select_key lib jwks header alg
  audiences ← allowed_audiences_list lib trusted
  map_err (λ e. grant_error (append "assertion validation failed: " e))
      (lib.jwt.decode now assertion key alg (our_issuer ∷ token_endpoint_url ∷ audiences)
        (some trusted.issuer) required)

-- `_numeric_date`: a value that no float holds, or that is not finite, is refused as well.
unfoldable pub numeric_date : Jwt → String → Option Value → Result Raised ℕ
numeric_date jwt name (some (num n)) = do
  out ←
      require (jwt.instant n)
        (grant_error (append "assertion " (append name " claim is out of range")))
  guard (jwt.is_finite n)
      (grant_error (append "assertion " (append name " claim is not a finite number")))
  ok out
numeric_date jwt name _ =
    err (grant_error (append "assertion " (append name " claim is not a number")))

-- The identifier and the lifetime left, which may not outlast the guard.
unfoldable pub jti_and_ttl : Jwt → ℕ → Fields → Result Raised (String × ℕ)
unfolding numeric_date
jti_and_ttl jwt now claims = do
  jti ←
      require (truthy (as_str (get_field "jti" claims)))
        (grant_error "assertion missing required jti claim (RFC 7523 §3)")
  exp ← numeric_date jwt "exp" (get_field "exp" claims)
  guard (leb (exp - now) (max_jti_ttl_secs * second))
      (grant_error "assertion lifetime exceeds the maximum of 300 seconds")
  ok (jti, exp - now)

abbrev pub answer : Observed → Result Raised (Unit {0})
answer fresh = ok tt
answer seen = err (grant_error "assertion jti has already been used")
answer full = err (grant_error "assertion replay guard unavailable")

-- The claims of a verified assertion that is not ahead of the clock, and what the guard observes.
unfoldable pub check_claims : Jwt → ℕ → Result Raised Fields → Result Raised (Fields × String × ℕ)
unfolding numeric_date jti_and_ttl
check_claims jwt now verified = do
  claims ← verified
  iat ← numeric_date jwt "iat" (get_field "iat" claims)
  guard (leb iat (now + iat_skew_secs * second)) (grant_error "assertion iat is in the future")
  (jti, ttl) ← jti_and_ttl jwt now claims
  ok (claims, jti, ttl)

abbrev pub after_guard :
    Library
    → Call
    → TrustedIssuer
    → Fields
    → Stores
    → Result Raised (Unit {0})
    → Stores × Result Raised String
after_guard lib call trusted claims st (err e) = (st, err e)
after_guard lib call trusted claims st (ok u) =
    let (storage, r) = resolve_subject lib call.hash call.wall st.storage trusted claims in
    (record st { storage = storage }, r)

abbrev pub after_claims :
    Library
    → Call
    → String
    → TrustedIssuer
    → Stores
    → Result Raised (Fields × String × ℕ)
    → Stores × Result Raised String
after_claims lib call iss trusted st (err e) = (st, err e)
after_claims lib call iss trusted st (ok (claims, jti, ttl)) =
    let (g, o) = observe st.jti_guard call.later (append "jwt-bearer:" iss) jti ttl in
    after_guard lib call trusted claims (record st { jti_guard = g }) (answer o)

-- The JWKS is fetched once the algorithm is known to be allowed.
abbrev pub after_issuer :
    Library
    → Call
    → String
    → String
    → String
    → Stores
    → Result Raised (Fields × String × TrustedIssuer)
    → Stores × Result Raised String
after_issuer lib call assertion our_issuer token_endpoint_url st (err e) = (st, err e)
after_issuer lib call assertion our_issuer token_endpoint_url st (ok (header, iss, trusted)) =
    elim (allowed_alg (as_str (get_field "alg" header))) [
      | err e ↦ (st, err e)
      | ok alg ↦
          let (cache, document) =
            fetch lib.json_loads st.jwks_cache call.monotonic call.reply call.later
              (strip trusted.jwks_uri) in
          after_claims lib call iss trusted (record st { jwks_cache = cache })
            (check_claims lib.jwt call.wall (
              map_err fetch_error document >>= λ d.
              verify_with lib call.wall assertion trusted header our_issuer token_endpoint_url
                (obj d)))
    ]

-- The local user that the token is for.
unfoldable pub redeem_jwt_bearer_assertion :
    Library → Call → String → Client → String → String → Stores → Stores × Result Raised String
unfolding trusted_issuer verify_with check_claims resolve_subject observe fetch strip
redeem_jwt_bearer_assertion lib call assertion client our_issuer token_endpoint_url st =
    after_issuer lib call assertion our_issuer token_endpoint_url st
      (trusted_issuer lib st.storage client assertion)
