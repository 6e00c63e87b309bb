-- ===== src/Tests/Bearer.antt =====
-- The redemption of assertions at concrete inputs.
use python_oauth2_server.Prelude.{
  ltb, ltb→lt, ℕ, String, refl, sym, ap, Bool, true, false, Option, none, some, List, [], arith,
  Result, ok, err, if◌then◌else◌, ◌==◌, ◌*◌, ◌<◌, ◌≡◌, ◌∙◌, ◌≢◌, ◌∷◌,
}
use python_oauth2_server.Clock.{second}
use python_oauth2_server.Dict
use python_oauth2_server.Json.{Fields, str, num, obj, arr, nil, cons, end, field, get_field, loaded}
use python_oauth2_server.Models.{TrustedIssuer}
use python_oauth2_server.Storage
use python_oauth2_server.Storage.{Storage}
use python_oauth2_server.Services.Jwt.{Jwt, Key, makes_public}
use python_oauth2_server.Services.JwksCache.{answer}
use python_oauth2_server.Services.ClientAssertion
use python_oauth2_server.Services.ClientAssertion.Replay.{Observation, run}
use python_oauth2_server.Services.JwtBearer
use python_oauth2_server.Services.JwtBearer.{Stores}
use python_oauth2_server.Services.JwtBearer.Redeem.{
  Call, numeric_date, required, redeem_jwt_bearer_assertion,
}
use python_oauth2_server.Services.JwtBearer.Once.{redeemed_once}
use python_oauth2_server.Tests.Fixtures.{client, storage}
use python_oauth2_server.Tests.Endpoints.{key}

abbrev claims : Fields
claims = field "iss" (str "idp") (
    field "sub" (str "u")
      (field "jti" (str "j") (field "iat" (num "0") (field "exp" (num "200") end))))

abbrev decoded : Bool → Result String Fields
decoded live = if live then ok claims else err "expired"

-- Every assertion says the same, for 200 seconds.
abbrev jwt : Jwt
jwt = record {
  get_unverified_header = λ t. some (field "alg" (str "RS256") end);
  unverified_claims = λ t. some claims;
  decode = λ now t k alg aud iss names. decoded (ltb now (200 * second));
  decode_proof = λ t k alg names. err "no proof";
  rsa_from_jwk = λ k. makes_public;
  instant = λ n. some (if n == "200" then 200 * second else 0);
  is_finite = λ n. true;
}

abbrev library : JwtBearer.Library
library = record {
  jwt = jwt;
  json_loads = λ t.
      if t == "[]"
      then loaded (arr nil)
      else loaded (obj (field "keys" (arr (cons (obj key) nil)) end));
  from_jwk = λ alg k. makes_public;
  lower = λ t. t;
  casefold = λ t. t;
  lower_trim = λ t. t;
}

decode_ok : (b : Bool) (c : Fields) → decoded b ≡ ok c → (b ≡ true) × (claims ≡ c)
decode_ok true c h = (refl, cc)
decode_ok false c h = cc

payload :
    (now : ℕ) (assertion : String) (k : Key) (alg : String) (audiences : List String)
    (issuer : Option String) (c : Fields)
    → jwt.decode now assertion k alg audiences issuer required ≡ ok c
    → jwt.unverified_claims assertion ≡ some c
payload now assertion k alg audiences issuer c h =
    ap some (decode_ok (ltb now (200 * second)) c h).1

exp_of : (exp : ℕ) → numeric_date jwt "exp" (get_field "exp" claims) ≡ ok exp → 200 * second ≡ exp
unfolding numeric_date get_field
exp_of exp h = cc

unexpired :
    (now : ℕ) (assertion : String) (k : Key) (alg : String) (audiences : List String)
    (issuer : Option String) (c : Fields) (exp : ℕ)
    → jwt.decode now assertion k alg audiences issuer required ≡ ok c
    → numeric_date jwt "exp" (get_field "exp" c) ≡ ok exp
    → now < exp
unexpired now assertion k alg audiences issuer c exp h dated =
    let (early, same) = decode_ok (ltb now (200 * second)) c h in
    let own = ap (λ x. numeric_date jwt "exp" (get_field "exp" x)) same in
    rw (sym (exp_of exp (own ∙ dated))) (ltb→lt _ _ early)

abbrev trusted : TrustedIssuer
trusted = record {
  id = "1";
  issuer = "idp";
  jwks_uri = "keys";
  allowed_audiences = "[]";
  subject_mapping = "sub";
  jit_provision = true;
  allowed_client_ids = "[]";
  enabled = true;
  created_at = 0;
  updated_at = 0;
}

abbrev stores : Stores
stores = record {
  storage = record storage { trusted_issuers = trusted ∷ [] };
  jwks_cache = record { entries = Dict.empty };
  jti_guard = ClientAssertion.init 2;
}

abbrev call : ℕ → Call
call now = record {
  wall = now;
  monotonic = now;
  later = now;
  reply = answer true none "keys";
  hash = "h";
}

abbrev after : Stores
after = (redeem_jwt_bearer_assertion library (call second) "a.b.c" client "as" "url" stores).0

abbrev observed : List Observation
observed = (2 * second, "jwt-bearer:idp", "k", second) ∷ []

-- The user that the first redemption provisions is dropped again.
abbrev later : Stores
later = record stores { jti_guard = run after.jti_guard observed }

redeemed_once_example :
    (redeem_jwt_bearer_assertion library (call (30 * second)) "a.b.c" client "as" "url" later).1
    ≢ ok "u"
unfolding redeem_jwt_bearer_assertion get_field Storage.select Dict.get Dict.empty
    python_oauth2_server.Services.JwksCache.parse_cache_control_max_age
    ClientAssertion.sweep_expired python_oauth2_server.Services.Expiry.sweep Dict.sweep
    ClientAssertion.init Dict.size python_oauth2_server.Storage.Denylist.find_denylist_entry
redeemed_once_example =
    redeemed_once library payload unexpired (call second) (call (30 * second)) "a.b.c" client client
      "as" "as" "url" "url" "u" "u" stores later observed refl refl (omega arith, tt) (omega arith)
