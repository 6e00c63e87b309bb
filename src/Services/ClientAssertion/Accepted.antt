-- ===== src/Services/ClientAssertion/Accepted.antt =====
-- services/client_assertion.py: what is known of an assertion that was accepted.
use python_oauth2_server.Prelude.{
  Bool-cases, truthy, eq_iff, ℕ, String, refl, sym, ap, inl, inr, true, Option, none, some, [],
  Result, ok, err, map_err, guard_ok, require_ok, bind_ok, map_err_ok, both, ok_unique, ◌==◌, ◌≡◌,
  ◌∙◌, ◌⊎◌, ◌&&◌, ◌∷◌,
}
use python_oauth2_server.Json.{Fields, Value, get_field, as_str}
use python_oauth2_server.Errors.{OAuthError, Raised}
use python_oauth2_server.Models.{Client}
use python_oauth2_server.Services.Jwt.{Jwt, Key, secret, claim_is}
use python_oauth2_server.Services.ClientAssertion.{
  JtiReplayGuard, Observed, fresh, seen, full, observe,
}
use python_oauth2_server.Services.ClientAssertion.Verify.{
  numeric_date, alg_for_method, key_for, rsa_key_from_jwks, required_claims, check_assertion,
  jti_and_ttl, answer, observed, validate_client_assertion,
}

-- The algorithm and the key of a registered method: the secret of the client, or an RSA public key
-- of its JWKS.
abbrev pub SignedBy : Jwt → Client → Option Value → Fields → String → String → Key → Type 0
SignedBy jwt client jwks header method alg key =
    ((method ≡ "client_secret_jwt") × (alg ≡ "HS256") × (key ≡ secret client.client_secret))
    ⊎ ((method ≡ "private_key_jwt")
        × (alg ≡ "RS256")
        × (rsa_key_from_jwks jwt jwks (as_str (get_field "kid" header)) "invalid_client" ""
            ≡ ok key))

signed_by :
    (jwt : Jwt) (client : Client) (jwks : Option Value) (header : Fields) (alg : String) (key : Key)
    → alg_for_method client.token_endpoint_auth_method ≡ some alg
    → key_for jwt client jwks header ≡ ok key
    → SignedBy jwt client jwks header client.token_endpoint_auth_method alg key
unfolding alg_for_method
signed_by jwt client jwks header alg key h k =
    let m = client.token_endpoint_auth_method in
    elim (Bool-cases (m == "client_secret_jwt")) [
      | inl e ↦
          let hs : some "HS256" ≡ some alg = rw e at h in
          let own = ok_unique _ _ _ refl (rw e at k) in inl ((eq_iff _ _).0 e, cc, sym own)
      | inr e ↦ elim (Bool-cases (m == "private_key_jwt")) [
        | inl f ↦
            let rs : some "RS256" ≡ some alg = rw (e, f) at h in
            inr ((eq_iff _ _).0 f, cc, rw e at k)
        | inr f ↦ absurd (cc (rw (e, f) at h))
      ]
    ]

-- The signature verifies under the key of the registered method with its algorithm,
-- the claims name the client and the endpoint, and the identifier was not seen before.
pub record Accepted (jwt : Jwt) (now monotonic : ℕ) (client : Client) (assertion url : String)
    (jwks : Option Value) (g : JtiReplayGuard) : Type 0 where
  pub alg : String
  pub header : Fields
  pub key : Key
  pub claims : Fields
  pub jti : String
  pub ttl : ℕ
  pub header_read : jwt.get_unverified_header assertion ≡ some header
  pub header_alg : claim_is "alg" header alg ≡ true
  pub registered : SignedBy jwt client jwks header client.token_endpoint_auth_method alg key
  pub signed : jwt.decode now assertion key alg (url ∷ []) none required_claims ≡ ok claims
  pub issued : claim_is "iss" claims client.client_id ≡ true
  pub about_client : claim_is "sub" claims client.client_id ≡ true
  pub identified : truthy (as_str (get_field "jti" claims)) ≡ some jti
  pub unseen : (observe g monotonic client.client_id jti ttl).1 ≡ fresh

answer_ok : (o : Observed) → answer o ≡ ok tt → o ≡ fresh
answer_ok fresh h = refl
answer_ok seen h = cc
answer_ok full h = cc

observed_ok :
    (g : JtiReplayGuard) (monotonic : ℕ) (client_id : String) (r : Result Raised (String × ℕ))
    → (observed g monotonic client_id r).1 ≡ ok tt
    → (p : String × ℕ) × (r ≡ ok p) × ((observe g monotonic client_id p.0 p.1).1 ≡ fresh)
observed_ok g monotonic client_id (err e) h = cc
observed_ok g monotonic client_id (ok p) h = (p, refl, answer_ok _ h)

jti_and_ttl_ok :
    (jwt : Jwt) (now : ℕ) (claims : Fields) (p : String × ℕ)
    → jti_and_ttl jwt now claims ≡ ok p
    → truthy (as_str (get_field "jti" claims)) ≡ some p.0
unfolding jti_and_ttl
jti_and_ttl_ok jwt now claims p h =
    let (jti, found, h1) = require_ok (truthy (as_str (get_field "jti" claims))) _ _ _ h in
    let (exp, dated, h2) = bind_ok (numeric_date jwt (get_field "exp" claims) _) _ _ h1 in
    let same : jti ≡ p.0 = cc in found ∙ ap some same

module _ (jwt : Jwt) (now monotonic : ℕ) (client : Client) (assertion url : String)
    (jwks : Option Value) (g : JtiReplayGuard) where
  checked :
      (r : Result OAuthError Fields)
      → check_assertion jwt now client assertion url jwks ≡ r
      → (validate_client_assertion jwt now monotonic client assertion url jwks g).1 ≡ ok tt
      → (claims : Fields) × (r ≡ ok claims)
        × ((observed g monotonic client.client_id (jti_and_ttl jwt now claims)).1 ≡ ok tt)
  unfolding validate_client_assertion
  checked (err e) same h = cc (rw same at h)
  checked (ok claims) same h = (claims, refl, rw same at h)

  pub validate-Accepted :
      (validate_client_assertion jwt now monotonic client assertion url jwks g).1 ≡ ok tt
      → Accepted jwt now monotonic client assertion url jwks g
  unfolding check_assertion
  validate-Accepted h =
      let (claims, passed, h0) = checked _ refl h in
      let (p, read, unseen) =
        observed_ok g monotonic client.client_id (jti_and_ttl jwt now claims) h0 in
      let (alg, registered, h1) =
        require_ok (alg_for_method client.token_endpoint_auth_method) _ _ _ passed in
      let (header, header_read, h2) = require_ok (jwt.get_unverified_header assertion) _ _ _ h1 in
      let (header_alg, h3) = guard_ok (claim_is "alg" header alg) _ _ _ h2 in
      let (key, own_key, h4) = bind_ok (key_for jwt client jwks header) _ _ h3 in
      let (c, decoded, h5) =
        bind_ok (map_err _ (jwt.decode now assertion key alg (url ∷ []) none required_claims)) _ _
          h4 in
      let (named, h6) =
        guard_ok (claim_is "iss" c client.client_id && claim_is "sub" c client.client_id) _ _ _
          h5 in
      let same : c ≡ claims = cc in
      let (issued, about_client) = both _ _ named in
      record {
        alg = alg;
        header = header;
        key = key;
        claims = claims;
        jti = p.0;
        ttl = p.1;
        registered = signed_by jwt client jwks header alg key registered own_key;
        header_read = header_read;
        header_alg = header_alg;
        signed = map_err_ok _ _ _ decoded ∙ ap ok same;
        issued = rw (sym same) issued;
        about_client = rw (sym same) about_client;
        identified = jti_and_ttl_ok jwt now claims p read;
        unseen = unseen;
      }
