-- ===== src/Services/Jwt.antt =====
-- PyJWT and the key classes of its algorithms, as the services call them: parameters.
use python_oauth2_server.Prelude.{same_text, ℕ, String, Bool, Option, some, List, Result}
use python_oauth2_server.Json.{Fields, get_field, as_str}

-- A key that verifies signatures: a shared secret, or the public key of a JWK.
pub data Key : Type 0 where
  secret : String → Key
  public_key : Fields → Key

-- What `from_jwk` makes of a JWK: it raises, or gives a private or a public key.
pub data FromJwk : Type 0 where
  fails makes_private makes_public : FromJwk

pub record Jwt : Type 0 where
  -- `get_unverified_header`; `none` is `PyJWTError`. A `kid` in it is a text.
  pub get_unverified_header : String → Option Fields
  -- `decode` without a check of the signature; `none` is `PyJWTError`
  pub unverified_claims : String → Option Fields
  -- `decode` at an instant: the key, the algorithm, the audiences, the issuer if one is demanded,
  -- and the claims that are required; an error is the text of the exception
  pub decode :
      ℕ → String → Key → String → List String → Option String → List String → Result String Fields
  -- `decode` of a DPoP proof, without a check of its audience or its instants
  pub decode_proof : String → Fields → String → List String → Result String Fields
  pub rsa_from_jwk : Fields → FromJwk
  -- the instant of a JSON number of seconds, 0 for a negative one; `none` is `OverflowError`
  pub instant : String → Option ℕ
  -- `math.isfinite` of a JSON number
  pub is_finite : String → Bool

-- `claims.get(k) == s`
abbrev pub claim_is : String → Fields → String → Bool
claim_is k claims s = same_text (as_str (get_field k claims)) (some s)
