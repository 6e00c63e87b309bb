-- ===== src/Services/DpopNonce.antt =====
-- services/dpop_nonce.py: the nonces of DPoP proofs, and the demand for one. The HMAC of a bucket
-- and the coding of a nonce are parameters.
pub mod Laws
use python_oauth2_server.Prelude.{
  eqb, ℕ, suc, max, String, not, Option, none, some, Result, ok, err, guard, ◌==◌, ◌/◌, ◌||◌, ◌>>=◌,
  ◌>>◌,
}
use python_oauth2_server.Clock.{second}
use python_oauth2_server.Services.Dpop.{DpopValidated}

-- What is left of a nonce: no base64url, another length than 24 bytes, or a bucket and a tag.
pub data Decoded : Type 0 where
  malformed wrong_length : Decoded
  parts : ℕ → String → Decoded

pub record Codec : Type 0 where
  -- the first 16 bytes of the HMAC of a bucket under the secret
  pub tag_for_bucket : ℕ → String
  pub encode : ℕ → String → String
  pub decode : String → Decoded

-- `kind` and `description` of the error that is raised.
pub data DpopNonceError : Type 0 where
  stale invalid : String → DpopNonceError

pub record DpopNonceIssuer : Type 0 where
  pub codec : Codec
  pub lifetime_secs : ℕ

unfoldable pub init : Codec → ℕ → DpopNonceIssuer
init codec lifetime_secs = record { codec = codec; lifetime_secs = max 1 lifetime_secs }

unfoldable pub current_bucket : DpopNonceIssuer → ℕ → ℕ
current_bucket issuer now = now / second / issuer.lifetime_secs

unfoldable pub encode_bucket : DpopNonceIssuer → ℕ → String
encode_bucket issuer bucket = issuer.codec.encode bucket (issuer.codec.tag_for_bucket bucket)

unfoldable pub issue : DpopNonceIssuer → ℕ → String
unfolding encode_bucket current_bucket
issue issuer now = encode_bucket issuer (current_bucket issuer now)

abbrev pub verify_parts : DpopNonceIssuer → ℕ → Decoded → Result DpopNonceError (Unit {0})
verify_parts issuer current malformed = err (invalid "DPoP nonce is not valid base64url")
verify_parts issuer current wrong_length = err (invalid "DPoP nonce has incorrect length")
verify_parts issuer current (parts bucket tag) = do
  guard (tag == issuer.codec.tag_for_bucket bucket) (invalid "DPoP nonce signature mismatch")
  guard (eqb bucket current || eqb (suc bucket) current)
      (stale "DPoP nonce is expired or not yet valid")

unfoldable pub verify : DpopNonceIssuer → ℕ → String → Result DpopNonceError (Unit {0})
unfolding current_bucket
verify issuer now nonce =
    verify_parts issuer (current_bucket issuer now) (issuer.codec.decode nonce)

-- What the demand for a nonce comes to: it is met, the response asks for another with the given
-- description and a fresh nonce, or `DpopError` is raised.
pub data Demand : Type 0 where
  met : Demand
  use_dpop_nonce : String → String → Demand
  forged : String → Demand

abbrev pub demand_of : DpopNonceIssuer → ℕ → Result DpopNonceError (Unit {0}) → Demand
demand_of issuer now (ok u) = met
demand_of issuer now (err (stale description)) =
    use_dpop_nonce "DPoP nonce is expired; retry with a fresh nonce" (issue issuer now)
demand_of issuer now (err (invalid description)) = forged description

abbrev pub demanded : DpopNonceIssuer → ℕ → Option String → Demand
demanded issuer now none =
    use_dpop_nonce "DPoP proof must include a server-issued nonce" (issue issuer now)
demanded issuer now (some nonce) = demand_of issuer now (verify issuer now nonce)

unfoldable pub enforce_dpop_nonce : DpopValidated → DpopNonceIssuer → ℕ → Demand
unfolding issue verify
enforce_dpop_nonce validated issuer now = demanded issuer now validated.nonce
