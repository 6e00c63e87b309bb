-- ===== src/Models.antt =====
-- models.py: the rows of the store and the claims of an access token. Instants are nanoseconds
-- since the epoch; JSON columns are the text they are stored as.
use python_oauth2_server.Prelude.{
  ltb, ℕ, String, Bool, true, Option, none, some, List, [], if◌then◌else◌, ◌==◌,
}
use python_oauth2_server.Json.{Fields, Items}

pub record Client : Type 0 where
  pub id : String
  pub client_id : String
  pub client_secret : String
  pub redirect_uris : String
  pub grant_types : String
  pub scope : String
  pub name : String
  pub created_at : ℕ
  pub updated_at : ℕ
  pub token_endpoint_auth_method : String
  pub registration_access_token : String
  pub response_types : String
  pub contacts : String
  pub logo_uri : String
  pub client_uri : String
  pub policy_uri : String
  pub tos_uri : String
  pub jwks : String
  pub jwks_uri : String
  pub backchannel_logout_uri : String
  pub backchannel_logout_session_required : Bool
  pub frontchannel_logout_uri : String
  pub frontchannel_logout_session_required : Bool
  pub post_logout_redirect_uris : String
  pub enabled : Bool
  pub require_state : Bool
  pub tls_client_certificate_subject_dn : String
  pub dpop_nonce_required : Bool

unfoldable pub is_public : Client → Bool
is_public c = c.token_endpoint_auth_method == "none"

-- `json.loads` of a column that holds an array of texts is a parameter.
unfoldable pub grant_type_list : (String → List String) → Client → List String
grant_type_list loads c = if c.grant_types == "" then [] else loads c.grant_types

unfoldable pub redirect_uri_list : (String → List String) → Client → List String
redirect_uri_list loads c = if c.redirect_uris == "" then [] else loads c.redirect_uris

pub record User : Type 0 where
  pub id : String
  pub username : String
  pub password_hash : String
  pub email : String
  pub enabled : Bool
  pub role : String
  pub created_at : ℕ
  pub updated_at : ℕ

pub record Token : Type 0 where
  pub id : String
  pub access_token : String
  pub refresh_token : Option String
  pub token_type : String
  pub expires_in : ℕ
  pub scope : String
  pub client_id : String
  pub user_id : Option String
  pub created_at : ℕ
  pub expires_at : ℕ
  pub revoked : Bool
  pub token_family : Option String

pub record AuthorizationCode : Type 0 where
  pub id : String
  pub code : String
  pub client_id : String
  pub user_id : String
  pub redirect_uri : String
  pub scope : String
  pub created_at : ℕ
  pub expires_at : ℕ
  pub used : Bool
  pub code_challenge : Option String
  pub code_challenge_method : Option String
  pub nonce : Option String
  pub resource : Option String
  pub authorization_details : Option String
  pub claims_request : Option String
  pub token_family : Option String
  pub dpop_jkt : Option String

pub record DeviceAuthorization : Type 0 where
  pub id : String
  pub device_code : String
  pub user_code : String
  pub client_id : String
  pub scope : String
  pub created_at : ℕ
  pub expires_at : ℕ
  pub interval_seconds : ℕ
  pub approved : Bool
  pub denied : Bool
  pub used : Bool
  pub user_id : Option String

pub record Claims : Type 0 where
  pub sub : String
  pub iss : String
  pub aud : List String
  pub exp : ℕ
  pub iat : ℕ
  pub scope : String
  pub jti : String
  pub client_id : String
  pub cnf : Option Fields
  pub authorization_details : Option Items
  pub act : Option Fields

pub record TokenResponse : Type 0 where
  pub access_token : String
  pub refresh_token : Option String
  pub token_type : String
  pub expires_in : ℕ
  pub scope : String
  pub id_token : Option String
  pub authorization_details : Option Items

pub record TrustedIssuer : Type 0 where
  pub id : String
  pub issuer : String
  pub jwks_uri : String
  pub allowed_audiences : String
  pub subject_mapping : String
  pub jit_provision : Bool
  pub allowed_client_ids : String
  pub enabled : Bool
  pub created_at : ℕ
  pub updated_at : ℕ

pub record DenylistEntry : Type 0 where
  pub id : String
  pub kind : String
  pub value : String
  pub reason : String
  pub created_by : String
  pub created_at : ℕ
  pub expires_at : Option ℕ

unfoldable pub is_active : DenylistEntry → ℕ → Bool
is_active e now = elim e.expires_at [ none ↦ true | some t ↦ ltb now t ]
