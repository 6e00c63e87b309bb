-- ===== src/Services/Tokens.antt =====
-- services/tokens.py: the issuing of an access token, and of a refresh token beside it.
use python_oauth2_server.Prelude.{
  is_some, truthy, ℕ, String, Bool, false, Option, none, some, List, [], if◌then◌else◌, ◌+◌, ◌*◌,
  ◌/◌, ◌∷◌,
}
use python_oauth2_server.Clock.{second}
use python_oauth2_server.Json.{Fields, Items, get_field, as_str}
use python_oauth2_server.Models.{Client, TokenResponse, Claims}
use python_oauth2_server.Storage.{Storage, save_token}

-- The settings that the token endpoint reads (config.py).
pub record Config : Type 0 where
  pub issuer : String
  pub access_tokens_opaque : Bool
  pub access_token_ttl_secs : ℕ
  pub refresh_token_ttl_secs : ℕ
  pub rar_types_supported : List String

-- What `secrets` and `uuid` draw for one request.
pub record Fresh : Type 0 where
  pub opaque_token : String
  pub refresh_token : String
  pub row_id : String
  pub jti : String
  pub family : String

-- The keyword arguments of `issue`.
pub record Grant : Type 0 where
  pub user_id : Option String
  pub scope : String
  pub with_refresh : Bool
  pub token_family : Option String
  pub cnf : Option Fields
  pub authorization_details : Option Items
  pub act : Option Fields
  pub resource : Option String
  pub audience : Option (List String)

abbrev or_else : Option String → String → String
or_else none d = d
or_else (some s) d = s

-- `audience or ([resource] if resource else [client_id])`
unfoldable pub audience_of : Option (List String) → Option String → String → List String
audience_of (some (a ∷ more)) resource client_id = a ∷ more
audience_of (some []) resource client_id = or_else (truthy resource) client_id ∷ []
audience_of none resource client_id = or_else (truthy resource) client_id ∷ []

unfoldable pub new_claims : Config → Fresh → ℕ → Client → Grant → Claims
unfolding audience_of
new_claims config fresh now client g = record {
  sub = or_else (truthy g.user_id) client.client_id;
  iss = config.issuer;
  aud = audience_of g.audience g.resource client.client_id;
  exp = now / second + config.access_token_ttl_secs;
  iat = now / second;
  scope = g.scope;
  jti = fresh.jti;
  client_id = client.client_id;
  cnf = g.cnf;
  authorization_details = g.authorization_details;
  act = g.act;
}

-- An opaque token has nowhere to carry a claim.
abbrev pub bound {ℓ} : {A : Type ℓ} → Config → Option A → Option A
bound config claim = if config.access_tokens_opaque then none else claim

-- `bound_cnf and bound_cnf.get("jkt")`, for a key that is a text
abbrev pub jkt_of : Option Fields → Option String
jkt_of none = none
jkt_of (some cnf) = truthy (as_str (get_field "jkt" cnf))

unfoldable pub access_token_of : (Claims → String) → Config → Fresh → ℕ → Client → Grant → String
access_token_of encode config fresh now client g =
    if config.access_tokens_opaque
    then fresh.opaque_token
    else encode (new_claims config fresh now client g)

-- `issue`; the signing of the claims with the current key is a parameter.
unfoldable pub issue :
    (Claims → String) → Config → Fresh → ℕ → Client → Grant → Storage → Storage × TokenResponse
unfolding access_token_of
issue encode config fresh now client g storage =
    let access_token = access_token_of encode config fresh now client g in
    let refresh_token : Option String = if g.with_refresh then some fresh.refresh_token else none in
    (
      save_token storage (record {
        id = fresh.row_id;
        access_token = access_token;
        refresh_token = refresh_token;
        token_type = "Bearer";
        expires_in = config.access_token_ttl_secs;
        scope = g.scope;
        client_id = client.client_id;
        user_id = g.user_id;
        created_at = now;
        expires_at = now + config.access_token_ttl_secs * second;
        revoked = false;
        token_family = g.token_family;
      }),
      record {
        access_token = access_token;
        refresh_token = refresh_token;
        token_type = (if is_some (jkt_of (bound config g.cnf)) then "DPoP" else "Bearer");
        expires_in = config.access_token_ttl_secs;
        scope = g.scope;
        id_token = none;
        authorization_details = bound config g.authorization_details;
      },
    )
