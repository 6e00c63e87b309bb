-- ===== src/Routes/Authorize/Laws.antt =====
-- routes/authorize.py: what is known of a request that a code was issued for.
use python_oauth2_server.Prelude.{ℕ, String, false, Option, some, [], ok, ◌+◌, ◌*◌, ◌≡◌, ◌∷◌, ◌++◌}
use python_oauth2_server.Clock.{second}
use python_oauth2_server.Models.{AuthorizationCode, redirect_uri_list}
use python_oauth2_server.Storage.{Storage}
use python_oauth2_server.Services.Clients.RedirectUri.Laws.{RedirectsTo}
use python_oauth2_server.Services.Auth.{Drawn}
use python_oauth2_server.Routes.Authorize.{Library, Config, Session, Params}
use python_oauth2_server.Routes.Authorize.Request.{check_object}
use python_oauth2_server.Routes.Authorize.Respond.{Checked}
use python_oauth2_server.Routes.Authorize.Facts.{Admitted, Allowed, LoggedIn}

-- All of the checks, for the parameters that were merged from what the request refers to.
pub record Authorized (lib : Library) (config : Config) (now : ℕ) (params pushed : Params)
    (storage : Storage) (session : Session) (c : Checked) : Type 0 where
  pub jar_mode : Option String
  pub merged_from : check_object lib c.client (params "request") pushed ≡ ok (c.merged, jar_mode)
  pub admitted : Admitted now params storage c.client
  pub target_given : c.merged "redirect_uri" ≡ some c.target.redirect_uri
  pub target_registered :
      RedirectsTo lib.urlparse c.target.redirect_uri (redirect_uri_list lib.loads_texts c.client)
  pub allowed : Allowed lib c.client params c.merged c.target c.request
  pub logged_in : LoggedIn lib now params c.merged session c.user_id

-- The storage holds what it held and one code, of this client and this user, with what was asked for.
pub record Stores (config : Config) (drawn : Drawn) (now : ℕ) (c : Checked) (before after : Storage)
    : Type 0 where
  pub row : AuthorizationCode
  pub added : after ≡ record before { authorization_codes = before.authorization_codes ++ row ∷ [] }
  pub drawn_code : row.code ≡ drawn.code
  pub drawn_family : row.token_family ≡ some drawn.family
  pub of_client : row.client_id ≡ c.client.client_id
  pub of_user : row.user_id ≡ c.user_id
  pub unused : row.used ≡ false
  pub expires : row.expires_at ≡ now + config.authorization_code_ttl_secs * second
  pub of_redirect : row.redirect_uri ≡ c.request.redirect_uri
  pub of_scope : row.scope ≡ c.request.scope
  pub of_challenge : row.code_challenge ≡ c.request.code_challenge
  pub of_method : row.code_challenge_method ≡ c.request.code_challenge_method
  pub of_nonce : row.nonce ≡ c.request.nonce
  pub of_resource : row.resource ≡ c.request.resource
  pub of_details : row.authorization_details ≡ c.request.authorization_details
  pub of_claims : row.claims_request ≡ c.request.claims_request
  pub of_key : row.dpop_jkt ≡ c.request.dpop_jkt
