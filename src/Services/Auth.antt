-- ===== src/Services/Auth.antt =====
-- services/auth.py: the issuing of an authorization code, and the redirects that are safe.
use python_oauth2_server.Prelude.{
  ℕ, String, Bool, false, not, Option, none, some, if◌then◌else◌, ◌==◌, ◌+◌, ◌*◌, ◌&&◌,
}
use python_oauth2_server.Clock.{second}
use python_oauth2_server.Models.{Client, AuthorizationCode}
use python_oauth2_server.Storage.{Storage, save_authorization_code}
use python_oauth2_server.Strings.{strip, starts_with, all_chars, first_is}

abbrev pub safe_path : String → Bool
safe_path url =
    starts_with url "/" && not (starts_with url "//") && all_chars (λ c. not (first_is b'\\' c)) url

unfoldable pub is_safe_redirect : Option String → Bool
unfolding strip starts_with all_chars
is_safe_redirect none = false
is_safe_redirect (some url) = if url == "" then false else safe_path (strip url)

-- What is drawn for a code.
pub record Drawn : Type 0 where
  pub id : String
  pub code : String
  pub family : String

-- The arguments of `issue_code`.
pub record CodeRequest : Type 0 where
  pub redirect_uri : String
  pub scope : String
  pub code_challenge : Option String
  pub code_challenge_method : Option String
  pub nonce : Option String
  pub authorization_details : Option String
  pub resource : Option String
  pub claims_request : Option String
  pub dpop_jkt : Option String

unfoldable pub new_code : Drawn → ℕ → ℕ → Client → String → CodeRequest → AuthorizationCode
new_code drawn ttl_secs now client user_id r = record {
  id = drawn.id;
  code = drawn.code;
  client_id = client.client_id;
  user_id = user_id;
  redirect_uri = r.redirect_uri;
  scope = r.scope;
  created_at = now;
  expires_at = now + ttl_secs * second;
  used = false;
  code_challenge = r.code_challenge;
  code_challenge_method = r.code_challenge_method;
  nonce = r.nonce;
  resource = r.resource;
  authorization_details = r.authorization_details;
  claims_request = r.claims_request;
  token_family = some drawn.family;
  dpop_jkt = r.dpop_jkt;
}

unfoldable pub issue_code :
    Drawn → ℕ → ℕ → Client → String → CodeRequest → Storage → Storage × AuthorizationCode
unfolding new_code save_authorization_code
issue_code drawn ttl_secs now client user_id r storage =
    let code = new_code drawn ttl_secs now client user_id r in
    (save_authorization_code storage code, code)
