-- ===== src/Routes/Token/Code/RoundTrip.antt =====
-- services/auth.py, routes/token.py: an authorization code from its issuing to its redemption.
use Prim.Native.String.{count}
use python_oauth2_server.Prelude.{
  leb, le→leb, truthy, elem, same_text, eq_refl, ℕ, String, refl, true, Option, none, some, ok,
  ◌==◌, ◌+◌, ◌*◌, ◌≤◌, ◌≡◌,
}
use python_oauth2_server.Clock.{second}
use python_oauth2_server.Json.{Items}
use python_oauth2_server.Models.{Client, grant_type_list}
use python_oauth2_server.Storage.{Storage, get_authorization_code}
use python_oauth2_server.Storage.Rows.{select-append}
use python_oauth2_server.Services.Auth.{Drawn, CodeRequest, new_code, issue_code}
use python_oauth2_server.Services.Tokens.{Config}
use python_oauth2_server.Routes.Token.{Library, Form}
use python_oauth2_server.Routes.Token.Code.{check_pkce, check_details, check_code}

module _ (drawn : Drawn) (ttl_secs now : ℕ) (client : Client) (user_id : String) (r : CodeRequest)
    (storage : Storage) where
  found_again :
      get_authorization_code storage drawn.code ≡ none
      → get_authorization_code (issue_code drawn ttl_secs now client user_id r storage).0 drawn.code
        ≡ some (new_code drawn ttl_secs now client user_id r)
  unfolding get_authorization_code issue_code
  found_again unused =
      select-append (λ c. c.code == drawn.code) storage.authorization_codes
        (new_code drawn ttl_secs now client user_id r) unused
        (unfold new_code in eq_refl drawn.code)

  pkce_passes :
      (lib : Library) (form : Form) (verifier : String)
      → truthy r.code_challenge ≡ some (lib.pkce_challenge verifier)
      → truthy (form "code_verifier") ≡ some verifier
      → 43 ≤ count verifier
      → count verifier ≤ 128
      → check_pkce lib.pkce_challenge form (new_code drawn ttl_secs now client user_id r) ≡ ok tt
  unfolding check_pkce new_code
  pkce_passes lib form verifier challenged given long short = rw challenged (
      rw given (
        rw (le→leb 43 (count verifier) long, le→leb (count verifier) 128 short)
          (rw (eq_refl (lib.pkce_challenge verifier)) refl)))

-- A code that is issued under a value that was not in use passes the checks of the token endpoint
-- until it expires, for the client that it was issued to, with the redirect URI that it was asked
-- for and the verifier whose challenge it was given, if the details of the request are accepted.
-- What is redeemed is the code that was issued.
pub code_round_trip :
    (drawn : Drawn) (ttl_secs now : ℕ) (client : Client) (user_id : String) (r : CodeRequest)
    (storage : Storage) (lib : Library) (config : Config) (now' : ℕ) (form : Form)
    (verifier : String) (details : Option Items)
    → get_authorization_code storage drawn.code ≡ none
    → elem "authorization_code" (grant_type_list lib.loads_texts client) ≡ true
    → truthy (form "code") ≡ some drawn.code
    → now' ≤ now + ttl_secs * second
    → form "redirect_uri" ≡ some r.redirect_uri
    → truthy r.code_challenge ≡ some (lib.pkce_challenge verifier)
    → truthy (form "code_verifier") ≡ some verifier
    → 43 ≤ count verifier
    → count verifier ≤ 128
    → check_details lib config form (new_code drawn ttl_secs now client user_id r) ≡ ok details
    → check_code lib config now' client form
        (issue_code drawn ttl_secs now client user_id r storage).0
      ≡ ok (new_code drawn ttl_secs now client user_id r, details)
unfolding check_code
code_round_trip drawn ttl_secs now client user_id r storage lib config now' form verifier details
      unused registered given live same_uri challenged verified long short detailed =
    let found = found_again drawn ttl_secs now client user_id r storage unused in
    let pkce =
      pkce_passes drawn ttl_secs now client user_id r storage lib form verifier challenged verified
        long short in
    let own : (client.client_id == client.client_id) ≡ true = eq_refl client.client_id in
    let fresh : leb now' (now + ttl_secs * second) ≡ true = le→leb _ _ live in
    let uri : same_text (form "redirect_uri") (some r.redirect_uri) ≡ true =
      rw same_uri (eq_refl r.redirect_uri) in
    rw registered (
      rw given
        (rw found (rw (pkce, detailed) (unfold new_code in rw own (rw fresh (rw uri refl))))))
