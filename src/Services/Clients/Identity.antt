-- ===== src/Services/Clients/Identity.antt =====
-- services/clients.py: the client that a request claims to come from.
use python_oauth2_server.Prelude.{
  is_some, truthy, ℕ, String, Bool, true, not, Option, none, some, Result, ok, guard, require,
  if◌then◌else◌, ◌==◌, ◌>>=◌, ◌>>◌,
}
use python_oauth2_server.Errors.{OAuthError, bad_request}
use python_oauth2_server.Models.{Client}
use python_oauth2_server.Storage.{Storage}
use python_oauth2_server.Storage.Clients.{get_client}
use python_oauth2_server.Storage.Denylist.{check_subject_denylisted}
use python_oauth2_server.Strings.{strip, cut, drop_chars, starts_with_lower}
use python_oauth2_server.Services.Jwt.{Jwt}
use python_oauth2_server.Services.ClientAssertion.Verify.{unverified_assertion_subject}
use python_oauth2_server.Services.Clients.{Library}

abbrev pub split_pair : Library → String → Result OAuthError (Option (String × String))
split_pair lib decoded = do
  parts ← require (cut b':' decoded) (bad_request "invalid_client" "malformed Basic auth header")
  ok (some (lib.unquote_plus parts.0, lib.unquote_plus parts.1))

abbrev pub parse_header : Library → Option String → Result OAuthError (Option (String × String))
parse_header lib none = ok none
parse_header lib (some header) =
    if not (starts_with_lower header "basic ")
    then ok none
    else require (lib.b64decode_text (strip (drop_chars 6 header)))
        (bad_request "invalid_client" "malformed Basic auth header")
      >>= λ decoded. split_pair lib decoded

unfoldable pub parse_basic_auth :
    Library → Option String → Result OAuthError (Option (String × String))
unfolding cut drop_chars starts_with_lower strip
parse_basic_auth lib authorization_header = parse_header lib (truthy authorization_header)

abbrev pub agrees : Option String → String → Bool
agrees none presented = true
agrees (some given) presented = given == presented

-- The identifier and the secret of the header, or else of the form.
abbrev pub presented :
    Option (String × String)
    → Option String
    → Option String
    → Result OAuthError (Option String × Option String)
presented none form_id form_secret = ok (form_id, form_secret)
presented (some (client_id, client_secret)) form_id form_secret = do
  guard (agrees (truthy form_id) client_id) (bad_request "invalid_request" "client_id mismatch")
  guard (agrees (truthy form_secret) client_secret)
      (bad_request "invalid_client" "client_secret mismatch")
  ok (some client_id, some client_secret)

-- What is presented, or else the subject of the assertion, unverified.
abbrev pub identity : Jwt → Option String → Option String → Option String
identity jwt (some client_id) assertion = some client_id
identity jwt none none = none
identity jwt none (some assertion) = truthy (unverified_assertion_subject jwt assertion)

-- The client of a request, and the secret it presents.
unfoldable pub identify :
    Library
    → ℕ
    → (String → Option String)
    → Option String
    → Storage
    → Result OAuthError (Client × Option String)
unfolding parse_basic_auth unverified_assertion_subject
identify lib now form authorization_header storage = do
  basic ← parse_basic_auth lib authorization_header
  credentials ← presented basic (form "client_id") (form "client_secret")
  client_id ←
      require (identity lib.jwt (truthy credentials.0) (form "client_assertion"))
        (bad_request "invalid_client" "missing client_id")
  client ←
      require (get_client storage client_id)
        (bad_request "invalid_client" "unknown or disabled client")
  guard client.enabled (bad_request "invalid_client" "unknown or disabled client")
  guard (not (is_some (check_subject_denylisted storage now "client_id" client.client_id)))
      (bad_request "invalid_client" "unknown or disabled client")
  ok (client, truthy credentials.1)
