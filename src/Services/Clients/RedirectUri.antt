-- ===== src/Services/Clients/RedirectUri.antt =====
-- services/clients.py: the comparison of redirect URIs. `urlparse` is a parameter.
pub mod Laws
use python_oauth2_server.Prelude.{
  elem, same_text, ℕ, String, Bool, true, false, Option, none, some, List, [], Result, ok, require,
  if◌then◌else◌, ◌==◌, ◌&&◌, ◌∷◌, ◌>>=◌, ◌>>◌,
}
use python_oauth2_server.Errors.{Raised, uncaught}

-- What `urlparse` returns. The port is read on demand: `none` is `ValueError`.
pub record Parsed : Type 0 where
  pub scheme : String
  pub hostname : Option String
  pub port : Option (Option ℕ)
  pub path : String

abbrev pub is_loopback : Option String → Bool
is_loopback none = false
is_loopback (some host) = elem host ("127.0.0.1" ∷ "::1" ∷ [])

-- The scheme and the host are the same, and those of a loopback literal over http.
abbrev pub same_loopback : Parsed → Parsed → Bool
same_loopback reg req =
    reg.scheme == "http"
    && reg.scheme == req.scheme
    && is_loopback reg.hostname
    && same_text reg.hostname req.hostname

abbrev pub same_path : Parsed → Parsed → Option ℕ → Bool
same_path reg req (some port) = false
same_path reg req none = reg.path == req.path

abbrev pub loopback_matches : Parsed → Parsed → Result Raised Bool
loopback_matches reg req =
    if same_loopback reg req
    then (do port ← require reg.port uncaught; ok (same_path reg req port))
    else ok false

unfoldable pub redirect_uri_matches :
    (String → Option Parsed) → String → String → Result Raised Bool
redirect_uri_matches urlparse registered requested =
    let parsed = (do
      reg ← require (urlparse registered) uncaught
      req ← require (urlparse requested) uncaught
      loopback_matches reg req) in
    if requested == registered then ok true else parsed

-- `any(redirect_uri_matches(registered, requested) for registered in uris)`
unfoldable pub any_matches : (String → Option Parsed) → List String → String → Result Raised Bool
unfolding redirect_uri_matches
any_matches urlparse [] requested = ok false
any_matches urlparse (registered ∷ uris) requested =
    let rest = any_matches urlparse uris requested in
    redirect_uri_matches urlparse registered requested >>= λ m. if m then ok true else rest
