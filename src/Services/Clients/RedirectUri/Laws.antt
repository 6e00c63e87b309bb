-- ===== src/Services/Clients/RedirectUri/Laws.antt =====
-- services/clients.py: the redirect URIs that match one that is registered.
use python_oauth2_server.Prelude.{
  Bool-cases, elem, same_text, eq_iff, ℕ, String, refl, sym, ap, inl, inr, Bool, true, false,
  Option, none, some, List, [], arith, ok, require, require_ok, bind_ok, then_of, require-some,
  ok_unique, if◌then◌else◌, ◌==◌, ◌≡◌, ◌∙◌, ◌&&◌, ◌∷◌,
}
use python_oauth2_server.Services.Clients.RedirectUri.{
  Parsed, is_loopback, same_loopback, same_path, loopback_matches, redirect_uri_matches,
  any_matches,
}

-- The URI is registered, or it differs at most in its port from a registered one over http on a
-- loopback literal without a port.
pub data RedirectsTo (urlparse : String → Option Parsed) (requested : String)
    : List String → Type 0 where
  exact :
      (registered : String) (uris : List String)
      → requested ≡ registered
      → RedirectsTo urlparse requested (registered ∷ uris)
  loopback :
      (registered host : String) (uris : List String) (reg req : Parsed)
      → urlparse registered ≡ some reg
      → urlparse requested ≡ some req
      → reg.scheme ≡ "http"
      → req.scheme ≡ "http"
      → reg.hostname ≡ some host
      → req.hostname ≡ some host
      → elem host ("127.0.0.1" ∷ "::1" ∷ []) ≡ true
      → reg.port ≡ some none
      → reg.path ≡ req.path
      → RedirectsTo urlparse requested (registered ∷ uris)
  later :
      (registered : String) (uris : List String)
      → RedirectsTo urlparse requested uris
      → RedirectsTo urlparse requested (registered ∷ uris)

all_hold :
    (a b c d : Bool) → (a && b && c && d) ≡ true → (a ≡ true) × (b ≡ true) × (c ≡ true) × (d ≡ true)
all_hold a b c d h = ground arith

host_of :
    (h : Option String)
    → is_loopback h ≡ true
    → (host : String) × (h ≡ some host) × (elem host ("127.0.0.1" ∷ "::1" ∷ []) ≡ true)
host_of none e = cc
host_of (some host) e = (host, refl, e)

same_host :
    (host : String) (reg req : Option String)
    → reg ≡ some host
    → same_text reg req ≡ true
    → req ≡ some host
same_host host none req named e = cc
same_host host (some h) none named e = cc
same_host host (some h) (some r) named e = sym (ap some ((eq_iff h r).0 e)) ∙ named

path_of :
    (reg req : Parsed) (port : Option ℕ)
    → same_path reg req port ≡ true
    → (port ≡ none) × (reg.path ≡ req.path)
path_of reg req none e = (refl, (eq_iff _ _).0 e)
path_of reg req (some p) e = cc

module _ (urlparse : String → Option Parsed) (requested registered : String)
    (uris : List String) where
  loopback_found :
      (reg req : Parsed)
      → urlparse registered ≡ some reg
      → urlparse requested ≡ some req
      → loopback_matches reg req ≡ ok true
      → RedirectsTo urlparse requested (registered ∷ uris)
  loopback_found reg req parsed wanted h =
      let (same, chosen, h1) =
        then_of (λ r. r ≡ ok true) (same_loopback reg req) _ (ok false) h (λ e. cc) in
      let (port, read, h2) = bind_ok (require reg.port _) _ _ h1 in
      let (no_port, path) = path_of reg req port (ok_unique _ _ _ refl h2) in
      let (http, scheme, literal, hosts) =
        all_hold (reg.scheme == "http") (reg.scheme == req.scheme) (is_loopback reg.hostname)
          (same_text reg.hostname req.hostname) same in
      let (host, named, is_literal) = host_of reg.hostname literal in
      let over_http = (eq_iff _ _).0 http in
      let port_read = require-some reg.port _ port read in
      loopback registered host uris reg req parsed wanted over_http
        (sym ((eq_iff _ _).0 scheme) ∙ over_http) named
        (same_host host reg.hostname req.hostname named hosts) is_literal
        (port_read ∙ ap some no_port) path

  match_found :
      redirect_uri_matches urlparse registered requested ≡ ok true
      → RedirectsTo urlparse requested (registered ∷ uris)
  unfolding redirect_uri_matches
  match_found h = elim (Bool-cases (requested == registered)) [
    | inl e ↦ exact registered uris ((eq_iff _ _).0 e)
    | inr e ↦
        let (reg, parsed, h1) = require_ok (urlparse registered) _ _ _ (rw e at h) in
        let (req, wanted, h2) = require_ok (urlparse requested) _ _ _ h1 in
        loopback_found reg req parsed wanted h2
  ]

pub any_matches-RedirectsTo :
    (urlparse : String → Option Parsed) (uris : List String) (requested : String)
    → any_matches urlparse uris requested ≡ ok true
    → RedirectsTo urlparse requested uris
unfolding any_matches
any_matches-RedirectsTo urlparse [] requested h = cc
any_matches-RedirectsTo urlparse (registered ∷ uris) requested h =
    let (m, found, h1) = bind_ok (redirect_uri_matches urlparse registered requested) _ _ h in
    go m (λ k. any_matches-RedirectsTo urlparse uris requested k) found h1
  where
    go :
        (m : Bool)
        → (any_matches urlparse uris requested ≡ ok true → RedirectsTo urlparse requested uris)
        → redirect_uri_matches urlparse registered requested ≡ ok m
        → (if m then ok true else any_matches urlparse uris requested) ≡ ok true
        → RedirectsTo urlparse requested (registered ∷ uris)
    go true rest found h = match_found urlparse requested registered uris found
    go false rest found h = later registered uris (rest h)
