-- ===== src/Services/Clients/Certificate.antt =====
-- services/clients.py: authentication by a TLS certificate.
use python_oauth2_server.Prelude.{
  String, Bool, true, false, Option, none, some, [], Result, ok, err, guard, require, if◌then◌else◌,
  ◌==◌, ◌&&◌, ◌||◌, ◌∷◌, ◌>>=◌,
}
use python_oauth2_server.Json.{Items, Value, null, bool, num, str, obj, arr, nil, cons, get_field}
use python_oauth2_server.Errors.{Raised, uncaught, invalid_client}
use python_oauth2_server.Models.{Client}
use python_oauth2_server.Strings.{strip}
use python_oauth2_server.Services.Jwt.{claim_is}
use python_oauth2_server.Services.JwksCache.{resolve_client_jwks}
use python_oauth2_server.Services.Clients.{Library, Call, ClientService, raise}

unfoldable pub authenticate_tls_client_auth :
    Client → Option String → Option String → Result Raised (Unit {0})
authenticate_tls_client_auth client thumbprint subject_dn = do
  presented_thumbprint ← require thumbprint (
      invalid_client
        "tls_client_auth requires a TLS client certificate (X-Client-Cert-Thumbprint header missing)")
  let configured_dn = client.tls_client_certificate_subject_dn
  if configured_dn == "" then ok tt else (do
    dn ← require subject_dn (
        invalid_client
          "tls_client_auth requires X-SSL-Client-S-DN header when Subject DN is configured")
    guard (dn == configured_dn)
        (invalid_client "tls_client_auth: client certificate Subject DN does not match"))

-- The thumbprint is registered with one of the keys that are objects.
unfoldable pub registers : String → Items → Bool
registers thumbprint nil = false
registers thumbprint (cons (obj k) ks) = claim_is "x5t#S256" k thumbprint || registers thumbprint ks
registers thumbprint (cons _ ks) = registers thumbprint ks

-- `value or []` and what is iterated: the keys of a list; a text and an object give texts only.
abbrev pub iterated : (String → Bool) → Option Value → Result Raised Items
iterated is_zero none = ok nil
iterated is_zero (some (arr ks)) = ok ks
iterated is_zero (some (bool true)) = err uncaught
iterated is_zero (some (num n)) = if is_zero n then ok nil else err uncaught
iterated is_zero (some _) = ok nil

-- `(jwks or {}).get("keys") or []`; a value that is no object has no `get`.
abbrev pub listed : (String → Bool) → Option Value → Result Raised Items
listed is_zero none = ok nil
listed is_zero (some null) = ok nil
listed is_zero (some (obj fs)) = iterated is_zero (get_field "keys" fs)
listed is_zero (some (arr nil)) = ok nil
listed is_zero (some (arr (cons k ks))) = err uncaught
listed is_zero (some (bool b)) = if b then err uncaught else ok nil
listed is_zero (some (str s)) = if s == "" then ok nil else err uncaught
listed is_zero (some (num n)) = if is_zero n then ok nil else err uncaught

abbrev pub no_match : Raised
no_match = invalid_client "self_signed_tls_client_auth: certificate does not match a registered JWK"

abbrev pub matched : Library → String → Result Raised (Option Value) → Result Raised (Unit {0})
matched lib thumbprint jwks = do
  found ← jwks
  keys ← listed lib.is_zero found
  guard (registers thumbprint keys) no_match

abbrev pub self_signed_by :
    Library
    → Call
    → Client
    → Option String
    → ClientService
    → ClientService × Result Raised (Unit {0})
self_signed_by lib call client none st = (
  st,
  raise
      "self_signed_tls_client_auth requires a TLS client certificate (X-Client-Cert-Thumbprint header missing)",
)
self_signed_by lib call client (some thumbprint) st =
    let (cache, jwks) =
      resolve_client_jwks lib.json_loads client st.jwks_cache ("self_signed_tls_client_auth" ∷ [])
        call.monotonic call.reply call.later in
    if strip client.jwks == "" && strip client.jwks_uri == ""
    then (st, err no_match)
    else (record st { jwks_cache = cache }, matched lib thumbprint jwks)

unfoldable pub authenticate_self_signed_tls :
    Library
    → Call
    → Client
    → Option String
    → ClientService
    → ClientService × Result Raised (Unit {0})
unfolding resolve_client_jwks registers strip
authenticate_self_signed_tls lib call client thumbprint st =
    self_signed_by lib call client thumbprint st
