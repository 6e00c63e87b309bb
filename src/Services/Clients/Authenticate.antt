-- ===== src/Services/Clients/Authenticate.antt =====
-- services/clients.py: `ClientService.authenticate`.
use python_oauth2_server.Prelude.{
  String, Bool, true, false, Option, none, some, Result, ok, err, guard, ◌>>◌,
}
use python_oauth2_server.Errors.{OAuthError, Raised, oauth, invalid_client}
use python_oauth2_server.Models.{Client}
use python_oauth2_server.Services.Clients.{
  Library, Call, ClientService, Method, by_none, by_jwt, by_tls, by_self_signed, by_secret,
  method_of, emit_client_validated, raise, secrets_equal,
}
use python_oauth2_server.Services.Clients.Identity.{identify}
use python_oauth2_server.Services.Clients.Assertion.{authenticate_jwt}
use python_oauth2_server.Services.Clients.Certificate.{
  authenticate_tls_client_auth, authenticate_self_signed_tls,
}

abbrev pub public_by :
    Client → Option String → ClientService → ClientService × Result Raised (Unit {0})
public_by client none st = (emit_client_validated client.client_id true st, ok tt)
public_by client (some presented_secret) st = (
  emit_client_validated client.client_id false st,
  raise "public client must not present a secret",
)

-- The secret is there and equal.
abbrev pub holds : Client → Option String → Bool
holds client none = false
holds client (some presented_secret) = secrets_equal presented_secret client.client_secret

abbrev pub secret_by :
    Client → Option String → ClientService → ClientService × Result Raised (Unit {0})
secret_by client presented_secret st =
    let valid = holds client presented_secret in
    (
      emit_client_validated client.client_id valid st,
      guard valid (invalid_client "invalid client secret"),
    )

abbrev pub prove :
    Library
    → Call
    → (String → Option String)
    → Option String
    → Option String
    → Client
    → Option String
    → ClientService
    → Method
    → ClientService × Result Raised (Unit {0})
prove lib call form thumbprint subject_dn client s st by_none = public_by client s st
prove lib call form thumbprint subject_dn client s st by_jwt =
    authenticate_jwt lib call client form st
prove lib call form thumbprint subject_dn client s st by_tls =
    (st, authenticate_tls_client_auth client thumbprint subject_dn)
prove lib call form thumbprint subject_dn client s st by_self_signed =
    authenticate_self_signed_tls lib call client thumbprint st
prove lib call form thumbprint subject_dn client s st by_secret = secret_by client s st

abbrev pub after_identity :
    Library
    → Call
    → (String → Option String)
    → Option String
    → Option String
    → ClientService
    → Result OAuthError (Client × Option String)
    → ClientService × Result Raised Client
after_identity lib call form thumbprint subject_dn st (err e) = (st, err (oauth e))
after_identity lib call form thumbprint subject_dn st (ok (client, s)) =
    let (after, r) = prove lib call form thumbprint subject_dn client s st (method_of client) in
    (after, r >> ok client)

-- `mtls` is the thumbprint and the Subject DN of the headers of the proxy.
unfoldable pub authenticate :
    Library
    → Call
    → (String → Option String)
    → Option String
    → Option String × Option String
    → ClientService
    → ClientService × Result Raised Client
unfolding identify method_of emit_client_validated authenticate_jwt authenticate_tls_client_auth
    authenticate_self_signed_tls
authenticate lib call form authorization_header mtls st =
    after_identity lib call form mtls.0 mtls.1 st
      (identify lib call.wall form authorization_header st.storage)
