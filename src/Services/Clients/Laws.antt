-- ===== src/Services/Clients/Laws.antt =====
-- services/clients.py: what is known of an authenticated client.
use python_oauth2_server.Prelude.{
  is_some, truthy, eq_iff, ℕ, String, refl, sym, ap, true, not, Option, none, some, Result, ok, err,
  guard_ok, require_ok, bind_ok, ok_unique, ◌≡◌, ◌∙◌,
}
use python_oauth2_server.Errors.{OAuthError}
use python_oauth2_server.Models.{Client}
use python_oauth2_server.Storage.{Storage}
use python_oauth2_server.Storage.Clients.{get_client}
use python_oauth2_server.Storage.Denylist.{check_subject_denylisted}
use python_oauth2_server.Services.Clients.{Library, Call, ClientService, method_of}
use python_oauth2_server.Services.Clients.Identity.{
  parse_basic_auth, agrees, presented, identity, identify,
}
use python_oauth2_server.Services.Jwt.{Jwt}
use python_oauth2_server.Services.ClientAssertion.Verify.{unverified_assertion_subject}
use python_oauth2_server.Services.Clients.Authenticate.{prove, after_identity, authenticate}
use python_oauth2_server.Services.Clients.Methods.{Proved, prove-Proved}

-- What a header says, the form says too or says nothing of.
abbrev pub Agrees : Option String → String → Type 0
Agrees none presented = Unit {0}
Agrees (some given) presented = given ≡ presented

-- The identifier and the secret that are used: those of the header, with which the form agrees, or
-- else those of the form.
abbrev pub Presented :
    Option (String × String)
    → Option String
    → Option String
    → Option String × Option String
    → Type 0
Presented none form_id form_secret used = (used.0 ≡ form_id) × (used.1 ≡ form_secret)
Presented (some (client_id, client_secret)) form_id form_secret used =
    (used.0 ≡ some client_id)
    × (used.1 ≡ some client_secret)
    × Agrees (truthy form_id) client_id
    × Agrees (truthy form_secret) client_secret

-- The client is named by the identifier, or else by the subject of the assertion.
abbrev pub Names : Jwt → Option String → Option String → String → Type 0
Names jwt (some given) assertion client_id = client_id ≡ given
Names jwt none none client_id = ⊥
Names jwt none (some assertion) client_id =
    truthy (unverified_assertion_subject jwt assertion) ≡ some client_id

-- The row of the identifier that the request presents, and its secret.
pub record Identified (lib : Library) (now : ℕ) (form : String → Option String)
    (header : Option String) (storage : Storage) (client : Client) (s : Option String)
    : Type 0 where
  pub basic : Option (String × String)
  pub credentials : Option String × Option String
  pub client_id : String
  pub parsed : parse_basic_auth lib header ≡ ok basic
  pub agreed : Presented basic (form "client_id") (form "client_secret") credentials
  pub named : Names lib.jwt (truthy credentials.0) (form "client_assertion") client_id
  pub secret : truthy credentials.1 ≡ s
  pub stored : get_client storage client_id ≡ some client
  pub enabled : client.enabled ≡ true
  pub not_denied : check_subject_denylisted storage now "client_id" client.client_id ≡ none

absent {ℓ} : {A : Type ℓ} (o : Option A) → not (is_some o) ≡ true → o ≡ none
absent none h = refl
absent (some a) h = cc

agrees-Agrees :
    (o : Option String) (presented : String) → agrees o presented ≡ true → Agrees o presented
agrees-Agrees none presented h = tt
agrees-Agrees (some given) presented h = (eq_iff _ _).0 h

presented_agreed :
    (basic : Option (String × String)) (form_id form_secret : Option String)
    (used : Option String × Option String)
    → presented basic form_id form_secret ≡ ok used
    → Presented basic form_id form_secret used
presented_agreed none form_id form_secret used h =
    let same = ok_unique _ _ _ refl h in (ap (λ p. p.0) (sym same), ap (λ p. p.1) (sym same))
presented_agreed (some (client_id, client_secret)) form_id form_secret used h =
    let (same_id, h1) = guard_ok (agrees (truthy form_id) client_id) _ _ _ h in
    let (same_secret, h2) = guard_ok (agrees (truthy form_secret) client_secret) _ _ _ h1 in
    let same = ok_unique _ _ _ refl h2 in
    (
      ap (λ p. p.0) (sym same),
      ap (λ p. p.1) (sym same),
      agrees-Agrees _ client_id same_id,
      agrees-Agrees _ client_secret same_secret,
    )

identity_named :
    (jwt : Jwt) (given assertion : Option String) (client_id : String)
    → identity jwt given assertion ≡ some client_id
    → Names jwt given assertion client_id
identity_named jwt (some given) assertion client_id h = cc
identity_named jwt none none client_id h = cc
identity_named jwt none (some assertion) client_id h = h

pub identify-Identified :
    (lib : Library) (now : ℕ) (form : String → Option String) (header : Option String)
    (storage : Storage) (client : Client) (s : Option String)
    → identify lib now form header storage ≡ ok (client, s)
    → Identified lib now form header storage client s
unfolding identify
identify-Identified lib now form header storage client s h =
    let (basic, parsed, h1) = bind_ok (parse_basic_auth lib header) _ _ h in
    let (credentials, agreed, h2) =
      bind_ok (presented basic (form "client_id") (form "client_secret")) _ _ h1 in
    let (client_id, named, h3) =
      require_ok (identity lib.jwt (truthy credentials.0) (form "client_assertion")) _ _ _ h2 in
    let (c, stored, h4) = require_ok (get_client storage client_id) _ _ _ h3 in
    let (enabled, h5) = guard_ok c.enabled _ _ _ h4 in
    let (not_denied, h6) =
      guard_ok (not (is_some (check_subject_denylisted storage now "client_id" c.client_id))) _ _ _
        h5 in
    let same : c ≡ client = cc in
    let same_secret : truthy credentials.1 ≡ s = cc in
    record {
      basic = basic;
      credentials = credentials;
      client_id = client_id;
      parsed = parsed;
      agreed = presented_agreed basic (form "client_id") (form "client_secret") credentials agreed;
      named =
          identity_named lib.jwt (truthy credentials.0) (form "client_assertion") client_id named;
      secret = same_secret;
      stored = stored ∙ ap some same;
      enabled = rw (sym same) enabled;
      not_denied = rw (sym same) (absent _ not_denied);
    }

identified :
    (lib : Library) (call : Call) (form : String → Option String)
    (thumbprint subject_dn : Option String) (st : ClientService) (client : Client)
    (r : Result OAuthError (Client × Option String))
    → (after_identity lib call form thumbprint subject_dn st r).1 ≡ ok client
    → (s : Option String) × (r ≡ ok (client, s))
      × Proved lib call form thumbprint subject_dn client s st
identified lib call form thumbprint subject_dn st client (err e) h = cc
identified lib call form thumbprint subject_dn st client (ok (c, s)) h =
    let (u, proved, same) =
      bind_ok (prove lib call form thumbprint subject_dn c s st (method_of c)).1 (λ _. ok c) _ h in
    let eq : c ≡ client = cc in
    (
      s,
      ap (λ x. ok (x, s)) eq,
      rw (sym eq)
          (prove-Proved lib call form thumbprint subject_dn c s st (method_of c) refl proved),
    )

-- A request that is authenticated comes from a client that is stored under the identifier that the
-- request presents, enabled and not denylisted. Where there is a Basic header, its identifier and
-- secret count, and the form names no others. The client proved itself by the method it is registered
-- with: with its secret, an accepted assertion under its own key, the certificate of its Subject
-- DN (any certificate where none is registered) or a registered thumbprint; a public client
-- presented no secret.
pub authenticate_ok :
    (lib : Library) (call : Call) (form : String → Option String) (header : Option String)
    (mtls : Option String × Option String) (st : ClientService) (client : Client)
    → (authenticate lib call form header mtls st).1 ≡ ok client
    → (s : Option String) × Identified lib call.wall form header st.storage client s
      × Proved lib call form mtls.0 mtls.1 client s st
unfolding authenticate
authenticate_ok lib call form header mtls st client h =
    let (s, found, proved) =
      identified lib call form mtls.0 mtls.1 st client
        (identify lib call.wall form header st.storage) h in
    (s, identify-Identified lib call.wall form header st.storage client s found, proved)
