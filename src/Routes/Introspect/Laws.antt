-- ===== src/Routes/Introspect/Laws.antt =====
-- routes/introspect.py: what is known of a token that is reported active.
use python_oauth2_server.Prelude.{
  ltb→lt, truthy, eq_iff, ℕ, String, refl, sym, ap, Bool, true, false, not, Option, none, some,
  Result, ok, err, truthy-some, both, negated, else_of, then_of, if◌then◌else◌, ◌==◌, ◌+◌, ◌*◌, ◌/◌,
  ◌<◌, ◌≡◌, ◌∙◌,
}
use python_oauth2_server.Json.{get_field, as_obj}
use python_oauth2_server.Services.Dpop.Once.{checked}
use python_oauth2_server.Errors.{Raised, oauth, uncaught}
use python_oauth2_server.Models.{Client, Token}
use python_oauth2_server.Clock.{second}
use python_oauth2_server.Storage.{Storage, get_token_by_access_token, get_token_by_refresh_token}
use python_oauth2_server.Services.Tokens.{Config}
use python_oauth2_server.Services.Clients.Authenticate.{authenticate}
use python_oauth2_server.Services.Clients.Laws.{Identified, authenticate_ok}
use python_oauth2_server.Services.Clients.Methods.{Proved}
use python_oauth2_server.Routes.Token.{AppState, log}
use python_oauth2_server.Routes.Token.Endpoint.{
  Libraries, Request, Env, service_of, after_service, call_of,
}
use python_oauth2_server.Routes.Introspect.{
  Body, Reply, result, Check, passed, inactive, failed, error, Decoders, lookup_token,
  expiry_deadline, is_active, bound_key, bound_thumbprint, check_key, check_thumbprint, body_of,
  after_key, token_event, introspect_live, introspect_row, introspect_for, after_client, introspect,
}
use python_oauth2_server.Routes.Introspect.Bindings.{
  KeyProved, CertificateProved, key_found, certificate_found,
}

abbrev pub Reports : Body → AppState × Reply → Type 0
Reports body p = p.1 ≡ result (some body)

-- What the check of the key comes to.
abbrev pub key_check : Libraries → Decoders → Env → Request → String → AppState → Check
key_check libs decoders env request value st =
    let checked =
      check_key libs.dpop env request.dpop
        (bound_key decoders.is_zero (as_obj (get_field "cnf" (decoders.unverified value))))
        st.dpop_replay in
    checked.1

-- The row is that of the access token, or else of the refresh token.
abbrev pub By : Option Token → Option Token → Token → Bool → Type 0
By by_access by_refresh row false = by_access ≡ some row
By by_access by_refresh row true = (by_access ≡ none) × (by_refresh ≡ some row)

abbrev pub Stored : Storage → String → Token → Bool → Type 0
Stored storage value =
    By (get_token_by_access_token storage value) (get_token_by_refresh_token storage value)

-- An access token lives until its row expires, a refresh token for the lifetime of refresh tokens.
abbrev pub deadline : Config → Token → Bool → ℕ
deadline config row false = row.expires_at
deadline config row true = row.created_at + config.refresh_token_ttl_secs * second

same_pair : (p q : Token × Bool) → some p ≡ some q → (p.0 ≡ q.0) × (p.1 ≡ q.1)
same_pair p q e = let pq : p ≡ q = cc in (ap (λ x. x.0) pq, ap (λ x. x.1) pq)

either_row :
    (a b : Option Token) (row : Token) (via : Bool)
    → Path
        (Option (Token × Bool))
        (elim a [
          | some t ↦ some (t, false)
          | none ↦ elim b [ some t ↦ some (t, true) | none ↦ none ]
        ])
        (some (row, via))
    → By a b row via
either_row (some t) b row via h =
    let (same, path) = same_pair (t, false) (row, via) h in rw (sym path) (ap some same)
either_row none (some t) row via h =
    let (same, path) = same_pair (t, true) (row, via) h in rw (sym path) (refl, ap some same)
either_row none none row via h = cc

lookup_token-Stored :
    (storage : Storage) (value : String) (row : Token) (via : Bool)
    → lookup_token storage value ≡ some (row, via)
    → Stored storage value row via
unfolding lookup_token
lookup_token-Stored storage value row via h =
    either_row (get_token_by_access_token storage value) (get_token_by_refresh_token storage value)
      row via h

deadline_lem :
    (config : Config) (row : Token) (via : Bool)
    → expiry_deadline config row via ≡ deadline config row via
unfolding expiry_deadline
deadline_lem config row false = refl
deadline_lem config row true = refl

-- The row of a token that is reported, and the bindings that were checked.
pub record Reported (libs : Libraries) (decoders : Decoders) (env : Env) (request : Request)
    (client : Client) (st : AppState) (body : Body) : Type 0 where
  pub value : String
  pub row : Token
  pub via_refresh : Bool
  pub given : request.form "token" ≡ some value
  pub stored : Stored st.storage value row via_refresh
  pub own : row.client_id ≡ client.client_id
  pub live : row.revoked ≡ false
  pub not_expired : env.call.wall < deadline env.config row via_refresh
  pub key :
      KeyProved libs.dpop decoders.is_zero env request.dpop st.dpop_replay
        (as_obj (get_field "cnf" (decoders.unverified value)))
  pub certificate :
      CertificateProved (as_obj (get_field "cnf" (decoders.unverified value))) request.mtls.0
  pub told : body ≡ body_of decoders env.config st.storage value (row, via_refresh)
  pub of_scope : body.scope ≡ row.scope
  pub of_client : body.client_id ≡ row.client_id
  pub until : body.exp ≡ deadline env.config row via_refresh / second
  pub since : body.iat ≡ row.created_at / second
  pub of_issuer : body.iss ≡ env.config.issuer

result_same : (a b : Body) → result (some a) ≡ result (some b) → b ≡ a
result_same a b h = cc

key_passed :
    (decoders : Decoders) (env : Env) (presented : Option String) (value : String)
    (row : Token × Bool) (st : AppState) (c : Check) (body : Body)
    → Reports body (after_key decoders env.config presented value row st c)
    → (c ≡ passed)
      × (check_thumbprint
            (bound_thumbprint (as_obj (get_field "cnf" (decoders.unverified value))))
            presented
          ≡ true)
      × (body ≡ body_of decoders env.config st.storage value row)
key_passed decoders env presented value row st inactive body h = cc
key_passed decoders env presented value row st failed body h = cc
key_passed decoders env presented value row st (error e) body h = cc
key_passed decoders env presented value row st passed body h =
    let (checked, same, reported) =
      then_of (Reports body)
        (check_thumbprint (bound_thumbprint (as_obj (get_field "cnf" (decoders.unverified value))))
          presented)
        (
          log (token_event "token_validated" row.0) st,
          result (some (body_of decoders env.config st.storage value row)),
        )
        (st, result none) h (λ e. cc) in
    (refl, checked, result_same _ _ reported)

affirmed : (b : Bool) → not b ≡ false → b ≡ true
affirmed true h = refl
affirmed false h = cc

active_facts :
    (config : Config) (now : ℕ) (row : Token) (via : Bool)
    → is_active config now (row, via) ≡ true
    → (row.revoked ≡ false) × (now < expiry_deadline config row via)
unfolding is_active
active_facts config now row via h =
    let (valid, unexpired) = both (not row.revoked) _ h in (negated _ valid, ltb→lt _ _ unexpired)

live_reported :
    (libs : Libraries) (decoders : Decoders) (env : Env) (request : Request) (value : String)
    (row : Token × Bool) (st : AppState) (body : Body)
    → Reports body (introspect_live libs decoders env request value row st)
    → (key_check libs decoders env request value st ≡ passed)
      × (check_thumbprint
            (bound_thumbprint (as_obj (get_field "cnf" (decoders.unverified value))))
            request.mtls.0
          ≡ true)
      × (body ≡ body_of decoders env.config st.storage value row)
unfolding introspect_live
live_reported libs decoders env request value row st body h =
    key_passed decoders env request.mtls.0 value row _
      (key_check libs decoders env request value st) body h

row-Reported :
    (libs : Libraries) (decoders : Decoders) (env : Env) (request : Request) (client : Client)
    (st : AppState) (body : Body) (value : String) (o : Option (Token × Bool))
    → request.form "token" ≡ some value
    → lookup_token st.storage value ≡ o
    → Reports body (introspect_row libs decoders env request client value o st)
    → Reported libs decoders env request client st body
unfolding body_of
row-Reported libs decoders env request client st body value none given stored h = cc
row-Reported libs decoders env request client st body value (some (row, via)) given stored h =
    let live = introspect_live libs decoders env request value (row, via) st in
    let (active, same, h1) =
      else_of (Reports body) (not (is_active env.config env.call.wall (row, via)))
        (log (token_event "token_expired" row) st, result none)
        (if not (row.client_id == client.client_id) then (st, result none) else live) h (λ e. cc) in
    let (own, same', h2) =
      else_of (Reports body) (not (row.client_id == client.client_id)) (st, result none) live h1
        (λ e. cc) in
    let (valid, unexpired) = active_facts env.config env.call.wall row via (affirmed _ active) in
    let (keyed, thumb, told) =
      live_reported libs decoders env request value (row, via) st body h2 in
    record {
      value = value;
      row = row;
      via_refresh = via;
      given = given;
      stored = lookup_token-Stored st.storage value row via stored;
      own = (eq_iff _ _).0 (affirmed _ own);
      live = valid;
      not_expired = rw (sym (deadline_lem env.config row via)) unexpired;
      key = key_found libs.dpop decoders.is_zero env st.dpop_replay _ request.dpop keyed;
      certificate =
          certificate_found (as_obj (get_field "cnf" (decoders.unverified value))) request.mtls.0
            thumb;
      told = told;
      of_scope = ap (λ b. b.scope) told;
      of_client = ap (λ b. b.client_id) told;
      until = ap (λ b. b.exp) told ∙ ap (λ t. t / second) (deadline_lem env.config row via);
      since = ap (λ b. b.iat) told;
      of_issuer = ap (λ b. b.iss) told;
    }

client-Reported :
    (libs : Libraries) (decoders : Decoders) (env : Env) (request : Request) (st : AppState)
    (body : Body) (r : Result Raised Client)
    → Reports body (after_client libs decoders env request st r)
    → (client : Client) × (r ≡ ok client) × Reported libs decoders env request client st body
client-Reported libs decoders env request st body (err uncaught) h = cc
client-Reported libs decoders env request st body (err (oauth e)) h = cc
client-Reported libs decoders env request st body (ok client) h =
    let (value, given, h1) = value_given (truthy (request.form "token")) h in
    (
      client,
      refl,
      row-Reported libs decoders env request client st body value (lookup_token st.storage value)
          (truthy-some _ _ given) refl h1,
    )
  where
    value_given :
        (o : Option String)
        → Reports body (introspect_for libs decoders env request client o st)
        → (value : String) × (o ≡ some value)
          × Reports body (
              introspect_row libs decoders env request client value
                (lookup_token st.storage value)
                st)
    value_given none h = cc
    value_given (some value) h = (value, refl, h)

-- A token is reported active only to an authenticated client, and only if its row is stored under
-- the presented value for this client, is not revoked and is not past the deadline of the value.
-- Where the claims of the presented value have a `cnf` with a key, the request has a valid and
-- unseen DPoP proof of that key, and where it has a certificate, the connection is over that
-- certificate; a value that carries no such claims, as an opaque one or a refresh token, asks for
-- neither. The scope, the client and the instants of the answer are those of the row.
pub introspect_active :
    (libs : Libraries) (decoders : Decoders) (env : Env) (request : Request) (st : AppState)
    (body : Body)
    → Reports body (introspect libs decoders env request st)
    → (client : Client) × (s : Option String) × Identified libs.clients env.call.wall request.form
        request.authorization st.storage client s
      × Proved libs.clients
          (call_of env)
          request.form
          request.mtls.0
          request.mtls.1
          client
          s
          (service_of env st)
      × Reported libs decoders env request client st body
unfolding introspect
introspect_active libs decoders env request st body h =
    let a =
      authenticate libs.clients (call_of env) request.form request.authorization request.mtls
        (service_of env st) in
    let (client, found, reported) =
      client-Reported libs decoders env request (after_service a.0 st) body a.1 h in
    let (s, identified, proved) =
      authenticate_ok libs.clients (call_of env) request.form request.authorization request.mtls
        (service_of env st) client found in
    let r = reported in
    (
      client,
      s,
      identified,
      proved,
      record {
        value = r.value;
        row = r.row;
        via_refresh = r.via_refresh;
        given = r.given;
        stored = r.stored;
        own = r.own;
        live = r.live;
        not_expired = r.not_expired;
        key = r.key;
        certificate = r.certificate;
        told = r.told;
        of_scope = r.of_scope;
        of_client = r.of_client;
        until = r.until;
        since = r.since;
        of_issuer = r.of_issuer;
      },
    )
