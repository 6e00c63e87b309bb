-- ===== src/Routes/Token/Exchange/Laws.antt =====
-- routes/token.py: what an exchanged token is checked for.
use python_oauth2_server.Prelude.{
  ltb, is_some, ltb→lt, Bool-cases, truthy, elem, same_text, ℕ, String, refl, sym, inl, inr, Bool,
  true, false, not, Option, none, some, List, [], ok, guard, map_err, guard_ok, require_ok, bind_ok,
  map_err_ok, truthy-some, both, negated, else_of, same_text-some, if◌then◌else◌, ◌≤◌, ◌<◌, ◌≡◌,
  ◌&&◌, ◌||◌, ◌∷◌,
}
use python_oauth2_server.Json.{Fields, obj, get_field, as_obj, as_str}
use python_oauth2_server.Errors.{text}
use python_oauth2_server.Models.{Client, Token, TokenResponse, Claims, is_public, grant_type_list}
use python_oauth2_server.Storage.{Storage, get_token_by_access_token}
use python_oauth2_server.Services.Dpop.{DpopValidated}
use python_oauth2_server.Services.Limits.{check_depth}
use python_oauth2_server.Services.Limits.Depth.{depth, check_depth_ok}
use python_oauth2_server.Services.Resource.{validate_resource}
use python_oauth2_server.Services.Scope.{scope_is_subset}
use python_oauth2_server.Services.Tokens.{Config, Fresh, new_claims}
use python_oauth2_server.Routes.Token.{
  raised, Library, AppState, Form, Response, exchanged, unauthorized, after_checks, requested_scope,
  issue_token, invalid_client_response,
}
use python_oauth2_server.Routes.Token.Issued.{
  Issued, issue_token-Issued, Signed, issue_token-Signed, meant, meant_lem, AskedScope, scope_asked,
  scope_checked, Exchanges, after_checks_exchanged, invalid_client_never_exchanges,
}
use python_oauth2_server.Routes.Token.Exchange.{
  token_exchange_grant, access_token_type_urn, act_of, max_act_depth, Exchange, check_exchange,
  grant_of, issue_exchanged, token_exchange,
}

-- The subject token is a live one of this server, and the new token carries no more than it.
pub record Delegates (lib : Library) (now : ℕ) (client : Client) (form : Form) (storage : Storage)
    (e : Exchange) : Type 0 where
  pub subject :
      (token : String) × (form "subject_token" ≡ some token)
      × (get_token_by_access_token storage token ≡ some e.subject_row)
      × (e.act ≡ act_of client (as_obj (get_field "act" (lib.decode_unverified_claims token))))
  pub of_type : form "subject_token_type" ≡ some access_token_type_urn
  pub live : e.subject_row.revoked ≡ false
  pub fresh : now < e.subject_row.expires_at
  pub scope_narrows : scope_is_subset e.scope e.subject_row.scope ≡ true
  pub scope_wanted : AskedScope (truthy (form "scope")) e.subject_row.scope e.scope
  pub resource_read : validate_resource lib.urlsplit (form "resource") ≡ ok e.resource
  pub actor : as_str (get_field "sub" e.act) ≡ some client.client_id
  pub act_bounded : depth (obj e.act) ≤ 10

act_of_lem :
    (client : Client) (prior : Option Fields)
    → as_str (get_field "sub" (act_of client prior)) ≡ some client.client_id
unfolding act_of get_field
act_of_lem client none = refl
act_of_lem client (some prior) =
    elim (Bool-cases (same_text (as_str (get_field "sub" prior)) (some client.client_id))) [
      | inl e ↦ rw e refl
      | inr e ↦ rw e refl
    ]

check_exchange-Delegates :
    (lib : Library) (now : ℕ) (client : Client) (form : Form) (storage : Storage) (e : Exchange)
    → check_exchange lib now client form storage ≡ ok e
    → Delegates lib now client form storage e
unfolding check_exchange
check_exchange-Delegates lib now client form storage e h =
    let (token, given, h1) = require_ok (truthy (form "subject_token")) _ _ _ h in
    let (typed, h2) =
      guard_ok (same_text (form "subject_token_type") (some access_token_type_urn)) _ _ _ h1 in
    let (wanted, h3) =
      guard_ok
        (same_text (form "requested_token_type") none
          || same_text (form "requested_token_type") (some access_token_type_urn))
        _ _ _ h2 in
    let (row, found, h4) = require_ok (get_token_by_access_token storage token) _ _ _ h3 in
    let (usable, h5) = guard_ok (not row.revoked && ltb now row.expires_at) _ _ _ h4 in
    let (scope, scoped, h6) =
      bind_ok (requested_scope (truthy (form "scope")) row.scope _) _ _ h5 in
    let act = act_of client (as_obj (get_field "act" (lib.decode_unverified_claims token))) in
    let (u, shallow, h7) = bind_ok (map_err _ (check_depth (obj act) "act" max_act_depth)) _ _ h6 in
    let (resource, valid, h8) =
      bind_ok (map_err raised (validate_resource lib.urlsplit (form "resource"))) _ _ h7 in
    let (live, unexpired) = both (not row.revoked) (ltb now row.expires_at) usable in
    let e0 : Exchange = record {
      subject_row = row;
      scope = scope;
      act = act;
      resource = resource;
    } in
    let same : e0 ≡ e = cc in
    rw (sym same) (record {
      subject = (token, truthy-some _ _ given, found, refl);
      of_type = same_text-some _ _ typed;
      live = negated _ live;
      fresh = ltb→lt _ _ unexpired;
      scope_narrows = scope_checked _ row.scope _ scope scoped;
      scope_wanted = scope_asked _ row.scope _ scope scoped;
      resource_read = map_err_ok _ _ _ valid;
      actor = act_of_lem client (as_obj (get_field "act" (lib.decode_unverified_claims token)));
      act_bounded = check_depth_ok (obj act) "act" max_act_depth (map_err_ok _ _ _ shallow);
    })

issue_exchanged-Issued :
    (lib : Library) (config : Config) (fresh : Fresh) (now : ℕ) (client : Client) (form : Form)
    (proof : Option DpopValidated) (cnf : Option Fields) (e : Exchange) (st : AppState)
    (r : TokenResponse) (a : Option Fields) (n : Bool)
    → Exchanges r a n (issue_exchanged lib config fresh now client form proof cnf e st)
    → Issued st.storage.tokens
        (issue_exchanged lib config fresh now client form proof cnf e st).0.storage.tokens
        client
        (grant_of e cnf)
        r
unfolding issue_exchanged
issue_exchanged-Issued lib config fresh now client form proof cnf e st r a n h =
    let response : (issue_token lib config fresh now client (grant_of e cnf) st).1 ≡ r = cc in
    rw (sym response) (issue_token-Issued lib config fresh now client (grant_of e cnf) st)

-- The token that was issued is for the user of the subject token, without a refresh token, and carries
-- the `act` chain of the exchange.
pub record Exchanged (lib : Library) (config : Config) (fresh : Fresh) (client : Client)
    (e : Exchange) (cnf : Option Fields) (before after : List Token) (r : TokenResponse)
    : Type 0 where
  pub issued : Issued before after client (grant_of e cnf) r
  pub of_user : issued.row.user_id ≡ e.subject_row.user_id
  pub of_scope : issued.row.scope ≡ e.scope
  pub no_family : issued.row.token_family ≡ none
  pub no_refresh : r.refresh_token ≡ none
  pub told_scope : r.scope ≡ e.scope
  pub claims : Claims
  pub signed : Signed lib config fresh r claims
  pub claimed_scope : claims.scope ≡ e.scope
  pub of_client : claims.client_id ≡ client.client_id
  pub audience : claims.aud ≡ meant e.resource client.client_id ∷ []
  pub same_cnf : claims.cnf ≡ cnf
  pub acts : claims.act ≡ some e.act

no_text : (o : Option String) → is_some o ≡ false → o ≡ none
no_text none h = refl
no_text (some s) h = cc

issue_exchanged-Exchanged :
    (lib : Library) (config : Config) (fresh : Fresh) (now : ℕ) (client : Client) (form : Form)
    (proof : Option DpopValidated) (cnf : Option Fields) (e : Exchange) (st : AppState)
    (r : TokenResponse) (a : Option Fields) (n : Bool)
    → Exchanges r a n (issue_exchanged lib config fresh now client form proof cnf e st)
    → Exchanged lib config fresh client e cnf st.storage.tokens
        (issue_exchanged lib config fresh now client form proof cnf e st).0.storage.tokens
        r
unfolding issue_exchanged grant_of new_claims
issue_exchanged-Exchanged lib config fresh now client form proof cnf e st r a n h =
    let g = grant_of e cnf in
    let response : (issue_token lib config fresh now client g st).1 ≡ r = cc in
    let issued = issue_exchanged-Issued lib config fresh now client form proof cnf e st r a n h in
    record {
      issued = issued;
      of_user = issued.of_user;
      of_scope = issued.of_scope;
      no_family = issued.of_family;
      no_refresh = no_text _ issued.refreshes;
      told_scope = issued.same_scope;
      claims = new_claims config fresh now client g;
      signed = rw (sym response) (issue_token-Signed lib config fresh now client g st);
      claimed_scope = refl;
      of_client = refl;
      audience = meant_lem e.resource client.client_id;
      same_cnf = refl;
      acts = refl;
    }

-- A request that is answered with an exchanged token came from a client that is not public, for a
-- subject token that the store holds, that is neither revoked nor expired. The new token has a part
-- of its scope, its user and the requesting client, no refresh token, and the claims that are signed
-- for it, unless it is opaque, name the requested resource, or else the client, and carry an `act`
-- chain of at most ten levels.
pub exchange_granted :
    (lib : Library) (config : Config) (fresh : Fresh) (monotonic now : ℕ) (client : Client)
    (form : Form) (proof : Option DpopValidated) (cnf : Option Fields) (st : AppState)
    (r : TokenResponse) (a : Option Fields) (n : Bool)
    → (token_exchange lib config fresh monotonic now client form proof cnf st).1 ≡ exchanged r a n
    → (e : Exchange) × (is_public client ≡ false)
      × Delegates lib now client form st.storage e
      × Exchanged lib config fresh client e cnf st.storage.tokens
          (token_exchange lib config fresh monotonic now client form proof cnf st).0.storage.tokens
          r
unfolding token_exchange
exchange_granted lib config fresh monotonic now client form proof cnf st r a n h =
    let issue : Exchange → AppState × Response =
      (λ e. issue_exchanged lib config fresh now client form proof cnf e st) in
    let checks = after_checks (check_exchange lib now client form st.storage) st issue in
    let rejected =
      invalid_client_response st monotonic now (some client.client_id)
        (text "Public clients cannot use token-exchange") in
    let listed =
      guard (elem token_exchange_grant (grant_type_list lib.loads_texts client)) unauthorized in
    let (u, passed, same1, h1) =
      after_checks_exchanged listed st (λ u. if is_public client then rejected else checks) r a n
        h in
    let (confidential, same2, h2) =
      else_of (Exchanges r a n) (is_public client) rejected checks h1 (
        invalid_client_never_exchanges st monotonic now (some client.client_id)
          (text "Public clients cannot use token-exchange") r a n) in
    let (e, checked, same3, h3) =
      after_checks_exchanged (check_exchange lib now client form st.storage) st issue r a n h2 in
    (
      e,
      confidential,
      check_exchange-Delegates lib now client form st.storage e checked,
      rw same1 (
          rw same2 (
            rw same3 (
              issue_exchanged-Exchanged lib config fresh now client form proof cnf e st r a n h3))),
    )
