-- ===== src/Routes/Token/Code/Laws.antt =====
-- routes/token.py: what a redeemed authorization code is checked for.
use Prim.Native.String.{count}
use python_oauth2_server.Prelude.{
  leb, eqb, is_some, leb→le, le→leb, truthy, elem, same_text, eq_iff, eq_refl, ℕ, String, refl, sym,
  ap, Bool, true, false, not, Option, none, some, [], arith, ok, err, guard_ok, require_ok, bind_ok,
  truthy-some, guard_holds, both, negated, else_of, then_of, same_text-some, ◌==◌, ◌≤◌, ◌≡◌, ◌∙◌,
  ◌≢◌, ◌&&◌, ◌∷◌,
}
use python_oauth2_server.Json.{Fields, Items}
use python_oauth2_server.Errors.{bad_request, oauth_error}
use python_oauth2_server.Models.{Client, AuthorizationCode, TokenResponse, Claims, grant_type_list}
use python_oauth2_server.Storage.{
  Storage, get_authorization_code, mark_authorization_code_used, save_token, in_family,
}
use python_oauth2_server.Storage.Families.{Revoked, family-Revoked}
use python_oauth2_server.Services.Dpop.{DpopValidated}
use python_oauth2_server.Services.Tokens.{Config, Fresh, issue, new_claims, audience_of}
use python_oauth2_server.Routes.Token.{
  Library, AppState, Form, granted, refused, after_checks, revoke_family, refuse, issue_token,
}
use python_oauth2_server.Routes.Token.Issued.{
  Issued, issue_token-Issued, respond-Issued, refuse_grants_nothing, Grants, after_checks_granted,
  KeyProved, proves-KeyProved, Signed, issue_token-Signed, respond-Signed, meant, meant_lem,
}
use python_oauth2_server.Routes.Token.Code.{
  min_verifier_len, max_verifier_len, check_pkce, check_details, find_code, check_code, bound_to,
  claim_code, issue_for_code, redeem_code, grant_of, validated, used_before,
}

-- The request holds a PKCE verifier for this code.
pub PkceHolds : (String → String) → Form → AuthorizationCode → Type 0
PkceHolds pkce_challenge form code =
    (verifier : String) × (form "code_verifier" ≡ some verifier)
    × (43 ≤ count verifier)
    × (count verifier ≤ 128)
    × (code.code_challenge ≡ some (pkce_challenge verifier))

-- What the code and the request have in common when the checks pass at instant `now`.
pub record Matches (lib : Library) (now : ℕ) (client : Client) (form : Form) (storage : Storage)
    (code : AuthorizationCode) : Type 0 where
  pub registered : elem "authorization_code" (grant_type_list lib.loads_texts client) ≡ true
  pub stored :
      (value : String) × (form "code" ≡ some value)
      × (get_authorization_code storage value ≡ some code)
  pub own : code.client_id ≡ client.client_id
  pub fresh : now ≤ code.expires_at
  pub unused : code.used ≡ false
  pub same_redirect : form "redirect_uri" ≡ some code.redirect_uri
  pub pkce : PkceHolds lib.pkce_challenge form code

pkce_checked :
    (challenge : String → String) (form : Form) (code : AuthorizationCode) (u : Unit {0})
    → check_pkce challenge form code ≡ ok u
    → PkceHolds challenge form code
unfolding check_pkce PkceHolds
pkce_checked challenge form code u h =
    let (c, c_found, h1) = require_ok (truthy code.code_challenge) _ _ _ h in
    let (v, v_found, h2) = require_ok (truthy (form "code_verifier")) _ _ _ h1 in
    let (sizes, h3) =
      guard_ok (leb min_verifier_len (count v) && leb (count v) max_verifier_len) _ _ _ h2 in
    let same : challenge v ≡ c = (eq_iff (challenge v) c).0 (guard_holds (challenge v == c) _ h3) in
    let (low, high) = both (leb 43 (count v)) (leb (count v) 128) sizes in
    (
      v,
      truthy-some _ _ v_found,
      leb→le _ _ low,
      leb→le _ _ high,
      truthy-some _ _ c_found ∙ ap some (sym same),
    )

found_code :
    (storage : Storage) (o : Option String) (code : AuthorizationCode)
    → find_code storage o ≡ some code
    → (value : String) × (o ≡ some value) × (get_authorization_code storage value ≡ some code)
found_code storage none code h = cc
found_code storage (some value) code h = (value, refl, h)

pub check_code-Matches :
    (lib : Library) (config : Config) (now : ℕ) (client : Client) (form : Form) (storage : Storage)
    (code : AuthorizationCode) (details : Option Items)
    → check_code lib config now client form storage ≡ ok (code, details)
    → Matches lib now client form storage code
unfolding check_code
check_code-Matches lib config now client form storage code details h =
    let (registered, h1) =
      guard_ok (elem "authorization_code" (grant_type_list lib.loads_texts client)) _ _ _ h in
    let (c, found, h2) = require_ok (find_code storage (truthy (form "code"))) _ _ _ h1 in
    let (own, h3) = guard_ok (c.client_id == client.client_id) _ _ _ h2 in
    let (fresh, h4) = guard_ok (leb now c.expires_at) _ _ _ h3 in
    let (unused, h5) = guard_ok (not c.used) _ _ _ h4 in
    let (redirect, h6) =
      guard_ok (same_text (form "redirect_uri") (some c.redirect_uri)) _ _ _ h5 in
    let (u, pkce, h7) = bind_ok (check_pkce lib.pkce_challenge form c) _ _ h6 in
    let (d, detailed, h8) = bind_ok (check_details lib config form c) _ _ h7 in
    let same : c ≡ code =
      (let pair : Path (AuthorizationCode × Option Items) (c, d) (code, details) = cc in
        ap (λ p. p.0) pair) in
    let (value, given, stored) = found_code storage _ c found in
    rw (sym same) (record {
      registered = registered;
      stored = (value, truthy-some _ _ given, stored);
      own = (eq_iff _ _).0 own;
      fresh = leb→le _ _ fresh;
      unused = negated _ unused;
      same_redirect = same_text-some _ _ redirect;
      pkce = pkce_checked _ form c u pkce;
    })

bound_to-KeyProved :
    (jkt : Option String) (proof : Option DpopValidated)
    → bound_to jkt proof ≡ true
    → KeyProved jkt proof
bound_to-KeyProved none proof h = tt
bound_to-KeyProved (some jkt) proof h = proves-KeyProved jkt proof h

-- The code was claimed by this request: the UPDATE changed a row, and the key that the code was bound
-- to is proved. One token was added, of the user and the family and with the scope of the code, and
-- its claims are for the resource of the code and bound as the request is.
pub record Redeemed (lib : Library) (config : Config) (fresh : Fresh) (client : Client)
    (proof : Option DpopValidated) (code : AuthorizationCode) (details : Option Items)
    (cnf : Option Fields) (st after : AppState) (r : TokenResponse) : Type 0 where
  pub claimed : (mark_authorization_code_used st.storage code.code).1 ≢ 0
  pub marked :
      after.storage.authorization_codes
      ≡ (mark_authorization_code_used st.storage code.code).0.authorization_codes
  pub same_key : KeyProved code.dpop_jkt proof
  pub issued : Issued st.storage.tokens after.storage.tokens client (grant_of code cnf details) r
  pub of_user : issued.row.user_id ≡ some code.user_id
  pub of_family : issued.row.token_family ≡ code.token_family
  pub of_scope : issued.row.scope ≡ code.scope
  pub told_scope : r.scope ≡ code.scope
  pub refreshes : is_some r.refresh_token ≡ true
  pub claims : Claims
  pub signed : Signed lib config fresh r claims
  pub claimed_scope : claims.scope ≡ code.scope
  pub of_client : claims.client_id ≡ client.client_id
  pub audience : claims.aud ≡ meant code.resource client.client_id ∷ []
  pub same_cnf : claims.cnf ≡ cnf
  pub no_act : claims.act ≡ none

-- What a claim that answers with a token has done.
claim_granted :
    (lib : Library) (config : Config) (fresh : Fresh) (now : ℕ) (client : Client)
    (proof : Option DpopValidated) (cnf : Option Fields) (code : AuthorizationCode)
    (details : Option Items) (st : AppState) (r : TokenResponse) (n : Bool)
    → (claim_code lib config fresh now client proof cnf code details st).1 ≡ granted r n
    → Redeemed lib config fresh client proof code details cnf st
        (claim_code lib config fresh now client proof cnf code details st).0
        r
unfolding claim_code issue_for_code grant_of new_claims audience_of
claim_granted lib config fresh now client proof cnf code details st r n h =
    let (storage, claimed) = mark_authorization_code_used st.storage code.code in
    let after = record st { storage = storage } in
    let (changed, issues, h1) =
      else_of (Grants r n) (eqb claimed 0) (refuse after (used_before code))
        (issue_for_code lib config fresh now client proof cnf code details after) h
        (refuse_grants_nothing after (used_before code) r n) in
    let (bound, same, h2) = then_of (Grants r n) (bound_to code.dpop_jkt proof) _ _ h1 (λ e. cc) in
    let g = grant_of code cnf details in
    let issued =
      respond-Issued lib client proof (some code.user_id) (some code) _ r n _ _ _
        (issue_token-Issued lib config fresh now client g (validated code after)) h2 in
    rw issues (
      rw same (record {
        claimed = (λ e. ground arith);
        marked = unfold issue_token issue save_token in refl;
        same_key = bound_to-KeyProved code.dpop_jkt proof bound;
        issued = issued;
        of_user = issued.of_user;
        of_family = issued.of_family;
        of_scope = issued.of_scope;
        told_scope = issued.same_scope;
        refreshes = issued.refreshes;
        claims = new_claims config fresh now client g;
        signed =
            respond-Signed lib config fresh client proof (some code.user_id) (some code) _ r n _
              (issue_token-Signed lib config fresh now client g (validated code after)) h2;
        claimed_scope = refl;
        of_client = refl;
        audience = meant_lem code.resource client.client_id;
        same_cnf = refl;
        no_act = refl;
      }))

-- A request that is answered with a token for an authorization code came from the client that the
-- code was issued to, not after its expiry, for a code not marked as used, with the redirect URI of
-- the authorization request and the PKCE verifier of the challenge; the request itself marked the
-- code as used, proved the key that the code is bound to, if any, and added one token, of the
-- code's user, family and scope, whose claims are for the code's resource, or else for the client.
pub redeem_code_granted :
    (lib : Library) (config : Config) (fresh : Fresh) (now : ℕ) (client : Client) (form : Form)
    (proof : Option DpopValidated) (cnf : Option Fields) (st : AppState) (r : TokenResponse)
    (n : Bool)
    → (redeem_code lib config fresh now client form proof cnf st).1 ≡ granted r n
    → (code : AuthorizationCode) × (details : Option Items) × Matches lib now client form st.storage
        code
      × Redeemed lib config fresh client proof code details cnf st
          (redeem_code lib config fresh now client form proof cnf st).0
          r
unfolding redeem_code
redeem_code_granted lib config fresh now client form proof cnf st r n h =
    let ((code, details), passed, same, claims) =
      after_checks_granted (check_code lib config now client form st.storage) st
        (λ checked. claim_code lib config fresh now client proof cnf checked.0 checked.1 st) r n
        h in
    (
      code,
      details,
      check_code-Matches lib config now client form st.storage code details passed,
      rw same (claim_granted lib config fresh now client proof cnf code details st r n claims),
    )

-- An authorization code marked as used that its own client presents again before its expiry is
-- refused, and every token of the family of the code is revoked afterwards.
pub code_replayed :
    (lib : Library) (config : Config) (fresh : Fresh) (now : ℕ) (client : Client) (form : Form)
    (proof : Option DpopValidated) (cnf : Option Fields) (st : AppState) (value family : String)
    (code : AuthorizationCode)
    → elem "authorization_code" (grant_type_list lib.loads_texts client) ≡ true
    → truthy (form "code") ≡ some value
    → get_authorization_code st.storage value ≡ some code
    → code.client_id ≡ client.client_id
    → now ≤ code.expires_at
    → code.used ≡ true
    → truthy code.token_family ≡ some family
    → ((redeem_code lib config fresh now client form proof cnf st).1
        ≡ refused (bad_request "invalid_grant" "authorization code has already been used"))
      × Revoked
          (in_family family)
          (redeem_code lib config fresh now client form proof cnf st).0.storage.tokens
unfolding redeem_code
code_replayed lib config fresh now client form proof cnf st value family code registered given found
      own live used named =
    let refusal : check_code lib config now client form st.storage ≡ err (used_before code) =
      unfold check_code in
      rw registered (
        rw given (
          rw found (
            rw own (
              rw (eq_refl client.client_id)
                (rw (le→leb now code.expires_at live) (rw used refl)))))) in
    rw refusal (
      unfold after_checks refuse revoke_family oauth_error in
      rw named (refl, family-Revoked st.storage family))
