-- ===== src/Routes/Token/Refresh/Laws.antt =====
-- routes/token.py: what a rotated refresh token is checked for.
use python_oauth2_server.Prelude.{
  is_some, truthy, elem, eq_refl, ℕ, String, refl, Bool, true, Option, none, some, List, err, ◌≡◌,
}
use python_oauth2_server.Json.{get_field}
use python_oauth2_server.Models.{Client, Token, TokenResponse, Claims, grant_type_list}
use python_oauth2_server.Errors.{bad_request, oauth_error}
use python_oauth2_server.Storage.{
  Storage, get_token_by_refresh_token, revoke_token, in_family, names,
}
use python_oauth2_server.Storage.Families.{Revoked, token-Revoked, family-Revoked}
use python_oauth2_server.Services.Dpop.{DpopValidated}
use python_oauth2_server.Services.Tokens.{Config, Fresh, new_claims}
use python_oauth2_server.Routes.Token.{
  Library, AppState, Form, granted, refused, reuse, refuse, revoke_family, after_checks,
}
use python_oauth2_server.Routes.Token.Issued.{
  Issued, issue_token-Issued, respond-Issued, Signed, issue_token-Signed, respond-Signed,
  after_checks_granted,
}
use python_oauth2_server.Routes.Token.Refresh.{Rotation, check_refresh, grant_of, rotate, refresh}
use python_oauth2_server.Routes.Token.Refresh.Checks.{
  granted_before, NotWidened, KeepsFamily, Rotates, check_refresh-Rotates, family_kept,
}

-- The new tokens are of the user, the family, the binding and the client of the old token, with the
-- scope and the audience of the checks.
pub record Reissued (lib : Library) (config : Config) (fresh : Fresh) (client : Client)
    (rotation : Rotation) (before after : List Token) (r : TokenResponse) : Type 0 where
  pub issued : Issued before after client (grant_of fresh rotation) r
  pub of_user : issued.row.user_id ≡ rotation.old_token.user_id
  pub of_family :
      KeepsFamily (truthy rotation.old_token.token_family) fresh.family issued.row.token_family
  pub of_scope : issued.row.scope ≡ rotation.scope
  pub told_scope : r.scope ≡ rotation.scope
  pub refreshes : is_some r.refresh_token ≡ true
  pub claims : Claims
  pub signed : Signed lib config fresh r claims
  pub claimed_scope : claims.scope ≡ rotation.scope
  pub of_client : claims.client_id ≡ client.client_id
  pub audience :
      NotWidened
        (granted_before
          (get_field "aud" (lib.decode_unverified_claims rotation.old_token.access_token)))
        rotation.resource
        client.client_id
        claims.aud
  pub same_cnf : claims.cnf ≡ rotation.cnf
  pub no_act : claims.act ≡ none

rotate-Reissued :
    (lib : Library) (config : Config) (fresh : Fresh) (now : ℕ) (client : Client) (form : Form)
    (proof : Option DpopValidated) (rotation : Rotation) (st : AppState) (storage : Storage)
    (r : TokenResponse) (n : Bool)
    → Rotates lib config now client form proof storage rotation
    → (rotate lib config fresh now client proof rotation st).1 ≡ granted r n
    → Reissued lib config fresh client rotation
        (revoke_token st.storage rotation.old_token.access_token).tokens
        (rotate lib config fresh now client proof rotation st).0.storage.tokens
        r
unfolding rotate grant_of new_claims
rotate-Reissued lib config fresh now client form proof rotation st storage r n facts h =
    let revoked = record st { storage = revoke_token st.storage rotation.old_token.access_token } in
    let g = grant_of fresh rotation in
    let issued =
      respond-Issued lib client proof _ none _ r n _ _ g
        (issue_token-Issued lib config fresh now client g revoked) h in
    record {
      issued = issued;
      of_user = issued.of_user;
      of_family = rw issued.of_family (family_kept fresh rotation.old_token);
      of_scope = issued.of_scope;
      told_scope = issued.same_scope;
      refreshes = issued.refreshes;
      claims = new_claims config fresh now client g;
      signed =
          respond-Signed lib config fresh client proof _ none _ r n _
            (issue_token-Signed lib config fresh now client g revoked) h;
      claimed_scope = refl;
      of_client = refl;
      audience = facts.audience_narrows;
      same_cnf = refl;
      no_act = refl;
    }

-- A request that is answered with tokens for a refresh token came from the client of that token,
-- which was not revoked and not past its lifetime. The new scope is a part of the old one. Where the
-- old access token tells its audience, the new one is for all of it, or for the one resource that
-- the request names and that is among it; else it is for the named resource or the client. A public
-- client proved the key that the old token is bound to. The old token was revoked, and one row was
-- added, of the same user and of the same family, where the old token has one; the claims of the
-- new access token, unless it is opaque, keep the old binding.
pub refresh_granted :
    (lib : Library) (config : Config) (fresh : Fresh) (now : ℕ) (client : Client) (form : Form)
    (proof : Option DpopValidated) (st : AppState) (r : TokenResponse) (n : Bool)
    → (refresh lib config fresh now client form proof st).1 ≡ granted r n
    → (rotation : Rotation) × Rotates lib config now client form proof st.storage rotation
      × Revoked
          (names rotation.old_token.access_token)
          (revoke_token st.storage rotation.old_token.access_token).tokens
      × Reissued lib config fresh client rotation
          (revoke_token st.storage rotation.old_token.access_token).tokens
          (refresh lib config fresh now client form proof st).0.storage.tokens
          r
unfolding refresh
refresh_granted lib config fresh now client form proof st r n h =
    let (rotation, passed, same, rotates) =
      after_checks_granted (check_refresh lib config now client form proof st.storage) st
        (λ rotation. rotate lib config fresh now client proof rotation st) r n h in
    let facts = check_refresh-Rotates lib config now client form proof st.storage rotation passed in
    (
      rotation,
      facts,
      token-Revoked st.storage rotation.old_token.access_token,
      rw same (
          rotate-Reissued lib config fresh now client form proof rotation st st.storage r n facts
            rotates),
    )

-- A revoked refresh token of a family that its own client presents is refused, and every token of
-- its family is revoked afterwards.
pub refresh_reused :
    (lib : Library) (config : Config) (fresh : Fresh) (now : ℕ) (client : Client) (form : Form)
    (proof : Option DpopValidated) (st : AppState) (value family : String) (t : Token)
    → elem "refresh_token" (grant_type_list lib.loads_texts client) ≡ true
    → truthy (form "refresh_token") ≡ some value
    → get_token_by_refresh_token st.storage value ≡ some t
    → t.client_id ≡ client.client_id
    → t.revoked ≡ true
    → truthy t.token_family ≡ some family
    → ((refresh lib config fresh now client form proof st).1
        ≡ refused (bad_request "invalid_grant" "refresh token has been revoked"))
      × Revoked
          (in_family family)
          (refresh lib config fresh now client form proof st).0.storage.tokens
unfolding refresh
refresh_reused lib config fresh now client form proof st value family t registered given found own
      revoked named =
    let refusal : check_refresh lib config now client form proof st.storage
        ≡ err (reuse t.token_family "refresh token has been revoked") =
      unfold check_refresh in
      rw registered
        (rw given (rw found (rw own (rw (eq_refl client.client_id) (rw revoked refl))))) in
    rw refusal (
      unfold after_checks refuse revoke_family oauth_error in
      rw named (refl, family-Revoked st.storage family))
