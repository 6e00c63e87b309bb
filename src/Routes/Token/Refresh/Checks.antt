-- ===== src/Routes/Token/Refresh/Checks.antt =====
-- routes/token.py: the checks of a refresh token.
use python_oauth2_server.Prelude.{
  ltb, ltb→lt, Bool-cases, truthy, elem, eq_iff, ℕ, String, refl, sym, ap, inl, inr, true, false,
  not, Option, none, some, List, [], ok, map_err, guard_ok, require_ok, bind_ok, map_err_ok,
  truthy-some, negated, ok_unique, if◌then◌else◌, ◌==◌, ◌+◌, ◌*◌, ◌<◌, ◌≡◌, ◌∙◌, ◌∷◌,
}
use python_oauth2_server.Clock.{second}
use python_oauth2_server.Json.{
  Fields, Value, null, bool, num, str, arr, obj, nil, cons, get_field, as_str, as_obj, texts,
}
use python_oauth2_server.Models.{Client, Token, is_public, grant_type_list}
use python_oauth2_server.Storage.{Storage, get_token_by_refresh_token}
use python_oauth2_server.Services.Dpop.{DpopValidated}
use python_oauth2_server.Services.Resource.{validate_resource}
use python_oauth2_server.Services.Scope.{scope_is_subset}
use python_oauth2_server.Services.Tokens.{Config, Fresh, jkt_of, audience_of}
use python_oauth2_server.Routes.Token.{raised, Library, Form, requested_scope}
use python_oauth2_server.Routes.Token.Issued.{
  AskedScope, scope_asked, KeyProved, proves-KeyProved, meant, meant_lem, scope_checked,
}
use python_oauth2_server.Routes.Token.Refresh.{
  audience, family_of, salvage_old_cnf, salvage_old_aud, find_token, carried_audience, key_proved,
  Rotation, check_refresh,
}

-- The audience that an `aud` claim grants, if it tells one.
abbrev pub granted_before : Option Value → Option (List String)
granted_before none = none
granted_before (some (str a)) = some (a ∷ [])
granted_before (some (arr nil)) = none
granted_before (some (arr (cons x xs))) = texts (cons x xs)
granted_before (some _) = none

-- What the new token is for, where the old one was for `before`: no more than that where it is
-- known, and all of it unless the request names a part.
abbrev pub NotWidened : Option (List String) → Option String → String → List String → Type 0
NotWidened none resource client_id aud = aud ≡ meant resource client_id ∷ []
NotWidened (some []) none client_id aud = aud ≡ client_id ∷ []
NotWidened (some (a ∷ more)) none client_id aud = aud ≡ a ∷ more
NotWidened (some old) (some resource) client_id aud =
    (elem resource old ≡ true) × (aud ≡ meant (some resource) client_id ∷ [])

-- The key of a `cnf` claim, if it has one.
abbrev pub key_of : Option Fields → Option String
key_of none = none
key_of (some cnf) = truthy (as_str (get_field "jkt" cnf))

-- A public client proves the key; `method` is how the client is registered to authenticate.
abbrev pub PublicProves : String → Option String → Option DpopValidated → Type 0
PublicProves method jkt proof = if method == "none" then KeyProved jkt proof else Unit {0}

-- The new token keeps a family; a token without one gets the one that is drawn.
abbrev pub KeepsFamily : Option String → String → Option String → Type 0
KeepsFamily none drawn new = new ≡ some drawn
KeepsFamily (some family) drawn new = new ≡ some family

-- What the checks found of the old token and the request.
pub record Rotates (lib : Library) (config : Config) (now : ℕ) (client : Client) (form : Form)
    (proof : Option DpopValidated) (storage : Storage) (rotation : Rotation) : Type 0 where
  pub presented :
      (value : String) × (form "refresh_token" ≡ some value)
      × (get_token_by_refresh_token storage value ≡ some rotation.old_token)
  pub own : rotation.old_token.client_id ≡ client.client_id
  pub live : rotation.old_token.revoked ≡ false
  pub fresh : now < rotation.old_token.created_at + config.refresh_token_ttl_secs * second
  pub scope_wanted : AskedScope (truthy (form "scope")) rotation.old_token.scope rotation.scope
  pub scope_narrows : scope_is_subset rotation.scope rotation.old_token.scope ≡ true
  pub resource_read : validate_resource lib.urlsplit (form "resource") ≡ ok rotation.resource
  pub audience_narrows :
      NotWidened
        (granted_before
          (get_field "aud" (lib.decode_unverified_claims rotation.old_token.access_token)))
        rotation.resource
        client.client_id
        (audience_of rotation.audience rotation.resource client.client_id)
  pub same_cnf :
      rotation.cnf
      ≡ as_obj (get_field "cnf" (lib.decode_unverified_claims rotation.old_token.access_token))
  pub same_key : PublicProves client.token_endpoint_auth_method (key_of rotation.cnf) proof

found_token :
    (storage : Storage) (o : Option String) (t : Token)
    → find_token storage o ≡ some t
    → (value : String) × (o ≡ some value) × (get_token_by_refresh_token storage value ≡ some t)
found_token storage none t h = cc
found_token storage (some value) t h = (value, refl, h)

audience_checked :
    (old : Option (List String)) (resource : Option String) (client_id : String)
    (audience : Option (List String))
    → carried_audience old resource ≡ ok audience
    → NotWidened old resource client_id (audience_of audience resource client_id)
unfolding carried_audience audience_of
audience_checked none resource client_id audience h =
    let same : none ≡ audience = ok_unique _ _ _ refl h in
    rw (sym same) (meant_lem resource client_id)
audience_checked (some []) none client_id audience h =
    let same : some [] ≡ audience = ok_unique _ _ _ refl h in rw (sym same) refl
audience_checked (some (a ∷ more)) none client_id audience h =
    let same : some (a ∷ more) ≡ audience = ok_unique _ _ _ refl h in rw (sym same) refl
audience_checked (some []) (some resource) client_id audience h =
    let (member, rest) = guard_ok (elem resource []) _ _ _ h in
    let same : none ≡ audience = ok_unique _ _ _ refl rest in
    (member, rw (sym same) (meant_lem (some resource) client_id))
audience_checked (some (a ∷ more)) (some resource) client_id audience h =
    let (member, rest) = guard_ok (elem resource (a ∷ more)) _ _ _ h in
    let same : none ≡ audience = ok_unique _ _ _ refl rest in
    (member, rw (sym same) (meant_lem (some resource) client_id))

granted_before_lem : (v : Option Value) → audience v ≡ granted_before v
granted_before_lem none = refl
granted_before_lem (some (str a)) = refl
granted_before_lem (some (arr nil)) = refl
granted_before_lem (some (arr (cons x xs))) = refl
granted_before_lem (some null) = refl
granted_before_lem (some (bool b)) = refl
granted_before_lem (some (num n)) = refl
granted_before_lem (some (obj fs)) = refl

claim_checked :
    (claim : Option Value) (resource : Option String) (client_id : String)
    (carried : Option (List String))
    → carried_audience (audience claim) resource ≡ ok carried
    → NotWidened (granted_before claim) resource client_id (audience_of carried resource client_id)
claim_checked claim resource client_id carried h =
    audience_checked (granted_before claim) resource client_id carried
      (ap (λ o. carried_audience o resource) (sym (granted_before_lem claim)) ∙ h)

key_checked :
    (client : Client) (cnf : Option Fields) (proof : Option DpopValidated)
    → key_proved client (jkt_of cnf) proof ≡ true
    → PublicProves client.token_endpoint_auth_method (key_of cnf) proof
unfolding is_public
key_checked client cnf proof h = elim (Bool-cases (client.token_endpoint_auth_method == "none")) [
  | inl e ↦ rw e (public cnf h e)
  | inr e ↦ rw e tt
]
  where
    demanded :
        (jkt : Option String)
        → key_proved client jkt proof ≡ true
        → (client.token_endpoint_auth_method == "none") ≡ true
        → KeyProved jkt proof
    demanded none h e = tt
    demanded (some jkt) h e = proves-KeyProved jkt proof (rw e at h)

    public :
        (cnf : Option Fields)
        → key_proved client (jkt_of cnf) proof ≡ true
        → (client.token_endpoint_auth_method == "none") ≡ true
        → KeyProved (key_of cnf) proof
    public none h e = tt
    public (some fs) h e = demanded (truthy (as_str (get_field "jkt" fs))) h e

pub family_kept :
    (fresh : Fresh) (t : Token)
    → KeepsFamily (truthy t.token_family) fresh.family (some (family_of fresh t))
family_kept fresh t = kept (truthy t.token_family)
  where
    kept :
        (o : Option String)
        → KeepsFamily o fresh.family (some (elim o [ none ↦ fresh.family | some f ↦ f ]))
    kept none = refl
    kept (some f) = refl

pub check_refresh-Rotates :
    (lib : Library) (config : Config) (now : ℕ) (client : Client) (form : Form)
    (proof : Option DpopValidated) (storage : Storage) (rotation : Rotation)
    → check_refresh lib config now client form proof storage ≡ ok rotation
    → Rotates lib config now client form proof storage rotation
unfolding check_refresh salvage_old_cnf salvage_old_aud
check_refresh-Rotates lib config now client form proof storage rotation h =
    let (registered, h1) =
      guard_ok (elem "refresh_token" (grant_type_list lib.loads_texts client)) _ _ _ h in
    let (t, found, h2) = require_ok (find_token storage (truthy (form "refresh_token"))) _ _ _ h1 in
    let (own, h3) = guard_ok (t.client_id == client.client_id) _ _ _ h2 in
    let (live, h4) = guard_ok (not t.revoked) _ _ _ h3 in
    let (fresh, h5) =
      guard_ok (ltb now (t.created_at + config.refresh_token_ttl_secs * second)) _ _ _ h4 in
    let (scope, scoped, h6) = bind_ok (requested_scope (truthy (form "scope")) t.scope _) _ _ h5 in
    let (resource, valid, h7) =
      bind_ok (map_err raised (validate_resource lib.urlsplit (form "resource"))) _ _ h6 in
    let (audience, carried, h8) =
      bind_ok
        (carried_audience (salvage_old_aud lib.decode_unverified_claims t.access_token) resource) _
        _ h7 in
    let cnf = salvage_old_cnf lib.decode_unverified_claims t.access_token in
    let (keyed, h9) = guard_ok (key_proved client (jkt_of cnf) proof) _ _ _ h8 in
    let r0 : Rotation = record {
      old_token = t;
      scope = scope;
      resource = resource;
      audience = audience;
      cnf = cnf;
    } in
    let same : r0 ≡ rotation = cc in
    let (value, given, stored) = found_token storage _ t found in
    rw (sym same) (record {
      presented = (value, truthy-some _ _ given, stored);
      own = (eq_iff _ _).0 own;
      live = negated _ live;
      fresh = ltb→lt _ _ fresh;
      scope_wanted = scope_asked _ t.scope _ scope scoped;
      scope_narrows = scope_checked _ t.scope _ scope scoped;
      resource_read = map_err_ok _ _ _ valid;
      audience_narrows =
          claim_checked (get_field "aud" (lib.decode_unverified_claims t.access_token)) resource
            client.client_id audience carried;
      same_cnf = refl;
      same_key = key_checked client cnf proof keyed;
    })
