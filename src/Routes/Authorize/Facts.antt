-- ===== src/Routes/Authorize/Facts.antt =====
-- routes/authorize.py: what each group of checks finds.
use Prim.Native.String.{count}
use python_oauth2_server.Prelude.{
  ltb, leb, is_some, leb→le, length, truthy, elem, same_text, ℕ, String, refl, sym, ap, Bool, true,
  false, not, Option, none, some, arith, ok, map_err, guard_ok, require_ok, bind_ok, map_err_ok,
  truthy-some, both, negated, require-some, same_text-some, ok_unique, ◌==◌, ◌+◌, ◌*◌, ◌≤◌, ◌<◌,
  ◌≡◌, ◌∙◌, ◌&&◌, ◌||◌,
}
use python_oauth2_server.Models.{Client, redirect_uri_list, grant_type_list}
use python_oauth2_server.Storage.{Storage}
use python_oauth2_server.Storage.Clients.{get_client}
use python_oauth2_server.Storage.Denylist.{check_subject_denylisted}
use python_oauth2_server.Services.Clients.RedirectUri.{any_matches}
use python_oauth2_server.Services.AuthorizeResponse.{resolve_response_mode}
use python_oauth2_server.Clock.{second}
use python_oauth2_server.Services.Scope.{split, scope_is_subset}
use python_oauth2_server.Services.Resource.{validate_resource}
use python_oauth2_server.Services.Auth.{CodeRequest}
use python_oauth2_server.Routes.Authorize.{
  Library, Config, Session, Params, Target, page, login, paged, sent_as,
}
use python_oauth2_server.Routes.Authorize.Request.{
  check_client, check_target, is_hybrid, is_supported, response_type_of, first_of,
}
use python_oauth2_server.Routes.Authorize.Checks.{
  check_challenge, check_details, check_claims, default_scope, jkt_fits, check_grant, must_login,
  acr_satisfied, check_login, words_of, older,
}

-- The client of the query.
pub record Admitted (now : ℕ) (params : Params) (storage : Storage) (client : Client) : Type 0 where
  pub client_id : String
  pub named : params "client_id" ≡ some client_id
  pub stored : get_client storage client_id ≡ some client
  pub enabled : client.enabled ≡ true
  pub not_denied : is_some (check_subject_denylisted storage now "client_id" client_id) ≡ false

pub check_client-Admitted :
    (now : ℕ) (params : Params) (storage : Storage) (client : Client)
    → check_client now params storage ≡ ok client
    → Admitted now params storage client
unfolding check_client
check_client-Admitted now params storage client h =
    let (client_id, named, h1) = require_ok (params "client_id") _ _ _ h in
    let (filled, h2) = guard_ok (not (client_id == "")) _ _ _ h1 in
    let (c, stored, h3) = require_ok (get_client storage client_id) _ _ _ h2 in
    let (enabled, h4) = guard_ok c.enabled _ _ _ h3 in
    let (not_denied, h5) =
      guard_ok (not (is_some (check_subject_denylisted storage now "client_id" client_id))) _ _ _
        h4 in
    let (has_state, h6) = guard_ok (not c.require_state || is_some (params "state")) _ _ _ h5 in
    let same = ok_unique _ c client refl h6 in
    record {
      client_id = client_id;
      named = named;
      stored = stored ∙ ap some same;
      enabled = rw (sym same) enabled;
      not_denied = negated _ not_denied;
    }

-- The target is registered with the client.
pub check_target-registered :
    (lib : Library) (client : Client) (params merged : Params) (mode : Option String)
    (target : Target)
    → check_target lib client params merged mode ≡ ok target
    → (merged "redirect_uri" ≡ some target.redirect_uri)
      × (any_matches lib.urlparse (redirect_uri_list lib.loads_texts client) target.redirect_uri
          ≡ ok true)
unfolding check_target
check_target-registered lib client params merged mode target h =
    let (uri, given, h1) = require_ok (truthy (merged "redirect_uri")) _ _ _ h in
    let (m, matched, h2) =
      bind_ok
        (map_err paged (any_matches lib.urlparse (redirect_uri_list lib.loads_texts client) uri)) _
        _ h1 in
    let (registered, h3) = guard_ok m _ _ _ h2 in
    let (m2, resolved, h4) =
      bind_ok
        (map_err page (
          resolve_response_mode (first_of (truthy mode) (params "response_mode"))
            (is_hybrid (response_type_of params merged))))
        _ _ h3 in
    let same : uri ≡ target.redirect_uri = ap (λ t. t.redirect_uri) (ok_unique _ _ _ refl h4) in
    (
      truthy-some _ _ (given ∙ ap some same),
      rw (sym same) (map_err_ok _ _ _ matched ∙ ap ok registered),
    )

-- What is asked for.
pub record Allowed (lib : Library) (client : Client) (params merged : Params) (target : Target)
    (r : CodeRequest) : Type 0 where
  pub challenge : String
  pub registered : elem "authorization_code" (grant_type_list lib.loads_texts client) ≡ true
  pub scope : r.scope ≡ default_scope (truthy (merged "scope"))
  pub scope_narrows : scope_is_subset r.scope client.scope ≡ true
  pub nonce : (not (is_hybrid (response_type_of params merged)) || is_some (truthy r.nonce)) ≡ true
  pub challenged : r.code_challenge ≡ some challenge
  pub given : merged "code_challenge" ≡ some challenge
  pub hashed : r.code_challenge_method ≡ some "S256"
  pub long_enough : 43 ≤ count challenge
  pub short_enough : count challenge ≤ 128
  pub same_redirect : r.redirect_uri ≡ target.redirect_uri
  pub same_method : r.code_challenge_method ≡ merged "code_challenge_method"
  pub same_nonce : r.nonce ≡ merged "nonce"
  pub same_details : r.authorization_details ≡ merged "authorization_details"
  pub resource_read : validate_resource lib.urlsplit (merged "resource") ≡ ok r.resource
  pub same_claims : r.claims_request ≡ merged "claims"
  pub same_key : r.dpop_jkt ≡ merged "dpop_jkt"
  pub key_fits : jkt_fits r.dpop_jkt ≡ true

check_challenge_ok :
    (target : Target) (merged : Params) (challenge : String)
    → check_challenge target merged ≡ ok challenge
    → (merged "code_challenge" ≡ some challenge)
      × (merged "code_challenge_method" ≡ some "S256")
      × (43 ≤ count challenge)
      × (count challenge ≤ 128)
unfolding check_challenge
check_challenge_ok target merged challenge h =
    let (c, given, h1) = require_ok (truthy (merged "code_challenge")) _ _ _ h in
    let (hashed, h2) =
      guard_ok (same_text (merged "code_challenge_method") (some "S256")) _ _ _ h1 in
    let (fits, h3) = guard_ok (leb 43 (count c) && leb (count c) 128) _ _ _ h2 in
    let (long, short) = both _ _ fits in
    let same = ok_unique _ c challenge refl h3 in
    (
      truthy-some _ _ (given ∙ ap some same),
      same_text-some _ _ hashed,
      rw (sym same) (leb→le _ _ long),
      rw (sym same) (leb→le _ _ short),
    )

pub check_grant-Allowed :
    (lib : Library) (config : Config) (client : Client) (params merged : Params) (target : Target)
    (r : CodeRequest)
    → check_grant lib config client params merged target ≡ ok r
    → Allowed lib client params merged target r
unfolding check_grant
check_grant-Allowed lib config client params merged target r h =
    let (registered, h1) =
      guard_ok (elem "authorization_code" (grant_type_list lib.loads_texts client)) _ _ _ h in
    let (supported, h2) =
      guard_ok (is_some (params "request") || is_supported (response_type_of params merged)) _ _ _
        h1 in
    let (nonce, h3) =
      guard_ok
        (not (is_hybrid (response_type_of params merged)) || is_some (truthy (merged "nonce"))) _ _
        _ h2 in
    let (narrow, h4) =
      guard_ok (scope_is_subset (default_scope (truthy (merged "scope"))) client.scope) _ _ _ h3 in
    let (challenge, challenged, h5) = bind_ok (check_challenge target merged) _ _ h4 in
    let (u, details, h6) =
      bind_ok (check_details lib config target (merged "authorization_details")) _ _ h5 in
    let (resource, valid, h7) =
      bind_ok (map_err (sent_as target) (validate_resource lib.urlsplit (merged "resource"))) _ _
        h6 in
    let (v, claims, h8) = bind_ok (check_claims lib target (merged "claims")) _ _ h7 in
    let (key, h9) = guard_ok (jkt_fits (merged "dpop_jkt")) _ _ _ h8 in
    let same = ok_unique _ _ r refl h9 in
    let (given, hashed, long, short) = check_challenge_ok target merged challenge challenged in
    rw (sym same) (record {
      challenge = challenge;
      registered = registered;
      scope = refl;
      scope_narrows = narrow;
      nonce = nonce;
      challenged = refl;
      given = given;
      hashed = hashed;
      long_enough = long;
      short_enough = short;
      same_redirect = refl;
      same_method = refl;
      same_nonce = refl;
      same_details = refl;
      resource_read = map_err_ok _ _ _ valid;
      same_claims = refl;
      same_key = refl;
      key_fits = key;
    })

-- The prompts that are named do not ask for a new login.
abbrev pub NotPrompted : Option String → Type 0
NotPrompted none = Unit {0}
NotPrompted (some prompt) =
    (elem "login" (split prompt) ≡ false) × (elem "select_account" (split prompt) ≡ false)

-- The login is younger than the seconds that are allowed, if it is limited.
abbrev pub Younger : ℕ → Option ℕ → Option ℕ → Type 0
Younger now none auth_time = Unit {0}
Younger now (some secs) none = ⊥
Younger now (some secs) (some since) = now < since + secs * second

-- `max_age` limits the age of the login, if it is an integer.
abbrev pub Recent : Library → ℕ → Option String → Option ℕ → Type 0
Recent lib now none auth_time = Unit {0}
Recent lib now (some max_age) auth_time = Younger now (lib.int_of max_age) auth_time

-- The `acr` of the session is one of the values, if there are any.
abbrev pub Satisfies : Option String → Option String → Type 0
Satisfies none acr = Unit {0}
Satisfies (some values) acr = (own : String) × (acr ≡ some own) × (elem own (split values) ≡ true)

-- The user who is logged in.
pub record LoggedIn (lib : Library) (now : ℕ) (params merged : Params) (session : Session)
    (user_id : String) : Type 0 where
  pub user : session.user_id ≡ some user_id
  pub not_prompted : NotPrompted (params "prompt")
  pub recent : Recent lib now (params "max_age") session.auth_time
  pub strong : Satisfies (merged "acr_values") session.acr

young :
    (now : ℕ) (secs auth_time : Option ℕ)
    → older now secs auth_time ≡ false
    → Younger now secs auth_time
young now none auth_time h = tt
young now (some secs) none h = cc
young now (some secs) (some since) h = ground (arith, h)

login_age :
    (lib : Library) (now : ℕ) (max_age : Option String) (auth_time : Option ℕ)
    → older now (elim max_age [ none ↦ none | some s ↦ lib.int_of s ]) auth_time ≡ false
    → Recent lib now max_age auth_time
login_age lib now none auth_time h = tt
login_age lib now (some s) auth_time h = young now (lib.int_of s) auth_time h

not_asked :
    (prompt : Option String)
    → elem "login" (words_of prompt) ≡ false
    → elem "select_account" (words_of prompt) ≡ false
    → NotPrompted prompt
not_asked none h k = tt
not_asked (some s) h k = (h, k)

satisfied : (values acr : Option String) → acr_satisfied values acr ≡ true → Satisfies values acr
satisfied none acr h = tt
satisfied (some values) none h = cc
satisfied (some values) (some own) h = (own, refl, h)

none_holds : (a b c d : Bool) → (a || b || c || d) ≡ false → (b ≡ false) × (c ≡ false) × (d ≡ false)
none_holds true b c d h = cc
none_holds false true c d h = cc
none_holds false false true d h = cc
none_holds false false false d h = (refl, refl, h)

pub check_login-LoggedIn :
    (lib : Library) (now : ℕ) (params merged : Params) (target : Target) (session : Session)
    (user_id : String)
    → check_login lib now params merged target session ≡ ok user_id
    → LoggedIn lib now params merged session user_id
unfolding check_login
check_login-LoggedIn lib now params merged target session user_id h =
    let (alone, h1) =
      guard_ok
        (not
          (elem "none" (words_of (params "prompt")) && ltb 1 (length (words_of (params "prompt")))))
        _ _ _ h in
    let (quiet, h2) =
      guard_ok (not (elem "none" (words_of (params "prompt")) && must_login lib now params session))
        _ _ _ h1 in
    let (recent, h3) = guard_ok (not (must_login lib now params session)) _ _ _ h2 in
    let (strong, h4) = guard_ok (acr_satisfied (merged "acr_values") session.acr) _ _ _ h3 in
    let (no_login, no_choice, young_enough) = none_holds _ _ _ _ (negated _ recent) in
    record {
      user = require-some _ login user_id h4;
      not_prompted = not_asked (params "prompt") no_login no_choice;
      recent = login_age lib now (params "max_age") session.auth_time young_enough;
      strong = satisfied (merged "acr_values") session.acr strong;
    }
