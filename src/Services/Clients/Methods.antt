-- ===== src/Services/Clients/Methods.antt =====
-- services/clients.py: the credential that each registered method asks for.
use python_oauth2_server.Prelude.{
  Bool-cases, truthy, eq_iff, String, refl, sym, ap, inl, inr, Option, none, some, [], Result, ok,
  err, guard_ok, require_ok, bind_ok, truthy-some, guard_holds, else_of, ◌==◌, ◌≡◌, ◌∙◌, ◌&&◌, ◌∷◌,
}
use python_oauth2_server.Json.{Fields, Items, Value, arr, obj, get_field}
use python_oauth2_server.Errors.{Raised}
use python_oauth2_server.Models.{Client}
use python_oauth2_server.Services.JwksCache.{resolve_client_jwks}
use python_oauth2_server.Services.ClientAssertion.{JtiReplayGuard}
use python_oauth2_server.Services.ClientAssertion.Accepted.{Accepted, validate-Accepted}
use python_oauth2_server.Services.Clients.{
  Library, Call, ClientService, Method, by_none, by_jwt, by_tls, by_self_signed, by_secret,
  method_of,
}
use python_oauth2_server.Services.Clients.Assertion.{
  check_form, token_endpoint_url, validated, after_form, authenticate_jwt,
}
use python_oauth2_server.Services.Clients.Certificate.{
  authenticate_tls_client_auth, authenticate_self_signed_tls, self_signed_by, matched, no_match,
  registers, listed,
}
use python_oauth2_server.Services.Clients.Authenticate.{public_by, secret_by, prove}
use python_oauth2_server.Strings.{strip}
use python_oauth2_server.Services.Clients.Registered.{
  Registered, HasThumbprint, method_text, listed_keys,
}

-- The credential that the registered method of a client asks for.
pub data Proved (lib : Library) (call : Call) (form : String → Option String)
    (thumbprint subject_dn : Option String) (client : Client) (s : Option String)
    (st : ClientService) : Type 0 where
  no_secret :
      client.token_endpoint_auth_method ≡ "none"
      → s ≡ none
      → Proved lib call form thumbprint subject_dn client s st
  assertion :
      (issuer text : String) (jwks : Option Value) (g : JtiReplayGuard)
      → Registered by_jwt client.token_endpoint_auth_method
      → st.issuer ≡ some issuer
      → st.jti_guard ≡ some g
      → form "client_assertion" ≡ some text
      → ((resolve_client_jwks lib.json_loads client st.jwks_cache
            ("private_key_jwt" ∷ [])
            call.monotonic
            call.reply
            call.later).1
          ≡ ok jwks)
      → Accepted lib.jwt call.wall call.later client text (token_endpoint_url issuer) jwks g
      → Proved lib call form thumbprint subject_dn client s st
  any_certificate :
      (t : String)
      → client.token_endpoint_auth_method ≡ "tls_client_auth"
      → thumbprint ≡ some t
      → client.tls_client_certificate_subject_dn ≡ ""
      → Proved lib call form thumbprint subject_dn client s st
  certificate :
      (t : String)
      → client.token_endpoint_auth_method ≡ "tls_client_auth"
      → thumbprint ≡ some t
      → subject_dn ≡ some client.tls_client_certificate_subject_dn
      → Proved lib call form thumbprint subject_dn client s st
  registered_key :
      (t : String) (jwks : Fields) (keys : Items)
      → client.token_endpoint_auth_method ≡ "self_signed_tls_client_auth"
      → thumbprint ≡ some t
      → ((resolve_client_jwks lib.json_loads client st.jwks_cache
            ("self_signed_tls_client_auth" ∷ [])
            call.monotonic
            call.reply
            call.later).1
          ≡ ok (some (obj jwks)))
      → get_field "keys" jwks ≡ some (arr keys)
      → HasThumbprint t keys
      → Proved lib call form thumbprint subject_dn client s st
  secret :
      Registered by_secret client.token_endpoint_auth_method
      → s ≡ some client.client_secret
      → Proved lib call form thumbprint subject_dn client s st

not_ok : (e : Raised) (r : Result Raised (Unit {0})) → r ≡ err e → r ≡ ok tt → ⊥
not_ok e r failed passed = absurd (cc (sym failed ∙ passed))

public_proved :
    (client : Client) (s : Option String) (st : ClientService)
    → (public_by client s st).1 ≡ ok tt
    → s ≡ none
public_proved client none st h = refl
public_proved client (some x) st h = cc

secret_proved :
    (client : Client) (s : Option String) (st : ClientService)
    → (secret_by client s st).1 ≡ ok tt
    → s ≡ some client.client_secret
secret_proved client none st h = cc
secret_proved client (some x) st h =
    ap some ((eq_iff _ _).0 (guard_holds (x == client.client_secret) _ h))

module _ (lib : Library) (call : Call) (form : String → Option String)
    (thumbprint subject_dn : Option String) (client : Client) (s : Option String)
    (st : ClientService) where
  form_checked :
      (r : Result Raised (String × JtiReplayGuard × String))
      → (after_form lib call client st r).1 ≡ ok tt
      → (p : String × JtiReplayGuard × String) × (r ≡ ok p)
        × ((after_form lib call client st (ok p)).1 ≡ ok tt)
  form_checked (err e) h = cc
  form_checked (ok p) h = (p, refl, h)

  jwks_resolved :
      (checked : String × JtiReplayGuard × String) (inner : ClientService)
      (r : Result Raised (Option Value))
      → (validated lib call client checked inner r).1 ≡ ok tt
      → (jwks : Option Value) × (r ≡ ok jwks)
        × Accepted lib.jwt call.wall call.later client checked.2
            (token_endpoint_url checked.0)
            jwks
            checked.1
  jwks_resolved checked inner (err e) h = cc
  jwks_resolved (issuer, g, text) inner (ok jwks) h =
      (jwks, refl, validate-Accepted _ _ _ _ _ _ _ _ h)

  resolved_first :
      (issuer : String) (g : JtiReplayGuard) (text : String)
      → (after_form lib call client st (ok (issuer, g, text))).1 ≡ ok tt
      → (jwks : Option Value) × ((resolve_client_jwks lib.json_loads client st.jwks_cache
            ("private_key_jwt" ∷ [])
            call.monotonic
            call.reply
            call.later).1
          ≡ ok jwks)
        × Accepted lib.jwt call.wall call.later client text (token_endpoint_url issuer) jwks g
  resolved_first issuer g text h = jwks_resolved (issuer, g, text) _ _ h

  certificate-Proved :
      method_of client ≡ by_tls
      → authenticate_tls_client_auth client thumbprint subject_dn ≡ ok tt
      → Proved lib call form thumbprint subject_dn client s st
  unfolding authenticate_tls_client_auth
  certificate-Proved method h =
      let (t, found, h1) = require_ok thumbprint _ _ _ h in
      elim (Bool-cases (client.tls_client_certificate_subject_dn == "")) [
        | inl e ↦ any_certificate t (method_text client by_tls method) found ((eq_iff _ _).0 e)
        | inr e ↦
            let (dn, given, h2) = require_ok subject_dn _ _ _ (rw e at h1) in
            let same =
              (eq_iff _ _).0 (guard_holds (dn == client.tls_client_certificate_subject_dn) _ h2) in
            certificate t (method_text client by_tls method) found (given ∙ ap some same)
      ]

  self_signed-Proved :
      (t : Option String)
      → thumbprint ≡ t
      → method_of client ≡ by_self_signed
      → (self_signed_by lib call client t st).1 ≡ ok tt
      → Proved lib call form thumbprint subject_dn client s st
  self_signed-Proved none same method h = cc
  self_signed-Proved (some t) same method h =
      let r =
        resolve_client_jwks lib.json_loads client st.jwks_cache ("self_signed_tls_client_auth" ∷ [])
          call.monotonic call.reply call.later in
      let (keyed, chosen, m) =
        else_of (λ (x : ClientService × Result Raised (Unit {0})). x.1 ≡ ok tt)
          (strip client.jwks == "" && strip client.jwks_uri == "") (st, err no_match)
          (record st { jwks_cache = r.0 }, matched lib t r.1) h (not_ok no_match _ refl) in
      let (found, resolved, rest) = bind_ok r.1 _ _ m in
      let (keys, from, last) = bind_ok (listed lib.is_zero found) _ _ rest in
      let (jwks, document, held, has) =
        listed_keys lib.is_zero t found keys from (guard_holds (registers t keys) _ last) in
      registered_key t jwks keys (method_text client by_self_signed method) same
        (resolved ∙ ap ok document) held has

  assertion-Proved :
      method_of client ≡ by_jwt
      → (authenticate_jwt lib call client form st).1 ≡ ok tt
      → Proved lib call form thumbprint subject_dn client s st
  unfolding authenticate_jwt check_form
  assertion-Proved method h =
      let ((issuer, g, text), c, h0) = form_checked (check_form st form) h in
      let (i, has_issuer, h1) = require_ok st.issuer _ _ _ c in
      let (g0, has_guard, h2) = require_ok st.jti_guard _ _ _ h1 in
      let (ty, typed, h3) = require_ok (truthy (form "client_assertion_type")) _ _ _ h2 in
      let (bearer, h4) =
        guard_ok (ty == "urn:ietf:params:oauth:client-assertion-type:jwt-bearer") _ _ _ h3 in
      let (a, given, h5) = require_ok (truthy (form "client_assertion")) _ _ _ h4 in
      let same_issuer : i ≡ issuer = cc in
      let same_guard : g0 ≡ g = cc in
      let same_text : a ≡ text = cc in
      let (jwks, resolved, accepted) = resolved_first issuer g text h0 in
      assertion issuer text jwks g (method_text client by_jwt method)
        (has_issuer ∙ ap some same_issuer) (has_guard ∙ ap some same_guard)
        (truthy-some _ _ (given ∙ ap some same_text)) resolved accepted

  pub prove-Proved :
      (m : Method)
      → method_of client ≡ m
      → (prove lib call form thumbprint subject_dn client s st m).1 ≡ ok tt
      → Proved lib call form thumbprint subject_dn client s st
  unfolding authenticate_self_signed_tls
  prove-Proved by_none e h = no_secret (method_text client by_none e) (public_proved client s st h)
  prove-Proved by_jwt e h = assertion-Proved e h
  prove-Proved by_tls e h = certificate-Proved e h
  prove-Proved by_self_signed e h = self_signed-Proved thumbprint refl e h
  prove-Proved by_secret e h = secret (method_text client by_secret e) (secret_proved client s st h)
