-- ===== src/Tests/Access.antt =====
-- services/clients.py, routes/: one client at the endpoints.
use python_oauth2_server.Prelude.{
  ltb, String, refl, true, Option, none, some, [], arith, ok, err, if◌then◌else◌, ◌==◌, ◌+◌, ◌*◌,
  ◌≤◌, ◌≡◌, ◌≢◌, ◌∷◌,
}
use python_oauth2_server.Clock.{second}
use python_oauth2_server.Dict
use python_oauth2_server.Json.{Fields, str, end, field, arr, nil}
use python_oauth2_server.Json
use python_oauth2_server.Models
use python_oauth2_server.Models.{Client, Token}
use python_oauth2_server.Storage
use python_oauth2_server.Storage.{Storage, update}
use python_oauth2_server.Storage.Denylist.{of_subject, add_denylist_entry, check_subject_denylisted}
use python_oauth2_server.Storage.Denylist.Laws.{check-add}
use python_oauth2_server.Services.JwksCache
use python_oauth2_server.Services.JwksCache.{
  JwksCache, answer, http_error, fetch, min_ttl_secs, max_ttl_secs,
}
use python_oauth2_server.Services.JwksCache.Laws.{document, fetch_cached}
use python_oauth2_server.Services.DpopNonce.{issue, verify, stale}
use python_oauth2_server.Services.DpopNonce.Laws.{nonce_accepted, nonce_stale}
use python_oauth2_server.Services.Dpop.{DpopValidated}
use python_oauth2_server.Services.Dpop.Replay.{run}
use python_oauth2_server.Services.Dpop.Proof.{validate_dpop_proof}
use python_oauth2_server.Services.Dpop.Once.{proof_once}
use python_oauth2_server.Services.Clients.Authenticate.{authenticate}
use python_oauth2_server.Services.Clients.Methods.{Proved}
use python_oauth2_server.Services.Clients.Laws.{Identified, authenticate_ok}
use python_oauth2_server.Services.Auth.{new_code, issue_code}
use python_oauth2_server.Routes.Token.Code.{check_code}
use python_oauth2_server.Routes.Token.Code.RoundTrip.{code_round_trip}
use python_oauth2_server.Routes.Token.Endpoint.{token, call_of, service_of}
use python_oauth2_server.Routes.Introspect.{introspect, lookup_token}
use python_oauth2_server.Routes.Introspect.Laws.{Reported, introspect_active}
use python_oauth2_server.Routes.Revoke.{Revoked, revoke_for}
use python_oauth2_server.Routes.Revoke.Laws.{selected, revoke_exactly}
use python_oauth2_server.Tests.Fixtures.{
  client, token as row, storage, lib, config, app, verifier, form as full_form,
}
use python_oauth2_server.Tests.Endpoints.{
  libraries, clients, dpop, env, request, service, decoders, body, entry, issuer, form, drawn_code,
  asked,
}

check-add_example :
    check_subject_denylisted (add_denylist_entry storage entry) 5 "client_id" "app" ≡ (
      if of_subject "client_id" "app" entry
      then if "app" == "" then none else if Models.is_active entry 5 then some "abuse" else none
      else check_subject_denylisted storage 5 "client_id" "app")
check-add_example = check-add storage entry 5 "client_id" "app"

abbrev keys : Fields
keys = field "keys" (arr nil) end

abbrev no_documents : JwksCache
no_documents = record { entries = Dict.empty }

fetch_cached_example :
    ((fetch (λ t. Json.loaded (Json.obj keys)) no_documents 0 (answer true none "") second "u").1
      ≡ ok keys)
    × (min_ttl_secs ≤ 300)
    × (300 ≤ max_ttl_secs)
    × ((fetch
          (λ t. Json.loaded (Json.obj keys))
          (fetch
            (λ t. Json.loaded (Json.obj keys))
            no_documents
            0
            (answer true none "")
            second
            "u").0
          (9 * second)
          http_error
          (9 * second)
          "u").1
        ≡ (if ltb (9 * second) (second + 300 * second)
            then ok keys
            else document (λ t. Json.loaded (Json.obj keys)) http_error))
unfolding JwksCache.live Dict.get Dict.empty JwksCache.fetch_from_url
    JwksCache.parse_cache_control_max_age Json.get_field
fetch_cached_example =
    fetch_cached (λ t. Json.loaded (Json.obj keys)) no_documents 0 (answer true none "") second "u"
      keys 300 (9 * second) http_error (9 * second) refl refl

nonce_accepted_example : verify issuer (150 * second) (issue issuer (130 * second)) ≡ ok tt
unfolding python_oauth2_server.Services.DpopNonce.current_bucket
nonce_accepted_example =
    nonce_accepted issuer (130 * second) (150 * second) (omega arith) refl (omega arith)
      (omega arith)

nonce_stale_example :
    verify issuer (300 * second) (issue issuer (130 * second))
    ≡ err (stale "DPoP nonce is expired or not yet valid")
unfolding python_oauth2_server.Services.DpopNonce.current_bucket
nonce_stale_example =
    nonce_stale issuer (130 * second) (300 * second) (omega arith) refl (omega arith)

abbrev proved_key : DpopValidated
proved_key = record { jkt = "k"; nonce = none; ath = none }

proof_once_example :
    (validate_dpop_proof dpop 20 20 "p" "post" "https://as/oauth/token" none (
      run
        (validate_dpop_proof dpop 10 10 "p" "post" "https://as/oauth/token" none app.dpop_replay).0
        ((15, "other") ∷ []))).1
    ≢ ok proved_key
unfolding validate_dpop_proof Json.get_field Dict.get
    python_oauth2_server.Services.Dpop.sweep_expired python_oauth2_server.Services.Expiry.sweep
    Dict.sweep Dict.empty
proof_once_example =
    proof_once dpop 10 20 10 20 "p" "post" "post" "https://as/oauth/token" "https://as/oauth/token"
      none none app.dpop_replay proved_key proved_key ((15, "other") ∷ []) refl (omega arith, tt)
      (omega arith)

authenticate_ok_example :
    (s : Option String) × Identified clients (10 * second) form none storage client s
    × Proved clients (call_of env) form none none client s service
unfolding authenticate python_oauth2_server.Storage.Clients.get_client Storage.select
    check_subject_denylisted python_oauth2_server.Storage.Denylist.find_denylist_entry
authenticate_ok_example =
    authenticate_ok clients (call_of env) form none (none, none) service client refl

introspect_active_example :
    (c : Client) × (s : Option String) × Identified clients (10 * second) form none storage c s
    × Proved clients (call_of env) form none none c s (service_of env app)
    × Reported libraries decoders env request c app body
unfolding introspect python_oauth2_server.Storage.Clients.get_client Storage.select
    check_subject_denylisted python_oauth2_server.Storage.Denylist.find_denylist_entry
introspect_active_example = introspect_active libraries decoders env request app body refl

abbrev revoked : Revoked
revoked = record { state = app; revoked_total = 0 }

revoke_exactly_example :
    (revoke_for client (some "a") revoked).state.storage.tokens
    ≡ update (selected client "a" (lookup_token storage "a")) Storage.revoke (row ∷ [])
revoke_exactly_example = revoke_exactly client "a" revoked

abbrev code_form : String → Option String
code_form name = if name == "code" then some "c2" else full_form name

code_round_trip_example :
    check_code lib config
      (30 * second)
      client
      code_form
      (issue_code drawn_code 600 (20 * second) client "u" asked storage).0
    ≡ ok (new_code drawn_code 600 (20 * second) client "u" asked, none)
unfolding Storage.get_authorization_code Storage.select Models.grant_type_list
    python_oauth2_server.Routes.Token.Code.check_details new_code
code_round_trip_example =
    code_round_trip drawn_code 600 (20 * second) client "u" asked storage lib config (30 * second)
      code_form verifier none refl refl refl (omega arith) refl refl refl (omega arith)
      (omega arith) refl
