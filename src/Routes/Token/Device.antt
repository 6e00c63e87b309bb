-- ===== src/Routes/Token/Device.antt =====
-- routes/token.py: the device_code grant.
pub mod Laws
use python_oauth2_server.Prelude.{
  ltb, eqb, filter_option, truthy, elem, ℕ, String, Bool, true, not, Option, none, some, Result,
  guard, map_err, require, if◌then◌else◌, ◌==◌, ◌>>=◌, ◌>>◌,
}
use python_oauth2_server.Errors.{bad_request, oauth_error}
use python_oauth2_server.Models.{Client, DeviceAuthorization, grant_type_list}
use python_oauth2_server.Storage.{
  Storage, get_device_authorization_by_device_code, mark_device_authorization_used,
}
use python_oauth2_server.Services.DevicePoll
use python_oauth2_server.Services.Dpop.{DpopValidated}
use python_oauth2_server.Services.Resource.{validate_resource}
use python_oauth2_server.Services.Tokens.{Config, Fresh, Grant}
use python_oauth2_server.Routes.Token.{
  raised, Library, AppState, Form, Response, slow_down, Refusal, plain, refusal, unauthorized,
  refuse, after_checks, issue_token, respond,
}

abbrev pub device_code_grant : String
device_code_grant = "urn:ietf:params:oauth:grant-type:device_code"

abbrev owned : Client → DeviceAuthorization → Bool
owned client device = device.client_id == client.client_id

-- The device authorization that the request names.
unfoldable pub find_device : Library → Client → Form → Storage → Result Refusal DeviceAuthorization
find_device lib client form storage = do
  guard (elem device_code_grant (grant_type_list lib.loads_texts client)) unauthorized
  device_code ←
      require (truthy (form "device_code")) (refusal "invalid_request" "device_code is required")
  require
      (filter_option (owned client) (get_device_authorization_by_device_code storage device_code))
      (refusal "invalid_grant" "device_code not found for this client")

-- The checks of its state, and the resource.
unfoldable pub check_device :
    Library → ℕ → Form → DeviceAuthorization → Result Refusal (Option String)
check_device lib now form device = do
  guard (ltb now device.expires_at) (refusal "expired_token" "device_code has expired")
  guard (not device.denied) (refusal "access_denied" "user denied the device authorization request")
  guard (not device.used) (refusal "invalid_grant" "device_code has already been redeemed")
  guard device.approved (refusal "authorization_pending" "authorization request is still pending")
  map_err raised (validate_resource lib.urlsplit (form "resource"))

unfoldable pub grant_of : Fresh → DeviceAuthorization → Option String → Grant
grant_of fresh device resource = record {
  user_id = device.user_id;
  scope = device.scope;
  with_refresh = true;
  token_family = some fresh.family;
  cnf = none;
  authorization_details = none;
  act = none;
  resource = resource;
  audience = none;
}

-- From the UPDATE that claims the device code on.
unfoldable pub claim_device :
    Library
    → Config
    → Fresh
    → ℕ
    → Client
    → Option DpopValidated
    → DeviceAuthorization
    → Option String
    → AppState
    → AppState × Response
unfolding mark_device_authorization_used issue_token respond grant_of
claim_device lib config fresh now client proof device resource st =
    let (storage, claimed) = mark_device_authorization_used st.storage device.device_code in
    let after = record st { storage = storage } in
    if eqb claimed 0
    then refuse after (refusal "invalid_grant" "device_code has already been redeemed")
    else (let forgotten = record after {
      device_poll = DevicePoll.forget after.device_poll device.device_code;
    } in
        let (done, r) =
          issue_token lib config fresh now client (grant_of fresh device resource) forgotten in
        (done, respond lib client proof (truthy device.user_id) none r))

-- A poll that came too early is told to slow down.
unfoldable pub throttle : Option ℕ → AppState → AppState × Response → AppState × Response
throttle (some interval) st rest = (st, slow_down interval)
throttle none st rest = rest

-- The poll of a device authorization that is there; `monotonic` is the clock of the tracker.
unfoldable pub poll_device :
    Library
    → Config
    → Fresh
    → ℕ
    → ℕ
    → Client
    → Form
    → Option DpopValidated
    → DeviceAuthorization
    → AppState
    → AppState × Response
unfolding check_device claim_device after_checks throttle
poll_device lib config fresh monotonic now client form proof device st =
    let (tracker, interval) =
      DevicePoll.observe st.device_poll monotonic device.device_code device.interval_seconds in
    let observed = record st { device_poll = tracker } in
    throttle interval observed (
      after_checks (check_device lib now form device) observed
        (λ resource. claim_device lib config fresh now client proof device resource observed))

unfoldable pub redeem_device :
    Library
    → Config
    → Fresh
    → ℕ
    → ℕ
    → Client
    → Form
    → Option DpopValidated
    → AppState
    → AppState × Response
unfolding find_device poll_device after_checks
redeem_device lib config fresh monotonic now client form proof st =
    after_checks (find_device lib client form st.storage) st
      (λ device. poll_device lib config fresh monotonic now client form proof device st)
