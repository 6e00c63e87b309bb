-- ===== src/Routes/Token/Device/Laws.antt =====
-- routes/token.py: what a redeemed device code is checked for.
use python_oauth2_server.Prelude.{
  ltb, eqb, filter_option, ltb→lt, truthy, elem, eq_iff, ℕ, String, refl, Bool, true, false, not,
  Option, none, some, arith, ok, guard_ok, require_ok, truthy-some, negated, else_of, require-some,
  filter_option-some, ◌==◌, ◌<◌, ◌≡◌, ◌≢◌,
}
use python_oauth2_server.Models.{Client, DeviceAuthorization, TokenResponse, grant_type_list}
use python_oauth2_server.Storage.{
  Storage, get_device_authorization_by_device_code, mark_device_authorization_used, save_token,
}
use python_oauth2_server.Services.DevicePoll
use python_oauth2_server.Services.Dpop.{DpopValidated}
use python_oauth2_server.Services.Tokens.{Config, Fresh, issue}
use python_oauth2_server.Routes.Token.{
  Library, AppState, Form, Response, granted, refusal, refuse, after_checks, issue_token,
}
use python_oauth2_server.Routes.Token.Issued.{
  Issued, issue_token-Issued, respond-Issued, refuse_grants_nothing, Grants, after_checks_granted,
}
use python_oauth2_server.Routes.Token.Device.{
  device_code_grant, find_device, check_device, grant_of, claim_device, throttle, poll_device,
  redeem_device,
}

-- The state of the device authorization at instant `now`.
pub record Approved (now : ℕ) (device : DeviceAuthorization) : Type 0 where
  pub approved : device.approved ≡ true
  pub not_denied : device.denied ≡ false
  pub unused : device.used ≡ false
  pub fresh : now < device.expires_at

-- The device code of the request is one of this client.
pub record Names (client : Client) (form : Form) (storage : Storage) (device : DeviceAuthorization)
    : Type 0 where
  pub stored :
      (value : String) × (form "device_code" ≡ some value)
      × (get_device_authorization_by_device_code storage value ≡ some device)
  pub own : device.client_id ≡ client.client_id

find_device-Names :
    (lib : Library) (client : Client) (form : Form) (storage : Storage)
    (device : DeviceAuthorization)
    → find_device lib client form storage ≡ ok device
    → Names client form storage device
unfolding find_device
find_device-Names lib client form storage device h =
    let (registered, h1) =
      guard_ok (elem device_code_grant (grant_type_list lib.loads_texts client)) _ _ _ h in
    let (value, given, h2) = require_ok (truthy (form "device_code")) _ _ _ h1 in
    let found =
      require-some
        (filter_option (λ x. x.client_id == client.client_id)
          (get_device_authorization_by_device_code storage value))
        _ _ h2 in
    let (stored, own) = filter_option-some (λ x. x.client_id == client.client_id) _ device found in
    record { stored = (value, truthy-some _ _ given, stored); own = (eq_iff _ _).0 own }

check_device-Approved :
    (lib : Library) (now : ℕ) (form : Form) (device : DeviceAuthorization)
    (resource : Option String)
    → check_device lib now form device ≡ ok resource
    → Approved now device
unfolding check_device
check_device-Approved lib now form device resource h =
    let (fresh, h1) = guard_ok (ltb now device.expires_at) _ _ _ h in
    let (not_denied, h2) = guard_ok (not device.denied) _ _ _ h1 in
    let (unused, h3) = guard_ok (not device.used) _ _ _ h2 in
    let (approved, h4) = guard_ok device.approved _ _ _ h3 in
    record {
      approved = approved;
      not_denied = negated _ not_denied;
      unused = negated _ unused;
      fresh = ltb→lt _ _ fresh;
    }

-- The device code was claimed by this request, and one token was added, of the user that approved it
-- and with the scope of the device authorization.
pub record Redeemed (client : Client) (fresh : Fresh) (device : DeviceAuthorization)
    (resource : Option String) (st after : AppState) (r : TokenResponse) : Type 0 where
  pub claimed : (mark_device_authorization_used st.storage device.device_code).1 ≢ 0
  pub marked :
      after.storage.device_authorizations
      ≡ (mark_device_authorization_used st.storage device.device_code).0.device_authorizations
  pub issued :
      Issued st.storage.tokens after.storage.tokens client (grant_of fresh device resource) r

claim_granted :
    (lib : Library) (config : Config) (fresh : Fresh) (now : ℕ) (client : Client)
    (proof : Option DpopValidated) (device : DeviceAuthorization) (resource : Option String)
    (st : AppState) (r : TokenResponse) (n : Bool)
    → (claim_device lib config fresh now client proof device resource st).1 ≡ granted r n
    → Redeemed client fresh device resource st
        (claim_device lib config fresh now client proof device resource st).0
        r
unfolding claim_device
claim_granted lib config fresh now client proof device resource st r n h =
    let (storage, claimed) = mark_device_authorization_used st.storage device.device_code in
    let after = record st { storage = storage } in
    let forgotten : AppState = record after {
      device_poll = DevicePoll.forget after.device_poll device.device_code;
    } in
    let (changed, same, h1) =
      else_of (Grants r n) (eqb claimed 0)
        (refuse after (refusal "invalid_grant" "device_code has already been redeemed")) _ h
        (refuse_grants_nothing after _ r n) in
    rw same (record {
      claimed = (λ e. ground arith);
      marked = unfold issue_token issue save_token in refl;
      issued =
          respond-Issued lib client proof (truthy device.user_id) none _ r n _ _ _
            (issue_token-Issued lib config fresh now client (grant_of fresh device resource)
              forgotten)
            h1;
    })

throttle_granted :
    (interval : Option ℕ) (st : AppState) (rest : AppState × Response) (r : TokenResponse)
    (n : Bool)
    → Grants r n (throttle interval st rest)
    → (interval ≡ none) × (throttle interval st rest ≡ rest) × Grants r n rest
unfolding throttle
throttle_granted none st rest r n h = (refl, refl, h)
throttle_granted (some i) st rest r n h = cc

poll_granted :
    (lib : Library) (config : Config) (fresh : Fresh) (monotonic now : ℕ) (client : Client)
    (form : Form) (proof : Option DpopValidated) (device : DeviceAuthorization) (st : AppState)
    (r : TokenResponse) (n : Bool)
    → (poll_device lib config fresh monotonic now client form proof device st).1 ≡ granted r n
    → (resource : Option String) × Approved now device
      × ((DevicePoll.observe st.device_poll monotonic device.device_code device.interval_seconds).1
          ≡ none)
      × Redeemed client fresh device resource st
          (poll_device lib config fresh monotonic now client form proof device st).0
          r
unfolding poll_device throttle
poll_granted lib config fresh monotonic now client form proof device st r n h =
    let (tracker, interval) =
      DevicePoll.observe st.device_poll monotonic device.device_code device.interval_seconds in
    let observed = record st { device_poll = tracker } in
    let checks =
      after_checks (check_device lib now form device) observed
        (λ resource. claim_device lib config fresh now client proof device resource observed) in
    let (paced, unthrottled, h1) = throttle_granted interval observed checks r n h in
    let (resource, passed, same, claims) =
      after_checks_granted (check_device lib now form device) observed
        (λ resource. claim_device lib config fresh now client proof device resource observed) r n
        h1 in
    let done =
      claim_granted lib config fresh now client proof device resource observed r n claims in
    (
      resource,
      check_device-Approved lib now form device resource passed,
      paced,
      rw unthrottled
          (rw same (record { claimed = done.claimed; marked = done.marked; issued = done.issued })),
    )

-- A poll that is answered with tokens is by the client of the device code, which the user has
-- approved and not denied, before its expiry and not redeemed before; it was not throttled, and
-- the poll itself claimed the code and added one token, of the user that approved it.
pub redeem_device_granted :
    (lib : Library) (config : Config) (fresh : Fresh) (monotonic now : ℕ) (client : Client)
    (form : Form) (proof : Option DpopValidated) (st : AppState) (r : TokenResponse) (n : Bool)
    → (redeem_device lib config fresh monotonic now client form proof st).1 ≡ granted r n
    → (device : DeviceAuthorization) × (resource : Option String) × Names client form st.storage
        device
      × Approved now device
      × ((DevicePoll.observe st.device_poll monotonic device.device_code device.interval_seconds).1
          ≡ none)
      × Redeemed client fresh device resource st
          (redeem_device lib config fresh monotonic now client form proof st).0
          r
unfolding redeem_device
redeem_device_granted lib config fresh monotonic now client form proof st r n h =
    let (device, found, same, polls) =
      after_checks_granted (find_device lib client form st.storage) st
        (λ device. poll_device lib config fresh monotonic now client form proof device st) r n h in
    let (resource, approved, paced, redeemed) =
      poll_granted lib config fresh monotonic now client form proof device st r n polls in
    (
      device,
      resource,
      find_device-Names lib client form st.storage device found,
      approved,
      paced,
      rw same redeemed,
    )
