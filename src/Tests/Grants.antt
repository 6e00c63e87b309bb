-- ===== src/Tests/Grants.antt =====
-- routes/token.py, storage/sql.py: the grants of one client.
use python_oauth2_server.Prelude.{
  String, refl, true, false, Option, none, some, [], arith, ◌≡◌, ◌∷◌,
}
use python_oauth2_server.Clock.{second}
use python_oauth2_server.Dict
use python_oauth2_server.Json.{Items, get_field}
use python_oauth2_server.Errors.{bad_request}
use python_oauth2_server.Models.{
  Token, AuthorizationCode, DeviceAuthorization, TokenResponse, is_public, grant_type_list,
}
use python_oauth2_server.Storage
use python_oauth2_server.Storage.{
  Storage, mark_authorization_code_used, mark_device_authorization_used, in_family, names,
  revoke_token, save_token, approve_device_authorization, get_authorization_code,
  get_token_by_refresh_token, select,
}
use python_oauth2_server.Storage.Codes.{
  start, next, token_saved, device_approved, code_claimed_once, device_claimed_once,
}
use python_oauth2_server.Storage.Families.{Revoked}
use python_oauth2_server.Services.Resource
use python_oauth2_server.Services.Resource.{SplitResult}
use python_oauth2_server.Services.Tokens
use python_oauth2_server.Services.Tokens.{Config, Fresh, Grant}
use python_oauth2_server.Routes.Token
use python_oauth2_server.Routes.Token.{
  Library, AppState, Form, Response, granted, exchanged, refused,
}
use python_oauth2_server.Routes.Token.Issued.{Issued}
use python_oauth2_server.Routes.Token.Code
use python_oauth2_server.Routes.Token.Code.{redeem_code}
use python_oauth2_server.Routes.Token.Code.Laws.{
  Matches, Redeemed, redeem_code_granted, code_replayed,
}
use python_oauth2_server.Routes.Token.Refresh.{Rotation, refresh}
use python_oauth2_server.Routes.Token.Refresh.Checks.{Rotates}
use python_oauth2_server.Routes.Token.Refresh.Laws.{Reissued, refresh_granted, refresh_reused}
use python_oauth2_server.Routes.Token.Device.{redeem_device}
use python_oauth2_server.Routes.Token.Device.Laws.{
  Names, Approved, redeem_device_granted, Redeemed as RedeemedDevice,
}
use python_oauth2_server.Routes.Token.Exchange.{Exchange, token_exchange}
use python_oauth2_server.Routes.Token.Exchange.Laws.{Delegates, Exchanged, exchange_granted}
use python_oauth2_server.Routes.Token.Credentials.{client_credentials}
use python_oauth2_server.Routes.Token.Credentials.Laws.{OwnGrant, client_credentials_granted}
use python_oauth2_server.Services.DevicePoll
use python_oauth2_server.Services.Scope
use python_oauth2_server.Services.Limits
use python_oauth2_server.Tests.Fixtures.{
  client, code, token, storage, lib, config, drawn, app, form,
}

abbrev response : TokenResponse
response = record {
  access_token = "j";
  refresh_token = some "r2";
  token_type = "Bearer";
  expires_in = 3600;
  scope = "read";
  id_token = none;
  authorization_details = none;
}

redeem_code_granted_example :
    (c : AuthorizationCode) × (details : Option Items) × Matches lib second client form storage c
    × Redeemed lib config drawn client none c details none app
        (redeem_code lib config drawn second client form none none app).0
        response
unfolding redeem_code grant_type_list get_authorization_code select Storage.rowcount Scope.split
    Code.grant_of Tokens.new_claims
redeem_code_granted_example =
    redeem_code_granted lib config drawn second client form none none app response false refl

abbrev used_code : AuthorizationCode
used_code = record code { used = true }

abbrev app_after : AppState
app_after = record app { storage = record storage { authorization_codes = used_code ∷ [] } }

code_replayed_example :
    ((redeem_code lib config drawn second client form none none app_after).1
      ≡ refused (bad_request "invalid_grant" "authorization code has already been used"))
    × Revoked
        (in_family "f")
        (redeem_code lib config drawn second client form none none app_after).0.storage.tokens
unfolding get_authorization_code select grant_type_list
code_replayed_example =
    code_replayed lib config drawn second client form none none app_after "c" "f" used_code refl
      refl refl refl (omega arith) refl refl

refresh_granted_example :
    (rotation : Rotation) × Rotates lib config second client form none storage rotation
    × Revoked
        (names rotation.old_token.access_token)
        (revoke_token storage rotation.old_token.access_token).tokens
    × Reissued lib config drawn client rotation
        (revoke_token storage rotation.old_token.access_token).tokens
        (refresh lib config drawn second client form none app).0.storage.tokens
        response
unfolding refresh grant_type_list get_token_by_refresh_token select Token.requested_scope
    Resource.validate_resource get_field Scope.split Tokens.new_claims
refresh_granted_example =
    refresh_granted lib config drawn second client form none app response false refl

abbrev revoked_token : Token
revoked_token = record token { revoked = true }

abbrev app_rotated : AppState
app_rotated = record app { storage = record storage { tokens = revoked_token ∷ [] } }

refresh_reused_example :
    ((refresh lib config drawn second client form none app_rotated).1
      ≡ refused (bad_request "invalid_grant" "refresh token has been revoked"))
    × Revoked
        (in_family "f")
        (refresh lib config drawn second client form none app_rotated).0.storage.tokens
unfolding get_token_by_refresh_token select grant_type_list
refresh_reused_example =
    refresh_reused lib config drawn second client form none app_rotated "r" "f" revoked_token refl
      refl refl refl refl refl

redeem_device_granted_example :
    (d : DeviceAuthorization) × (resource : Option String) × Names client form storage d
    × Approved second d
    × ((DevicePoll.observe app.device_poll second d.device_code d.interval_seconds).1 ≡ none)
    × RedeemedDevice client drawn d resource app
        (redeem_device lib config drawn second second client form none app).0
        response
unfolding redeem_device grant_type_list Storage.get_device_authorization_by_device_code select
    DevicePoll.observe DevicePoll.paced Dict.get DevicePoll.sweep_expired Dict.sweep Dict.empty
    Resource.validate_resource Storage.rowcount Scope.split Tokens.new_claims
redeem_device_granted_example =
    redeem_device_granted lib config drawn second second client form none app response false refl

abbrev access_only : TokenResponse
access_only = record response { refresh_token = none }

exchange_granted_example :
    (e : Exchange) × (is_public client ≡ false)
    × Delegates lib second client form storage e
    × Exchanged lib config drawn client e none storage.tokens
        (token_exchange lib config drawn second second client form none none app).0.storage.tokens
        access_only
unfolding token_exchange grant_type_list is_public Storage.get_token_by_access_token select
    Token.requested_scope Limits.check_depth Limits.nodes Limits.extend_values get_field
    Resource.validate_resource Tokens.new_claims
exchange_granted_example =
    exchange_granted lib config drawn second second client form none none app access_only none false
      refl

client_credentials_granted_example :
    (g : Grant) × (is_public client ≡ false)
    × OwnGrant client g
    × Issued storage.tokens
        (client_credentials lib config drawn second second client form none none
          app).0.storage.tokens
        client
        g
        access_only
unfolding client_credentials is_public grant_type_list Token.requested_scope
    Resource.validate_resource Tokens.new_claims
client_credentials_granted_example =
    client_credentials_granted lib config drawn second second client form none none app access_only
      false refl

code_claimed_once_example :
    (mark_authorization_code_used
      (save_token (mark_authorization_code_used storage "c").0 token)
      "c").1
    ≡ 0
code_claimed_once_example =
    code_claimed_once "c" "d" storage _
      (next _ _ _ (start _) (token_saved (mark_authorization_code_used storage "c").0 token))

device_claimed_once_example :
    (mark_device_authorization_used
      (approve_device_authorization (mark_device_authorization_used storage "d").0 "U" "u")
      "d").1
    ≡ 0
device_claimed_once_example =
    device_claimed_once "c" "d" storage _ (
      next _ _ _ (start _) (device_approved (mark_device_authorization_used storage "d").0 "U" "u"))
