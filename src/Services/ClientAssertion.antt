-- ===== src/Services/ClientAssertion.antt =====
-- services/client_assertion.py: the replay guard of client assertions.
pub mod Replay
pub mod Verify
pub mod Accepted
use Prim.Native.String.{◌++◌ as append}
use python_oauth2_server.Prelude.{leb, is_some, ℕ, min, max, String, if◌then◌else◌, ◌+◌, ◌*◌}
use python_oauth2_server.Clock.{second}
use python_oauth2_server.Dict
use python_oauth2_server.Dict.{Dict}
use python_oauth2_server.Services.Expiry

abbrev pub max_jti_ttl_secs : ℕ
max_jti_ttl_secs = 300

pub record JtiReplayGuard : Type 0 where
  pub entries : Dict ℕ
  pub max_entries : ℕ

-- True, False and the exception `JtiGuardFull`.
pub data Observed : Type 0 where
  fresh seen full : Observed

unfoldable pub init : ℕ → JtiReplayGuard
init max_entries = record { entries = Dict.empty; max_entries = max 1 max_entries }

unfoldable pub sweep_expired : JtiReplayGuard → ℕ → JtiReplayGuard
sweep_expired g now = record g { entries = Expiry.sweep now g.entries }

unfoldable pub key_of : String → String → String
key_of client_id jti = append client_id (append "\0" jti)

-- `ttl` is in nanoseconds; a negative one counts as 0.
unfoldable pub observe : JtiReplayGuard → ℕ → String → String → ℕ → JtiReplayGuard × Observed
observe g now client_id jti ttl =
    let swept = sweep_expired g now in
    let key = key_of client_id jti in
    if is_some (Dict.get swept.entries key)
    then (swept, seen)
    else if leb swept.max_entries (Dict.size swept.entries)
    then (swept, full)
    else (
      record swept {
        entries = Dict.put swept.entries key (now + min ttl (max_jti_ttl_secs * second));
      },
      fresh,
    )
