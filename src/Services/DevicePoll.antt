-- ===== src/Services/DevicePoll.antt =====
-- services/device_poll.py: the pace at which a device code may be polled (RFC 8628, slow_down).
pub mod Laws
use python_oauth2_server.Prelude.{ltb, leb, ℕ, String, Option, none, some, if◌then◌else◌, ◌+◌, ◌*◌}
use python_oauth2_server.Clock.{second}
use python_oauth2_server.Dict
use python_oauth2_server.Dict.{Dict}

abbrev pub entry_ttl_secs : ℕ
entry_ttl_secs = 24 * 60 * 60

abbrev pub slow_down_step_secs : ℕ
slow_down_step_secs = 5

pub record PollState : Type 0 where
  pub last_poll : ℕ
  pub interval : ℕ
  pub expiry : ℕ

pub record DevicePollTracker : Type 0 where
  pub entries : Dict PollState

unfoldable pub init : DevicePollTracker
init = record { entries = Dict.empty }

unfoldable pub sweep_expired : DevicePollTracker → ℕ → DevicePollTracker
sweep_expired t now = record { entries = Dict.sweep (λ s. leb s.expiry now) t.entries }

-- The state of a code after a poll, and the answer: `some n` is slow_down with the interval `n`.
unfoldable pub paced : ℕ → ℕ → Option PollState → PollState × Option ℕ
paced now base_interval none = (
  record { last_poll = now; interval = base_interval; expiry = now + entry_ttl_secs * second },
  none,
)
paced now base_interval (some s) =
    if ltb now (s.last_poll + s.interval * second)
    then (
      record {
        interval = s.interval + slow_down_step_secs;
        last_poll = now;
        expiry = now + entry_ttl_secs * second;
      },
      some (s.interval + slow_down_step_secs),
    )
    else (record s { last_poll = now; expiry = now + entry_ttl_secs * second }, none)

unfoldable pub observe : DevicePollTracker → ℕ → String → ℕ → DevicePollTracker × Option ℕ
observe t now device_code base_interval =
    let swept = sweep_expired t now in
    let (s, answer) = paced now base_interval (Dict.get swept.entries device_code) in
    (record { entries = Dict.put swept.entries device_code s }, answer)

unfoldable pub forget : DevicePollTracker → String → DevicePollTracker
forget t device_code = record { entries = Dict.remove t.entries device_code }
