-- ===== src/Services/RateLimit.antt =====
-- services/ratelimit.py: the fixed-window limiter of login attempts.
pub mod Laws
use python_oauth2_server.Prelude.{
  leb, ℕ, max, String, Bool, Option, none, some, if◌then◌else◌, ◌+◌, ◌-◌, ◌*◌,
}
use python_oauth2_server.Clock.{second, ceil_div}
use python_oauth2_server.Dict
use python_oauth2_server.Dict.{Dict}

pub record Window : Type 0 where
  pub start : ℕ
  pub count : ℕ

pub record FixedWindowLimiter : Type 0 where
  pub max_attempts : ℕ
  pub window_secs : ℕ
  pub windows : Dict Window

unfoldable pub init : ℕ → ℕ → FixedWindowLimiter
init max_attempts window_secs = record {
  max_attempts = max_attempts;
  window_secs = window_secs;
  windows = Dict.empty;
}

-- `now - window.start >= self.window_secs`
unfoldable pub expired : FixedWindowLimiter → ℕ → Window → Bool
expired l now w = leb (w.start + l.window_secs * second) now

unfoldable pub sweep_expired : FixedWindowLimiter → ℕ → FixedWindowLimiter
unfolding expired
sweep_expired l now = record l { windows = Dict.sweep (expired l now) l.windows }

-- The window that the attempt falls in: the live one of the key, or a new one.
unfoldable pub current : FixedWindowLimiter → ℕ → Option Window → Window
unfolding expired
current l now none = record { start = now; count = 0 }
current l now (some w) = if expired l now w then record { start = now; count = 0 } else w

unfoldable pub gate : FixedWindowLimiter → ℕ → String → Window → FixedWindowLimiter × Option ℕ
gate l now key w =
    if leb l.max_attempts w.count
    then (
      record l { windows = Dict.put l.windows key w },
      some (max 1 (ceil_div (l.window_secs * second - (now - w.start)) second)),
    )
    else (record l { windows = Dict.put l.windows key (record w { count = w.count + 1 }) }, none)

-- `check`: `none` lets the attempt pass, `some n` asks to wait `n` seconds.
unfoldable pub check : FixedWindowLimiter → ℕ → String → FixedWindowLimiter × Option ℕ
check l now key =
    gate (sweep_expired l now) now key
      (current (sweep_expired l now) now (Dict.get (sweep_expired l now).windows key))

unfoldable pub reset : FixedWindowLimiter → String → FixedWindowLimiter
reset l key = record l { windows = Dict.remove l.windows key }
