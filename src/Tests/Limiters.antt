-- ===== src/Tests/Limiters.antt =====
-- services/ratelimit.py, limiter.py: one key in each limiter.
use python_oauth2_server.Prelude.{
  ℕ, suc, min, String, refl, true, none, some, List, [], arith, ◌+◌, ◌-◌, ◌*◌, ◌≤◌, ◌≡◌, ◌∷◌,
}
use python_oauth2_server.Clock.{second}
use python_oauth2_server.Dict
use python_oauth2_server.Services.RateLimit
use python_oauth2_server.Services.RateLimit.{FixedWindowLimiter, Window, reset}
use python_oauth2_server.Services.RateLimit.Laws.{
  attempts, admitted, admitted-reset, retry_after_suffices,
}
use python_oauth2_server.Middleware.RateLimit.{Request, State}
use python_oauth2_server.Middleware.RateLimit.Laws.{Arrival, passed, passed-le}
use python_oauth2_server.Services.Limiter
use python_oauth2_server.Services.Limiter.{TokenBucketLimiter, unit}
use python_oauth2_server.Services.Limiter.Laws.{available, available-sweep_expired}

abbrev three_a_minute : FixedWindowLimiter
three_a_minute = record {
  max_attempts = 3;
  window_secs = 60;
  windows = Dict.put Dict.empty "u" (record { start = second; count = 2 });
}

abbrev logins : List (ℕ × String)
logins = (3 * second, "u") ∷ (4 * second, "v") ∷ (5 * second, "u") ∷ []

admitted-reset_example :
    admitted "u" (reset three_a_minute "u") ((2 * second, "u") ∷ logins)
    ≡ min 3 (suc (attempts "u" logins))
admitted-reset_example =
    admitted-reset three_a_minute "u" (2 * second) logins
      (omega arith, (omega arith, (omega arith, tt)))

abbrev full_window : FixedWindowLimiter
full_window = record {
  max_attempts = 3;
  window_secs = 60;
  windows = Dict.put Dict.empty "u" (record { start = second; count = 3 });
}

retry_after_suffices_example :
    (1 ≤ 51)
    × (51 ≤ 60)
    × ((RateLimit.check
          (RateLimit.check full_window (10 * second) "u").0
          (10 * second + 51 * second)
          "u").1
        ≡ none)
unfolding RateLimit.check RateLimit.gate RateLimit.current RateLimit.sweep_expired RateLimit.expired
    Dict.put Dict.get Dict.empty Dict.sweep
retry_after_suffices_example =
    retry_after_suffices full_window (10 * second) "u" (record { start = second; count = 3 }) 51
      (omega arith) (omega arith) refl (omega arith) (omega arith) refl

abbrev two_a_minute : TokenBucketLimiter
two_a_minute = record { max_tokens = 2; window_secs = 60; buckets = Dict.empty }

abbrev drained : TokenBucketLimiter
drained = record {
  max_tokens = 2;
  window_secs = 60;
  buckets = Dict.put Dict.empty "k" (record { tokens = 0; last_seen = second });
}

abbrev from_proxy : String → Request
from_proxy path = record { path = path; forwarded_for = some "k, proxy"; peer = some "proxy" }

abbrev arrivals : List Arrival
arrivals =
    (second, 0, from_proxy "/oauth/token")
    ∷ (2 * second, 0, from_proxy "/health")
    ∷ (2 * second, 0, from_proxy "/oauth/token")
    ∷ []

abbrev idle_server : State
idle_server = record { limiter = two_a_minute; remaining = []; rejected = [] }

passed-le_example :
    passed "k" true idle_server arrivals * unit two_a_minute
    ≤ available two_a_minute second "k" + (3 * second - second) * 2
passed-le_example =
    passed-le "k" true second (3 * second) arrivals idle_server (omega arith)
      (omega arith, (omega arith, (omega arith, omega arith)))

available-sweep_expired_example :
    available (Limiter.sweep_expired drained (200 * second)) (200 * second) "k"
    ≡ available drained (200 * second) "k"
available-sweep_expired_example = available-sweep_expired drained (200 * second) "k" (omega arith)
