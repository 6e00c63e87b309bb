-- ===== src/Services/Resilience.antt =====
-- services/resilience.py: the circuit breaker and the concurrency limiter. No method yields to
-- another task between its reads and its writes, so each is one step.
pub mod Breaker
use python_oauth2_server.Prelude.{
  ltb, leb, ℕ, max, Bool, true, false, Option, none, some, if◌then◌else◌, ◌+◌, ◌-◌, ◌*◌, ◌&&◌,
}
use python_oauth2_server.Clock.{second}

pub data CircuitState : Type 0 where
  closed open_ half_open : CircuitState

pub record CircuitBreaker : Type 0 where
  pub failure_threshold : ℕ
  pub success_threshold : ℕ
  pub open_secs : ℕ
  pub half_open_max_probes : ℕ
  pub current : CircuitState
  pub consecutive_failures : ℕ
  pub consecutive_successes : ℕ
  pub opened_at : Option ℕ
  pub probes_in_use : ℕ
  pub total_trips : ℕ

unfoldable pub init : ℕ → ℕ → ℕ → ℕ → CircuitBreaker
init failure_threshold success_threshold open_secs half_open_max_probes = record {
  failure_threshold = max 1 failure_threshold;
  success_threshold = max 1 success_threshold;
  open_secs = max 1 open_secs;
  half_open_max_probes = max 1 half_open_max_probes;
  current = closed;
  consecutive_failures = 0;
  consecutive_successes = 0;
  opened_at = none;
  probes_in_use = 0;
  total_trips = 0;
}

abbrev pub is_closed : CircuitState → Bool
is_closed closed = true
is_closed _ = false

abbrev pub is_open : CircuitState → Bool
is_open open_ = true
is_open _ = false

abbrev pub is_half_open : CircuitState → Bool
is_half_open half_open = true
is_half_open _ = false

-- `opened_at is not None and now - opened_at >= open_secs`
unfoldable pub cooled : CircuitBreaker → ℕ → Bool
cooled b now = elim b.opened_at [ none ↦ false | some t ↦ leb (t + b.open_secs * second) now ]

-- The breaker after `state()` was read at an instant; the state read is its field `current`.
unfoldable pub state : CircuitBreaker → ℕ → CircuitBreaker
unfolding cooled
state b now =
    if is_open b.current && cooled b now
    then record b { current = half_open; probes_in_use = 0; consecutive_successes = 0 }
    else b

unfoldable pub open_circuit : CircuitBreaker → ℕ → CircuitBreaker
open_circuit b now = record b {
  current = open_;
  opened_at = some now;
  consecutive_failures = 0;
  consecutive_successes = 0;
  probes_in_use = 0;
  total_trips = b.total_trips + 1;
}

unfoldable pub close_circuit : CircuitBreaker → CircuitBreaker
close_circuit b = record b {
  current = closed;
  opened_at = none;
  consecutive_failures = 0;
  consecutive_successes = 0;
  probes_in_use = 0;
}

abbrev admit : CircuitBreaker → CircuitState → CircuitBreaker × Bool
admit b closed = (b, true)
admit b open_ = (b, false)
admit b half_open =
    if leb b.half_open_max_probes b.probes_in_use
    then (b, false)
    else (record b { probes_in_use = b.probes_in_use + 1 }, true)

unfoldable pub allow_request : CircuitBreaker → ℕ → CircuitBreaker × Bool
unfolding state
allow_request b now = admit (state b now) (state b now).current

-- A success counted while half open; `-` stops at 0, as `max(0, …)` does in the source.
unfoldable pub probe_succeeded : CircuitBreaker → CircuitBreaker
unfolding close_circuit
probe_succeeded b =
    let counted = record b {
      probes_in_use = b.probes_in_use - 1;
      consecutive_successes = b.consecutive_successes + 1;
    } in
    if leb b.success_threshold (b.consecutive_successes + 1) then close_circuit counted else counted

abbrev succeed : CircuitBreaker → CircuitState → CircuitBreaker
succeed b half_open = probe_succeeded b
succeed b closed = record b { consecutive_failures = 0 }
succeed b open_ = b

unfoldable pub record_success : CircuitBreaker → ℕ → CircuitBreaker
unfolding state probe_succeeded
record_success b now = succeed (state b now) (state b now).current

abbrev fail : CircuitBreaker → ℕ → CircuitState → CircuitBreaker
fail b now half_open = open_circuit (record b { probes_in_use = b.probes_in_use - 1 }) now
fail b now closed =
    let counted = record b { consecutive_failures = b.consecutive_failures + 1 } in
    if leb b.failure_threshold (b.consecutive_failures + 1)
    then open_circuit counted now
    else counted
fail b now open_ = b

unfoldable pub record_failure : CircuitBreaker → ℕ → CircuitBreaker
unfolding state open_circuit
record_failure b now = fail (state b now) now (state b now).current

pub record ConcurrencyLimiter : Type 0 where
  pub max_concurrent : ℕ
  pub in_flight : ℕ
  pub rejected_total : ℕ

unfoldable pub try_acquire : ConcurrencyLimiter → ConcurrencyLimiter × Bool
try_acquire c =
    if leb c.max_concurrent c.in_flight
    then (record c { rejected_total = c.rejected_total + 1 }, false)
    else (record c { in_flight = c.in_flight + 1 }, true)

unfoldable pub release : ConcurrencyLimiter → ConcurrencyLimiter
release c = if ltb 0 c.in_flight then record c { in_flight = c.in_flight - 1 } else c
