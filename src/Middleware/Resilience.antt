-- ===== src/Middleware/Resilience.antt =====
-- middleware_ratelimit.py, ResilienceMiddleware: a request enters, runs while others enter and
-- leave, and leaves. Each half runs without yielding, so a run of the server is a sequence of
-- enterings and leavings.
pub mod Slots
pub mod Counters
pub mod Cancelled
use python_oauth2_server.Prelude.{ltb, leb, ℕ, Bool, true, false, if◌then◌else◌, ◌+◌, ◌-◌, ◌||◌}
use python_oauth2_server.Services.Resilience
use python_oauth2_server.Services.Resilience.{
  CircuitBreaker, CircuitState, ConcurrencyLimiter, is_open, is_half_open, is_closed, state,
  allow_request, record_success, record_failure, try_acquire, release,
}

pub record Metrics : Type 0 where
  pub circuit_breaker_state : CircuitState
  pub circuit_breaker_trips_total : ℕ
  pub concurrent_requests_in_flight : ℕ
  pub back_pressure_rejected_total : ℕ

pub record Server : Type 0 where
  pub circuit : CircuitBreaker
  pub concurrency : ConcurrencyLimiter
  pub metrics : Metrics
  pub last_trips : ℕ

-- What becomes of a request that enters: a 503 with its Retry-After seconds, or the handler runs,
-- as a half-open probe or not.
pub data Entry : Type 0 where
  circuit_open : ℕ → Entry
  at_capacity : Entry
  admitted : Bool → Entry

-- How the handler ends: with the status of its response, with an exception, or by a
-- cancellation, whose exception is none that `except Exception` catches.
pub data Outcome : Type 0 where
  responded : ℕ → Outcome
  crashed : Outcome
  cancelled : Outcome

unfoldable pub record_circuit_metrics : Server → ℕ → Server
record_circuit_metrics s now =
    let c = state s.circuit now in
    record s {
      circuit = c;
      metrics = record (s.metrics) {
        circuit_breaker_state = c.current;
        circuit_breaker_trips_total =
            s.metrics.circuit_breaker_trips_total + (c.total_trips - s.last_trips);
      };
      last_trips = (if ltb s.last_trips c.total_trips then c.total_trips else s.last_trips);
    }

-- `metrics.concurrent_requests_in_flight.set(concurrency.in_flight())`
unfoldable pub set_in_flight : Server → Server
set_in_flight s = record s {
  metrics = record (s.metrics) { concurrent_requests_in_flight = s.concurrency.in_flight };
}

-- The half-open gate, behind the capacity check.
unfoldable pub probe_gate : Server → ℕ → Server × Entry
unfolding set_in_flight record_circuit_metrics
probe_gate s now =
    if is_half_open (state s.circuit now).current
    then (let (c, allowed) = allow_request (state s.circuit now) now in
        if allowed then (record s { circuit = c }, admitted true) else (
          record_circuit_metrics
              (set_in_flight (record s { circuit = c; concurrency = release s.concurrency })) now,
          circuit_open c.open_secs,
        ))
    else (record s { circuit = state s.circuit now }, admitted false)

unfoldable pub enter : Server → ℕ → Server × Entry
unfolding set_in_flight record_circuit_metrics
enter s now =
    if is_open (state s.circuit now).current
    then (
      record_circuit_metrics (record s { circuit = state s.circuit now }) now,
      circuit_open (state s.circuit now).open_secs,
    )
    else if (try_acquire s.concurrency).1
    then probe_gate
        (set_in_flight
          (record s { circuit = state s.circuit now; concurrency = (try_acquire s.concurrency).0 }))
        now
    else (
      set_in_flight (record s {
        circuit = state s.circuit now;
        concurrency = (try_acquire s.concurrency).0;
        metrics = record (s.metrics) {
          back_pressure_rejected_total = s.metrics.back_pressure_rejected_total + 1;
        };
      }),
      at_capacity,
    )

abbrev pub is_cancelled : Outcome → Bool
is_cancelled cancelled = true
is_cancelled _ = false

abbrev pub is_failure : Outcome → Bool
is_failure (responded status) = leb 500 status
is_failure crashed = true
is_failure cancelled = true

-- The outcome counts if the circuit is closed or the request was a probe.
unfoldable pub settle : CircuitBreaker → ℕ → Bool → Outcome → CircuitBreaker
settle c now is_probe outcome =
    if is_closed (state c now).current || is_probe
    then (if is_failure outcome
        then record_failure (state c now) now
        else record_success (state c now) now)
    else state c now

-- The end of a request. A response and an exception release the concurrency slot, settle the
-- outcome and record the metrics, and differ in the order only; a cancellation runs `finally` alone.
unfoldable pub leave : Server → ℕ → Bool → Outcome → Server
unfolding set_in_flight record_circuit_metrics
leave s now is_probe crashed = set_in_flight (
    let settled =
      record_circuit_metrics (record s { circuit = settle s.circuit now is_probe crashed }) now in
    record settled { concurrency = release settled.concurrency })
leave s now is_probe cancelled = set_in_flight (record s { concurrency = release s.concurrency })
leave s now is_probe (responded status) =
    record_circuit_metrics
      (record (set_in_flight (record s { concurrency = release s.concurrency })) {
        circuit = settle s.circuit now is_probe (responded status);
      })
      now
