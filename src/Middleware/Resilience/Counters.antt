-- ===== src/Middleware/Resilience/Counters.antt =====
-- middleware_ratelimit.py: the metrics of the breaker and the breaker itself.
use python_oauth2_server.Prelude.{ℕ, Bool, false, arith, ◌≤◌, ◌≡◌}
use python_oauth2_server.Services.Resilience.{
  allow_request, record_success, record_failure, try_acquire, release, state,
}
use python_oauth2_server.Middleware.Resilience.{
  Server, Outcome, responded, crashed, cancelled, is_cancelled, enter, leave, probe_gate, settle,
}

-- Every trip up to `last_trips` is counted once, and no trip is counted ahead.
pub record IsCounted (s : Server) : Type 0 where
  pub once : s.metrics.circuit_breaker_trips_total ≡ s.last_trips
  pub behind : s.last_trips ≤ s.circuit.total_trips

-- Entering keeps the count of trips.
pub enter-IsCounted : (s : Server) (now : ℕ) → IsCounted s → IsCounted (enter s now).0
unfolding enter probe_gate allow_request try_acquire state
enter-IsCounted s now c = ground arith

-- If every trip up to the last one recorded was counted, then, when a request leaves that was not cancelled, every trip
-- of the breaker has been counted exactly once, the gauge shows the state of the breaker, and
-- the other gauge the requests in flight.
pub leave_counts :
    (s : Server) (now : ℕ) (is_probe : Bool) (o : Outcome)
    → IsCounted s
    → is_cancelled o ≡ false
    → ((leave s now is_probe o).metrics.circuit_breaker_trips_total
        ≡ (leave s now is_probe o).circuit.total_trips)
      × ((leave s now is_probe o).metrics.circuit_breaker_state
          ≡ (leave s now is_probe o).circuit.current)
      × ((leave s now is_probe o).metrics.concurrent_requests_in_flight
          ≡ (leave s now is_probe o).concurrency.in_flight)
unfolding leave settle record_success record_failure release state
leave_counts s now is_probe (responded n) c e = ground arith
leave_counts s now is_probe crashed c e = ground arith
leave_counts s now is_probe cancelled c e = cc
