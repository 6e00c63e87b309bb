-- ===== src/Tests/Server.antt =====
-- services/resilience.py and its middleware: a server that has seen requests.
use python_oauth2_server.Prelude.{refl, inl, true, false, some, [], arith, ◌*◌, ◌≡◌, ◌∷◌}
use python_oauth2_server.Clock.{second}
use python_oauth2_server.Services.Resilience.{
  CircuitBreaker, open_, half_open, allow_request, try_acquire, state,
}
use python_oauth2_server.Services.Resilience.Breaker.{calls, failed, allow, open_refuses}
use python_oauth2_server.Middleware.Resilience.{
  Server, crashed, cancelled, admitted, probe_gate, enter, leave,
}
use python_oauth2_server.Middleware.Resilience.Slots.{
  World, Reach, here, next, enters, IsValid, Reach-IsValid, probe_gets_in,
}
use python_oauth2_server.Middleware.Resilience.Cancelled.{any_admitted, cancelled_probe_stuck}
use python_oauth2_server.Middleware.Resilience.Counters.{leave_counts}

abbrev breaker : CircuitBreaker
breaker = record {
  failure_threshold = 5;
  success_threshold = 2;
  open_secs = 30;
  half_open_max_probes = 1;
  current = half_open;
  consecutive_failures = 0;
  consecutive_successes = 0;
  opened_at = some 0;
  probes_in_use = 0;
  total_trips = 1;
}

abbrev server : Server
server = record {
  circuit = breaker;
  concurrency = record { max_concurrent = 10; in_flight = 0; rejected_total = 0 };
  metrics = record {
    circuit_breaker_state = half_open;
    circuit_breaker_trips_total = 1;
    concurrent_requests_in_flight = 0;
    back_pressure_rejected_total = 0;
  };
  last_trips = 1;
}

abbrev world : World
world = record { server = server; probes = 0; others = 0 }

world-IsValid : IsValid world
world-IsValid = record {
  counted = refl;
  bounded = omega arith;
  held = omega arith;
  unused = inl refl;
  gated = omega arith;
}

abbrev with_probe : World
with_probe = record { server = (enter server second).0; probes = 1; others = 0 }

with_probe-Reach : Reach world with_probe
unfolding enter probe_gate try_acquire allow_request state
with_probe-Reach = next here (enters world second)

Reach-IsValid_example : IsValid with_probe
Reach-IsValid_example = Reach-IsValid world-IsValid with_probe-Reach

world-Reach : Reach world world
world-Reach = here

probe_gets_in_example : (enter server second).1 ≡ admitted true
probe_gets_in_example =
    probe_gets_in second world-IsValid world-Reach refl refl (omega arith) (omega arith)

leave_counts_example :
    ((leave server second true crashed).metrics.circuit_breaker_trips_total
      ≡ (leave server second true crashed).circuit.total_trips)
    × ((leave server second true crashed).metrics.circuit_breaker_state
        ≡ (leave server second true crashed).circuit.current)
    × ((leave server second true crashed).metrics.concurrent_requests_in_flight
        ≡ (leave server second true crashed).concurrency.in_flight)
leave_counts_example =
    leave_counts server second true crashed (record { once = refl; behind = omega arith }) refl

abbrev tripped : CircuitBreaker
tripped = record breaker { current = open_ }

open_refuses_example :
    (calls tripped ((second, allow) ∷ (2 * second, failed) ∷ []) ≡ tripped)
    × ((allow_request (calls tripped ((second, allow) ∷ (2 * second, failed) ∷ [])) (29 * second)).1
        ≡ false)
open_refuses_example =
    open_refuses tripped 0 (29 * second) ((second, allow) ∷ (2 * second, failed) ∷ []) refl refl
      (omega arith, (omega arith, tt)) (omega arith)

abbrev probing : Server
probing = record server { circuit = record breaker { probes_in_use = 1 } }

cancelled_probe_stuck_example :
    any_admitted (leave probing second true cancelled) (second ∷ 3600 * second ∷ []) ≡ false
cancelled_probe_stuck_example =
    cancelled_probe_stuck probing second (second ∷ 3600 * second ∷ []) refl refl
