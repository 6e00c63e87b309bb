-- ===== src/Middleware/Resilience/Cancelled.antt =====
-- middleware_ratelimit.py: the probe slots after the cancellation of probes.
use python_oauth2_server.Prelude.{ℕ, refl, Bool, true, false, List, [], arith, ◌≤◌, ◌≡◌, ◌||◌, ◌∷◌}
use python_oauth2_server.Services.Resilience.{
  CircuitBreaker, half_open, state, allow_request, try_acquire,
}
use python_oauth2_server.Middleware.Resilience.{
  Server, Entry, admitted, cancelled, enter, probe_gate, leave,
}

-- A half-open breaker with no probe slot left.
record IsFull (c : CircuitBreaker) : Type 0 where
  probing : c.current ≡ half_open
  taken : c.half_open_max_probes ≤ c.probes_in_use

abbrev is_admitted : Entry → Bool
is_admitted (admitted b) = true
is_admitted _ = false

-- Whether one of the requests that enter at these instants, one after the other, is admitted.
unfoldable pub any_admitted : Server → List ℕ → Bool
any_admitted s [] = false
any_admitted s (now ∷ nows) =
    let rest = any_admitted (enter s now).0 nows in is_admitted (enter s now).1 || rest

enter-IsFull :
    (s : Server) (now : ℕ)
    → IsFull s.circuit
    → (is_admitted (enter s now).1 ≡ false) × IsFull (enter s now).0.circuit
unfolding enter probe_gate allow_request try_acquire state
enter-IsFull s now full =
    let half = full.probing in
    let taken = full.taken in
    (ground arith, record { probing = ground arith; taken = ground arith })

none_admitted : (s : Server) (nows : List ℕ) → IsFull s.circuit → any_admitted s nows ≡ false
unfolding any_admitted
none_admitted s [] full = refl
none_admitted s (now ∷ nows) full =
    let (refused, still) = enter-IsFull s now full in
    rw refused (none_admitted (enter s now).0 nows still)

-- If all probe slots of a half-open breaker are taken and a probe is cancelled, its slot stays
-- taken: of requests that enter after that, at whatever instants and with no request leaving
-- between, none is admitted.
pub cancelled_probe_stuck :
    (s : Server) (now : ℕ) (nows : List ℕ)
    → s.circuit.current ≡ half_open
    → s.circuit.probes_in_use ≡ s.circuit.half_open_max_probes
    → any_admitted (leave s now true cancelled) nows ≡ false
unfolding leave
cancelled_probe_stuck s now nows probing taken =
    none_admitted (leave s now true cancelled) nows
      (record { probing = probing; taken = omega arith })
