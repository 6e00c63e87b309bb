-- ===== src/Middleware/Resilience/Slots.antt =====
-- middleware_ratelimit.py: runs of the server, as requests that enter and leave, and the slots they hold.
use python_oauth2_server.Prelude.{ℕ, true, false, arith, ◌+◌, ◌-◌, ◌≤◌, ◌<◌, ◌≡◌, ◌⊎◌}
use python_oauth2_server.Services.Resilience.{
  half_open, is_half_open, state, allow_request, record_success, record_failure, try_acquire,
  release,
}
use python_oauth2_server.Middleware.Resilience.{
  Server, Entry, Outcome, responded, crashed, cancelled, is_cancelled, admitted, enter, leave,
  probe_gate, settle,
}

-- The server and the requests whose handler runs: how many probes, and how many others.
pub record World : Type 0 where
  pub server : Server
  pub probes : ℕ
  pub others : ℕ

abbrev running : World → Entry → World
running w (admitted true) = record w { probes = w.probes + 1 }
running w (admitted false) = record w { others = w.others + 1 }
running w _ = w

-- A request enters, or one that runs leaves; no probe is cancelled.
pub data Step : World → World → Type 0 where
  enters :
      (w : World) (now : ℕ)
      → Step w (running (record w { server = (enter w.server now).0 }) (enter w.server now).1)
  probe_leaves :
      (w : World) (now : ℕ) (o : Outcome)
      → 0 < w.probes
      → is_cancelled o ≡ false
      → Step w (record w { server = leave w.server now true o; probes = w.probes - 1 })
  other_leaves :
      (w : World) (now : ℕ) (o : Outcome)
      → 0 < w.others
      → Step w (record w { server = leave w.server now false o; others = w.others - 1 })

pub data Reach (w : World) : World → Type 0 where
  here : Reach w w
  next : {u v : World} → Reach w u → Step u v → Reach w v

pub record IsValid (w : World) : Type 0 where
  pub counted : w.server.concurrency.in_flight ≡ w.probes + w.others
  pub bounded : w.server.concurrency.in_flight ≤ w.server.concurrency.max_concurrent
  pub held : w.server.circuit.probes_in_use ≤ w.probes
  pub unused : (is_half_open w.server.circuit.current ≡ true) ⊎ (w.server.circuit.probes_in_use ≡ 0)
  pub gated : w.server.circuit.probes_in_use ≤ w.server.circuit.half_open_max_probes

enter-IsValid :
    (w : World) (now : ℕ)
    → IsValid w
    → IsValid (running (record w { server = (enter w.server now).0 }) (enter w.server now).1)
unfolding enter probe_gate allow_request try_acquire release state
enter-IsValid w now v = ground arith

probe_leaves-IsValid :
    (w : World) (now : ℕ) (o : Outcome)
    → 0 < w.probes
    → is_cancelled o ≡ false
    → IsValid w
    → IsValid (record w { server = leave w.server now true o; probes = w.probes - 1 })
unfolding leave settle record_success record_failure release state
probe_leaves-IsValid w now (responded n) some_probe e v = ground arith
probe_leaves-IsValid w now crashed some_probe e v = ground arith
probe_leaves-IsValid w now cancelled some_probe e v = cc

other_leaves-IsValid :
    (w : World) (now : ℕ) (o : Outcome)
    → 0 < w.others
    → IsValid w
    → IsValid (record w { server = leave w.server now false o; others = w.others - 1 })
unfolding leave settle record_success record_failure release state
other_leaves-IsValid w now (responded n) some_other v = ground arith
other_leaves-IsValid w now crashed some_other v = ground arith
other_leaves-IsValid w now cancelled some_other v = ground arith

Step-IsValid : {w v : World} → Step w v → IsValid w → IsValid v
Step-IsValid (enters w now) v = enter-IsValid w now v
Step-IsValid (probe_leaves w now o some_probe e) v = probe_leaves-IsValid w now o some_probe e v
Step-IsValid (other_leaves w now o some_other) v = other_leaves-IsValid w now o some_other v

-- From a valid state on, however requests enter and leave, and however they end, if no probe is
-- cancelled: the concurrency
-- counter is the number of requests that run, and stays within its limit; probe slots in use
-- stay within theirs, belong to probes that run, and are in use only while the breaker is half
-- open.
pub Reach-IsValid : {w v : World} → IsValid w → Reach w v → IsValid v
Reach-IsValid valid here = valid
Reach-IsValid valid (next r st) = Step-IsValid st (Reach-IsValid valid r)

enter_probes :
    (s : Server) (now : ℕ)
    → s.circuit.current ≡ half_open
    → s.circuit.probes_in_use < s.circuit.half_open_max_probes
    → s.concurrency.in_flight < s.concurrency.max_concurrent
    → (enter s now).1 ≡ admitted true
unfolding enter probe_gate allow_request try_acquire state
enter_probes s now h free room = ground arith

-- If no probe is cancelled, no probe slot is ever lost: in whatever state the server got from a valid one, once no probe
-- runs, a half-open breaker with probe slots lets the next request in as a probe, if the server
-- has capacity for it.
pub probe_gets_in :
    {w v : World} (now : ℕ)
    → IsValid w
    → Reach w v
    → v.server.circuit.current ≡ half_open
    → v.probes ≡ 0
    → 0 < v.server.circuit.half_open_max_probes
    → v.probes + v.others < v.server.concurrency.max_concurrent
    → (enter v.server now).1 ≡ admitted true
probe_gets_in {v = v} now valid r h idle some_probes room =
    let there = Reach-IsValid valid r in
    enter_probes v.server now h (omega (arith, there.held)) (omega (arith, there.counted))
