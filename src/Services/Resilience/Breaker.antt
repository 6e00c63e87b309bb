-- ===== src/Services/Resilience/Breaker.antt =====
-- services/resilience.py: runs of calls of the breaker.
use python_oauth2_server.Prelude.{
  leb, leb→le, Bool-cases, length, All, ℕ, suc, min, refl, ap, inl, inr, true, false, some, List,
  [], arith, if◌then◌else◌, ◌+◌, ◌-◌, ◌*◌, ◌<◌, ◌≡◌, ◌∙◌, ◌∷◌,
}
use python_oauth2_server.Clock.{second}
use python_oauth2_server.Services.Resilience.{
  CircuitBreaker, open_, half_open, allow_request, record_success, record_failure,
}

-- A call of one of the methods.
pub data Call : Type 0 where
  allow succeeded failed : Call

unfoldable pub call : CircuitBreaker → ℕ → Call → CircuitBreaker
unfolding allow_request record_success record_failure
call b now allow = (allow_request b now).0
call b now succeeded = record_success b now
call b now failed = record_failure b now

unfoldable pub calls : CircuitBreaker → List (ℕ × Call) → CircuitBreaker
calls b [] = b
calls b ((now, c) ∷ rest) = calls (call b now c) rest

open_call :
    (b : CircuitBreaker) (since now : ℕ) (c : Call)
    → b.current ≡ open_
    → b.opened_at ≡ some since
    → now < since + b.open_secs * second
    → call b now c ≡ b
unfolding call
open_call b since now allow h t early = ground arith
open_call b since now succeeded h t early = ground arith
open_call b since now failed h t early = ground arith

calls_open :
    (b : CircuitBreaker) (since : ℕ) (cs : List (ℕ × Call))
    → b.current ≡ open_
    → b.opened_at ≡ some since
    → All (λ c. c.0 < since + b.open_secs * second) cs
    → calls b cs ≡ b
unfolding calls
calls_open b since [] h t early = refl
calls_open b since ((at, c) ∷ cs) h t early =
    ap (λ x. calls x cs) (open_call b since at c h t early.0) ∙ calls_open b since cs h t early.1

refused :
    (b : CircuitBreaker) (since now : ℕ)
    → b.current ≡ open_
    → b.opened_at ≡ some since
    → now < since + b.open_secs * second
    → (allow_request b now).1 ≡ false
unfolding allow_request
refused b since now h t last = ground arith

-- Until `open_secs` after it opened, an open breaker is not moved by any calls in that time, and
-- refuses.
pub open_refuses :
    (b : CircuitBreaker) (since now : ℕ) (cs : List (ℕ × Call))
    → b.current ≡ open_
    → b.opened_at ≡ some since
    → All (λ c. c.0 < since + b.open_secs * second) cs
    → now < since + b.open_secs * second
    → (calls b cs ≡ b) × ((allow_request (calls b cs) now).1 ≡ false)
open_refuses b since now cs h t early last =
    let same = calls_open b since cs h t early in
    (same, ap (λ x. (allow_request x now).1) same ∙ refused b since now h t last)

-- The requests that are let through, of so many in a row.
unfoldable pub let_through : CircuitBreaker → List ℕ → ℕ
let_through b [] = 0
let_through b (now ∷ rest) =
    let n = let_through (allow_request b now).0 rest in if (allow_request b now).1 then suc n else n

allow_half_open :
    (b : CircuitBreaker) (now : ℕ)
    → b.current ≡ half_open
    → allow_request b now ≡ (
        if leb b.half_open_max_probes b.probes_in_use
        then (b, false)
        else (record b { probes_in_use = b.probes_in_use + 1 }, true))
unfolding allow_request
allow_half_open b now h = ground arith

-- A half-open breaker lets through as many requests in a row as probe slots are left.
pub half_open_probes :
    (b : CircuitBreaker) (nows : List ℕ)
    → b.current ≡ half_open
    → let_through b nows ≡ min (b.half_open_max_probes - b.probes_in_use) (length nows)
unfolding let_through
half_open_probes b [] h = omega arith
half_open_probes b (now ∷ nows) h =
    let answer = allow_half_open b now h in
    elim (Bool-cases (leb b.half_open_max_probes b.probes_in_use)) [
      | inl e ↦
          let none_left = rw e at answer in
          rw none_left (half_open_probes b nows h ∙ omega (arith, leb→le _ _ e))
      | inr e ↦
          let one_taken = rw e at answer in
          rw one_taken (
            ap suc (half_open_probes (record b { probes_in_use = b.probes_in_use + 1 }) nows h)
            ∙ ground arith)
    ]
