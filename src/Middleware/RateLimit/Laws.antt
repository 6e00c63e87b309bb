-- ===== src/Middleware/RateLimit/Laws.antt =====
-- middleware_ratelimit.py, RateLimitMiddleware: sequences of requests.
use python_oauth2_server.Prelude.{
  Bool-cases, ℕ, suc, String, refl, inl, inr, Bool, true, false, some, List, [], arith,
  if◌then◌else◌, ◌==◌, ◌+◌, ◌-◌, ◌*◌, ◌≤◌, ◌<◌, ◌≡◌, ◌∙◌, ◌&&◌, ◌∷◌,
}
use python_oauth2_server.Services.Limiter.{RateLimitResult, unit, check}
use python_oauth2_server.Services.Limiter.Laws.{available}
use python_oauth2_server.Services.Limiter.Rate.{Attempt, admitted, InOrder, admitted-le}
use python_oauth2_server.Middleware.RateLimit.{
  Request, State, Answer, passes, is_exempt, rate_limit_key, answer, enter,
}

-- A request: its monotonic instant and the wall clock.
abbrev pub Arrival : Type 0
Arrival = ℕ × ℕ × Request

-- The limiter let the request pass.
abbrev pub is_passed : Answer → Bool
is_passed (passes (some result)) = true
is_passed _ = false

-- The requests of a key that the limiter lets pass.
unfoldable pub passed : String → Bool → State → List Arrival → ℕ
passed key trust st [] = 0
passed key trust st ((now, wall, request) ∷ rest) =
    let n = passed key trust (enter trust now wall request st).0 rest in
    if rate_limit_key request trust == key && is_passed (enter trust now wall request st).1
    then suc n
    else n

-- The instants of the requests do not fall, from the first bound to the second.
abbrev pub Ordered : ℕ → List Arrival → ℕ → Type 0
Ordered from [] to = from ≤ to
Ordered from ((now, _, _) ∷ rest) to = (from ≤ now) × Ordered now rest to

-- The checks of the limiter, which an exempt request does not reach.
unfoldable attempts : Bool → List Arrival → List Attempt
attempts trust [] = []
attempts trust ((now, wall, request) ∷ rest) =
    let others = attempts trust rest in
    if is_exempt request.path then others else (now, wall, rate_limit_key request trust) ∷ others

starts_earlier :
    (from now to : ℕ) (evs : List Arrival) → from ≤ now → Ordered now evs to → Ordered from evs to
starts_earlier from now to [] h k = omega arith
starts_earlier from now to (e ∷ rest) h k = (omega (arith, k.0), k.1)

attempts-InOrder :
    (trust : Bool) (from to : ℕ) (evs : List Arrival)
    → Ordered from evs to
    → InOrder from (attempts trust evs) to
unfolding attempts
attempts-InOrder trust from to [] h = h
attempts-InOrder trust from to ((now, wall, request) ∷ rest) h =
    elim (Bool-cases (is_exempt request.path)) [
      | inl e ↦ rw e (attempts-InOrder trust from to rest (starts_earlier from now to rest h.0 h.1))
      | inr e ↦ rw e (h.0, attempts-InOrder trust now to rest h.1)
    ]

answered :
    (path key : String) (result : RateLimitResult) (st : State)
    → (is_passed (answer path key result st).1 ≡ result.allowed)
      × ((answer path key result st).0.limiter ≡ st.limiter)
answered path key result st = elim (Bool-cases result.allowed) [
  | inl e ↦ rw e (refl, refl)
  | inr e ↦ rw e (refl, refl)
]

unanswered : (b : Bool) (n : ℕ) → (if b && false then suc n else n) ≡ n
unanswered true n = refl
unanswered false n = refl

passed-attempts :
    (key : String) (trust : Bool) (evs : List Arrival) (st : State)
    → passed key trust st evs ≡ admitted key st.limiter (attempts trust evs)
unfolding passed attempts admitted enter
passed-attempts key trust [] st = refl
passed-attempts key trust ((now, wall, request) ∷ rest) st =
    let name = rate_limit_key request trust in
    let (limiter, result) = check st.limiter now wall name in
    let checked : State = record st {
      limiter = limiter;
      remaining = result.remaining ∷ st.remaining;
    } in
    elim (Bool-cases (is_exempt request.path)) [
      | inl e ↦ rw e (unanswered _ _ ∙ passed-attempts key trust rest st)
      | inr e ↦
          let (decided, kept) = answered request.path name result checked in
          let ih = passed-attempts key trust rest (answer request.path name result checked).0 in
          rw (e, decided, ih, kept) refl
    ]

-- With a positive window and requests in order of time, the requests of a key that the limiter
-- lets pass, in fractions of a token, are at most what its bucket held at the start or was
-- refilled since, whatever other keys and exempt paths are asked for in between.
pub passed-le :
    (key : String) (trust : Bool) (from to : ℕ) (evs : List Arrival) (st : State)
    → 0 < st.limiter.window_secs
    → Ordered from evs to
    → passed key trust st evs * unit st.limiter
      ≤ available st.limiter from key + (to - from) * st.limiter.max_tokens
passed-le key trust from to evs st pos h = rw (passed-attempts key trust evs st) (
    admitted-le key from to (attempts trust evs) st.limiter pos
      (attempts-InOrder trust from to evs h))
