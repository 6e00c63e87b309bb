-- ===== src/Services/RateLimit/Laws.antt =====
-- services/ratelimit.py: the attempts that pass in a window.
use python_oauth2_server.Prelude.{
  leb, is_some, Bool-cases, All, eq_iff, eq_refl, ℕ, suc, min, max, String, refl, inl, inr, false,
  not, none, some, List, [], arith, if◌then◌else◌, ◌==◌, ◌+◌, ◌-◌, ◌*◌, ◌≤◌, ◌<◌, ◌≡◌, ◌∙◌, ◌&&◌,
  ◌∷◌,
}
use python_oauth2_server.Clock.{second, ceil_div}
use python_oauth2_server.Dict
use python_oauth2_server.Dict.{dict_laws, get-put, get-sweep, get-remove}
use python_oauth2_server.Services.RateLimit.{
  Window, FixedWindowLimiter, sweep_expired, current, gate, check, reset,
}

module _ (l : FixedWindowLimiter) (now : ℕ) (key : String) (w : Window) where
  gate_self :
      Dict.get (gate l now key w).0.windows key
      ≡ some (record w { count = (if leb l.max_attempts w.count then w.count else w.count + 1) })
  unfolding gate
  gate_self = elim (Bool-cases (leb l.max_attempts w.count)) [
    | inl e ↦ simp (e, get-put, eq_refl)
    | inr e ↦ simp (e, get-put, eq_refl)
  ]

  gate_other :
      (other : String)
      → (key == other) ≡ false
      → Dict.get (gate l now key w).0.windows other ≡ Dict.get l.windows other
  unfolding gate
  gate_other other h = elim (Bool-cases (leb l.max_attempts w.count)) [
    | inl e ↦ simp (e, get-put, h)
    | inr e ↦ simp (e, get-put, h)
  ]

  gate_limits :
      ((gate l now key w).0.max_attempts ≡ l.max_attempts)
      × ((gate l now key w).0.window_secs ≡ l.window_secs)
  unfolding gate
  gate_limits = ground arith

-- The limits are fixed.
pub check_limits :
    (l : FixedWindowLimiter) (now : ℕ) (key : String)
    → ((check l now key).0.max_attempts ≡ l.max_attempts)
      × ((check l now key).0.window_secs ≡ l.window_secs)
unfolding check sweep_expired
check_limits l now key = gate_limits _ now key _

module _ (l : FixedWindowLimiter) (now : ℕ) (key : String) (w : Window)
    (found : Dict.get l.windows key ≡ some w) (live : now < w.start + l.window_secs * second) where
  swept : Dict.get (sweep_expired l now).windows key ≡ some w
  unfolding sweep_expired
  swept = simp (get-sweep, found) (ground arith)

  stays : current (sweep_expired l now) now (some w) ≡ w
  unfolding current sweep_expired
  stays = ground arith

  -- While the window of a key lasts, a check of the key counts against it.
  pub check_live :
      (Dict.get (check l now key).0.windows key
        ≡ some (record w { count = (if leb l.max_attempts w.count then w.count else w.count + 1) }))
      × ((check l now key).1 ≡ (
          if leb l.max_attempts w.count
          then some (max 1 (ceil_div (l.window_secs * second - (now - w.start)) second))
          else none))
  unfolding sweep_expired
  check_live =
      unfold check in rw (swept, stays) (gate_self _ now key w, unfold gate in ground arith)

  -- A check of another key leaves the live window of a key alone.
  pub check_other :
      (other : String)
      → (other == key) ≡ false
      → Dict.get (check l now other).0.windows key ≡ some w
  check_other other h = unfold check in gate_other _ now other _ key h ∙ swept

-- The first attempt of a key with no window opens one.
check_fresh :
    (l : FixedWindowLimiter) (now : ℕ) (key : String)
    → Dict.get l.windows key ≡ none
    → (Dict.get (check l now key).0.windows key
        ≡ some (record { start = now; count = (if leb l.max_attempts 0 then 0 else 1) }))
      × (is_some (check l now key).1 ≡ leb l.max_attempts 0)
unfolding check sweep_expired current
check_fresh l now key h =
    let gone : Dict.get (sweep_expired l now).windows key ≡ none = simp (get-sweep, h) in
    rw gone (gate_self _ now key _, unfold gate in ground arith)

-- The attempts on a key that pass, over checks of all keys, each with its instant.
unfoldable pub admitted : String → FixedWindowLimiter → List (ℕ × String) → ℕ
admitted key l [] = 0
admitted key l ((now, k) ∷ rest) =
    let n = admitted key (check l now k).0 rest in
    if k == key && not (is_some (check l now k).1) then suc n else n

unfoldable pub attempts : String → List (ℕ × String) → ℕ
attempts key [] = 0
attempts key ((_, k) ∷ rest) = let n = attempts key rest in if k == key then suc n else n

-- Of attempts that all come before the window of a key ends, exactly as many attempts of the key
-- pass as are left of its quota, whatever other keys are checked between.
pub admitted_live :
    (key : String) (end : ℕ) (evs : List (ℕ × String)) (l : FixedWindowLimiter) (w : Window)
    → Dict.get l.windows key ≡ some w
    → w.start + l.window_secs * second ≡ end
    → All (λ e. e.0 < end) evs
    → admitted key l evs ≡ min (l.max_attempts - w.count) (attempts key evs)
unfolding admitted attempts
admitted_live key end [] l w found ends h = omega arith
admitted_live key end ((now, k) ∷ evs) l w found ends h = elim (Bool-cases (k == key)) [
  | inl e ↦
      let live : now < w.start + l.window_secs * second = omega arith in
      let (counted, answer) = check_live l now key w found live in
      let (same_max, same_window) = check_limits l now key in
      let ih = admitted_live key end evs (check l now key).0 _ counted (rw same_window ends) h.1 in
      rw ((eq_iff k key).0 e) (ground (arith, eq_refl key, answer, same_max, ih))
  | inr e ↦
      let live : now < w.start + l.window_secs * second = omega arith in
      let (same_max, same_window) = check_limits l now k in
      let ih =
        admitted_live key end evs (check l now k).0 w (check_other l now key w found live k e)
          (rw same_window ends) h.1 in
      rw e (rw same_max at ih)
]

-- After a reset, of attempts that all come before the window ends that the first one opens,
-- exactly the first `max_attempts` attempts of the key pass, whatever other keys are checked
-- between.
pub admitted-reset :
    (l : FixedWindowLimiter) (key : String) (now : ℕ) (evs : List (ℕ × String))
    → All (λ e. e.0 < now + l.window_secs * second) evs
    → admitted key (reset l key) ((now, key) ∷ evs) ≡ min l.max_attempts (suc (attempts key evs))
unfolding admitted reset
admitted-reset l key now evs h =
    let gone : Dict.get (reset l key).windows key ≡ none =
      unfold reset in simp (get-remove, eq_refl) in
    let (opened, answer) = check_fresh (reset l key) now key gone in
    let (same_max, same_window) = check_limits (reset l key) now key in
    let rest =
      admitted_live key (now + l.window_secs * second) evs (check (reset l key) now key).0 _ opened
        (unfold reset in rw same_window refl) h in
    ground (arith, eq_refl key, answer, same_max, rest)

-- An attempt after the window of its key opens a new one.
check_over :
    (l : FixedWindowLimiter) (now : ℕ) (key : String) (w : Window)
    → Dict.get l.windows key ≡ some w
    → w.start + l.window_secs * second ≤ now
    → 0 < l.max_attempts
    → (check l now key).1 ≡ none
unfolding check sweep_expired current
check_over l now key w found over some_max =
    let gone : Dict.get (sweep_expired l now).windows key ≡ none =
      simp (get-sweep, found) (ground arith) in
    rw gone (unfold gate in ground arith)

-- With positive limits, a refusal while the window of the key lasts names at least one second
-- and at most the window, and an attempt so many seconds later, with no other check between,
-- passes.
pub retry_after_suffices :
    (l : FixedWindowLimiter) (now : ℕ) (key : String) (w : Window) (n : ℕ)
    → 0 < l.max_attempts
    → 0 < l.window_secs
    → Dict.get l.windows key ≡ some w
    → w.start ≤ now
    → now < w.start + l.window_secs * second
    → (check l now key).1 ≡ some n
    → (1 ≤ n) × (n ≤ l.window_secs) × ((check (check l now key).0 (now + n * second) key).1 ≡ none)
retry_after_suffices l now key w n some_max some_window found begun live refused =
    let (counted, answer) = check_live l now key w found live in
    let (same_max, same_window) = check_limits l now key in
    let refusal : n ≡ max 1 (ceil_div (l.window_secs * second - (now - w.start)) second) =
      ground arith in
    (
      omega arith,
      omega arith,
      check_over (check l now key).0 (now + n * second) key _ counted (rw same_window (omega arith))
          (rw same_max some_max),
    )
