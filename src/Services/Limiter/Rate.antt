-- ===== src/Services/Limiter/Rate.antt =====
-- services/limiter.py: the rate at which a key is admitted.
use python_oauth2_server.Prelude.{
  leb, leb→le, Bool-cases, eq_iff, ℕ, suc, String, ap, inl, inr, Option, none, some, List, [],
  arith, if◌then◌else◌, ◌==◌, ◌+◌, ◌-◌, ◌*◌, ◌≤◌, ◌<◌, ◌≡◌, ◌∙◌, ◌&&◌, ◌∷◌,
}
use native.Mathlib.Nat.{mul-le-mul_right}
use python_oauth2_server.Dict
use python_oauth2_server.Services.Limiter.{Bucket, TokenBucketLimiter, unit, refill, check}
use python_oauth2_server.Services.Limiter.Laws.{
  available, left, check_allowed, check_spends, check_other, check_limits,
}

-- A check: its monotonic instant, the wall clock and the key.
abbrev pub Attempt : Type 0
Attempt = ℕ × ℕ × String

-- The attempts on a key that pass, over checks of all keys.
unfoldable pub admitted : String → TokenBucketLimiter → List Attempt → ℕ
admitted key l [] = 0
admitted key l ((now, wall, k) ∷ rest) =
    let n = admitted key (check l now wall k).0 rest in
    if k == key && (check l now wall k).1.allowed then suc n else n

-- The instants of the attempts do not fall, from the first bound to the second.
abbrev pub InOrder : ℕ → List Attempt → ℕ → Type 0
InOrder from [] to = from ≤ to
InOrder from ((now, _, _) ∷ rest) to = (from ≤ now) × InOrder now rest to

-- A stretch of time in two parts.
unspread : (a b c m : ℕ) → c ≡ a + b → c * m ≡ a * m + b * m
unspread a b c m h = ap (λ n. n * m) h ∙ omega arith

refill_mono :
    (l : TokenBucketLimiter) (t u : ℕ) (o : Option Bucket)
    → t ≤ u
    → (refill l u o).tokens ≤ (refill l t o).tokens + (u - t) * l.max_tokens
unfolding refill
refill_mono l t u none h = omega arith
refill_mono l t u (some b) h = ground (
  arith,
  unspread (t - b.last_seen) (u - t) (u - b.last_seen) l.max_tokens,
  mul-le-mul_right {m = u - b.last_seen} {n = u - t} l.max_tokens,
)

-- One token for one admission.
spend :
    (n token had has start later earlier total : ℕ)
    → has ≡ (if leb token had then had - token else had)
    → n * token ≤ has + later
    → had ≤ start + earlier
    → total ≡ later + earlier
    → (if leb token had then suc n else n) * token ≤ start + total
spend n token had has start later earlier total h i j k = elim (Bool-cases (leb token had)) [
  | inl e ↦
      let enough : token ≤ had = leb→le token had e in
      let spent : has ≡ had - token = rw e at h in rw e (omega arith)
  | inr e ↦ let unspent : has ≡ had = rw e at h in rw e (omega arith)
]

InOrder-le : (from to : ℕ) (evs : List Attempt) → InOrder from evs to → from ≤ to
InOrder-le from to [] h = h
InOrder-le from to ((now, _, _) ∷ rest) h = omega (arith, InOrder-le now to rest h.1)

-- With a positive window and attempts in order of time, what passes of a key, in fractions of a
-- token, was there at the start or was refilled since, whatever other keys are checked between
-- and whichever idle buckets are swept.
pub admitted-le :
    (key : String) (from to : ℕ) (evs : List Attempt) (l : TokenBucketLimiter)
    → 0 < l.window_secs
    → InOrder from evs to
    → admitted key l evs * unit l ≤ available l from key + (to - from) * l.max_tokens
unfolding admitted
admitted-le key from to [] l pos h = omega arith
admitted-le key from to ((now, wall, k) ∷ evs) l pos h =
    let grown = refill_mono l from now (Dict.get l.buckets key) h.0 in
    let spaced = InOrder-le now to evs h.1 in
    let (same_max, same_window) = check_limits l now wall k in
    let ih = rw same_max at (
      rw same_window at
        (admitted-le key now to evs (check l now wall k).0 (rw same_window pos) h.1)) in
    let split = unspread (to - now) (now - from) (to - from) l.max_tokens (omega arith) in
    elim (Bool-cases (k == key)) [
      | inl e ↦
          let same = (eq_iff k key).0 e in
          let allowed : (check l now wall k).1.allowed ≡ leb (unit l) (available l now key) =
            rw same (check_allowed l now wall key pos) in
          let spends : available (check l now wall k).0 now key ≡ left l (available l now key) =
            rw same (check_spends l now wall key pos) in
          rw (e, allowed)
            (spend (admitted key (check l now wall k).0 evs) (unit l) (available l now key)
              (available (check l now wall k).0 now key) (available l from key)
              ((to - now) * l.max_tokens) ((now - from) * l.max_tokens) ((to - from) * l.max_tokens)
              spends ih grown split)
      | inr e ↦ rw e (omega (arith, check_other l now wall k pos key e))
    ]
