-- ===== src/Services/Limiter/Laws.antt =====
-- services/limiter.py: one check, and the sweep of idle buckets.
use python_oauth2_server.Prelude.{
  leb, leb→le, Bool-cases, Option-cases, eq_refl, ℕ, String, refl, sym, ap, inl, inr, false, Option,
  none, some, arith, Option-cases, if◌then◌else◌, ◌==◌, ◌+◌, ◌-◌, ◌*◌, ◌≤◌, ◌<◌, ◌≡◌, ◌∙◌,
}
use native.Mathlib.Nat.{mul-le-mul_right}
use python_oauth2_server.Clock.{second}
use python_oauth2_server.Dict
use python_oauth2_server.Dict.{get-put, get-sweep}
use python_oauth2_server.Services.Limiter.{
  check, consume, unit, Bucket, TokenBucketLimiter, capacity, idle, sweep_expired, refill,
}

-- The fractions of a token that a key could spend at an instant.
abbrev pub available : TokenBucketLimiter → ℕ → String → ℕ
available l now key = (refill l now (Dict.get l.buckets key)).tokens

-- An idle bucket would have refilled.
idle_full :
    (l : TokenBucketLimiter) (now : ℕ) (b : Bucket)
    → 0 < l.window_secs
    → b.last_seen + l.window_secs * 2 * second ≤ now
    → (refill l now (some b)).tokens ≡ capacity l
unfolding refill
idle_full l now b pos h =
    let gap : (l.window_secs * second) * l.max_tokens ≤ (now - b.last_seen) * l.max_tokens =
      mul-le-mul_right l.max_tokens (omega arith) in
    ground arith

-- With a positive window, it makes no difference to what a key can spend whether idle buckets
-- are swept.
pub available-sweep_expired :
    (l : TokenBucketLimiter) (now : ℕ) (key : String)
    → 0 < l.window_secs
    → available (sweep_expired l now) now key ≡ available l now key
unfolding sweep_expired refill
available-sweep_expired l now key pos = elim (Option-cases (Dict.get l.buckets key)) [
  | inl e ↦
      let swept : Dict.get (sweep_expired l now).buckets key ≡ none = simp (get-sweep, e) in
      ap (λ o. (refill l now o).tokens) (swept ∙ sym e)
  | inr (b, e) ↦
      let swept : Dict.get (sweep_expired l now).buckets key
          ≡ (if idle l now b then none else some b) =
        simp (get-sweep, e) (ground arith) in
      elim (Bool-cases (idle l now b)) [
        | inl old ↦
            ap (λ o. (refill l now o).tokens) {y = none} (swept ∙ rw old)
            ∙ sym (idle_full l now b pos (unfold idle in leb→le _ _ old))
            ∙ sym (ap (λ o. (refill l now o).tokens) e)
        | inr new ↦
            ap (λ o. (refill l now o).tokens) {y = Dict.get l.buckets key} (swept ∙ rw new (sym e))
      ]
]

-- What is left in a bucket after a check.
abbrev pub left : TokenBucketLimiter → ℕ → ℕ
left l tokens = if leb (unit l) tokens then tokens - unit l else tokens

refill_seen :
    (l : TokenBucketLimiter) (now : ℕ) (o : Option Bucket) → (refill l now o).last_seen ≡ now
unfolding refill
refill_seen l now none = refl
refill_seen l now (some b) = refl

consumed :
    (l : TokenBucketLimiter) (wall : ℕ) (b : Bucket)
    → (consume l wall b).0 ≡ record b { tokens = left l b.tokens }
unfolding consume
consumed l wall b = ground arith

consume_allowed :
    (l : TokenBucketLimiter) (wall : ℕ) (b : Bucket)
    → (consume l wall b).1.allowed ≡ leb (unit l) b.tokens
unfolding consume
consume_allowed l wall b = ground arith

-- The limits are fixed.
pub check_limits :
    (l : TokenBucketLimiter) (now wall : ℕ) (key : String)
    → ((check l now wall key).0.max_tokens ≡ l.max_tokens)
      × ((check l now wall key).0.window_secs ≡ l.window_secs)
unfolding check sweep_expired
check_limits l now wall key = (refl, refl)

module _ (l : TokenBucketLimiter) (now wall : ℕ) (key : String) (pos : 0 < l.window_secs) where
  abbrev found : Bucket
  found = refill (sweep_expired l now) now (Dict.get (sweep_expired l now).buckets key)

  pub spent :
      Dict.get (check l now wall key).0.buckets key
      ≡ some (record { tokens = left l (available l now key); last_seen = now })
  unfolding check sweep_expired
  spent =
      get-put _ key key _
      ∙ rw (eq_refl key) (
          ap some (
            consumed (sweep_expired l now) wall found ∙ λ i. record {
              tokens = left l (available-sweep_expired l now key pos i);
              last_seen =
                  refill_seen (sweep_expired l now) now (Dict.get (sweep_expired l now).buckets key)
                    i;
            }))

  -- A check passes exactly when the key has a whole token to spend.
  pub check_allowed : (check l now wall key).1.allowed ≡ leb (unit l) (available l now key)
  unfolding check sweep_expired
  check_allowed =
      consume_allowed (sweep_expired l now) wall found
      ∙ ap (λ t. leb (unit l) t) (available-sweep_expired l now key pos)

  -- It takes that token.
  pub check_spends : available (check l now wall key).0 now key ≡ left l (available l now key)
  check_spends =
      ap (λ o. (refill (check l now wall key).0 now o).tokens) spent
      ∙ (unfold refill in ground arith)

  -- It leaves the other keys alone.
  pub check_other :
      (other : String)
      → (key == other) ≡ false
      → available (check l now wall key).0 now other ≡ available l now other
  unfolding check refill
  check_other other h =
      ap (λ o. (refill (sweep_expired l now) now o).tokens) (get-put _ key other _ ∙ rw h)
      ∙ available-sweep_expired l now other pos
