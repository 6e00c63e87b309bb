-- ===== src/Services/Limiter.antt =====
-- services/limiter.py: the token bucket. A bucket counts in fractions of a token: one token is
-- `unit` of them, so that the refill of `max_tokens / window_secs` tokens a second is `max_tokens`
-- of them a nanosecond. The source computes the same in floats.
pub mod Laws
pub mod Rate
use python_oauth2_server.Prelude.{
  ltb, leb, ℕ, min, max, String, Bool, true, false, Option, none, some, if◌then◌else◌, ◌+◌, ◌-◌,
  ◌*◌, ◌/◌,
}
use python_oauth2_server.Clock.{second, ceil_div}
use python_oauth2_server.Dict
use python_oauth2_server.Dict.{Dict}

pub record RateLimitResult : Type 0 where
  pub allowed : Bool
  pub remaining : ℕ
  pub limit : ℕ
  pub reset_at : ℕ
  pub retry_after : Option ℕ

pub record Bucket : Type 0 where
  pub tokens : ℕ
  pub last_seen : ℕ

pub record TokenBucketLimiter : Type 0 where
  pub max_tokens : ℕ
  pub window_secs : ℕ
  pub buckets : Dict Bucket

unfoldable pub init : ℕ → ℕ → TokenBucketLimiter
init max_requests window_secs = record {
  max_tokens = max 1 max_requests;
  window_secs = max 1 window_secs;
  buckets = Dict.empty;
}

-- One token, in the fractions that a bucket counts.
abbrev pub unit : TokenBucketLimiter → ℕ
unit l = l.window_secs * second

abbrev pub capacity : TokenBucketLimiter → ℕ
capacity l = l.max_tokens * unit l

-- `now - bucket.last_seen >= idle_cutoff`
unfoldable pub idle : TokenBucketLimiter → ℕ → Bucket → Bool
idle l now b = leb (b.last_seen + l.window_secs * 2 * second) now

unfoldable pub sweep_expired : TokenBucketLimiter → ℕ → TokenBucketLimiter
unfolding idle
sweep_expired l now = record l { buckets = Dict.sweep (idle l now) l.buckets }

unfoldable pub refill : TokenBucketLimiter → ℕ → Option Bucket → Bucket
refill l now none = record { tokens = capacity l; last_seen = now }
refill l now (some b) = record {
  tokens =
      (if ltb b.last_seen now
        then min (capacity l) (b.tokens + (now - b.last_seen) * l.max_tokens)
        else b.tokens);
  last_seen = now;
}

-- Takes a token if there is one. `wall` is `int(time.time())`.
unfoldable pub consume : TokenBucketLimiter → ℕ → Bucket → Bucket × RateLimitResult
consume l wall b =
    if leb (unit l) b.tokens
    then (
      record b { tokens = b.tokens - unit l },
      record {
        allowed = true;
        remaining = (b.tokens - unit l) / unit l;
        limit = l.max_tokens;
        reset_at = wall + l.window_secs;
        retry_after = none;
      },
    )
    else (
      b,
      record {
        allowed = false;
        remaining = 0;
        limit = l.max_tokens;
        reset_at = wall + l.window_secs;
        retry_after = some (max 1 (ceil_div (unit l - b.tokens) (l.max_tokens * second)));
      },
    )

unfoldable pub check : TokenBucketLimiter → ℕ → ℕ → String → TokenBucketLimiter × RateLimitResult
check l now wall key =
    let swept = sweep_expired l now in
    let (b, result) = consume swept wall (refill swept now (Dict.get swept.buckets key)) in
    (record swept { buckets = Dict.put swept.buckets key b }, result)
