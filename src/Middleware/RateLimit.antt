-- ===== src/Middleware/RateLimit.antt =====
-- middleware_ratelimit.py, RateLimitMiddleware: what becomes of an HTTP request at the limiter. The
-- limiter raises nothing here, so that its `except` clause is never taken.
pub mod Laws
use Prim.Native.String.{◌++◌ as append}
use python_oauth2_server.Prelude.{
  any, truthy, ℕ, String, Bool, Option, none, some, List, [], if◌then◌else◌, ◌||◌, ◌∷◌,
}
use python_oauth2_server.Strings.{strip, split_on, starts_with}
use python_oauth2_server.Services.Limiter.{TokenBucketLimiter, RateLimitResult, check}

-- The path, the header `X-Forwarded-For` and the address of the peer.
pub record Request : Type 0 where
  pub path : String
  pub forwarded_for : Option String
  pub peer : Option String

-- The limiter, the values that `rate_limit_remaining` observed and the labels that
-- `rate_limit_rejected_total` counted, the newest first.
pub record State : Type 0 where
  pub limiter : TokenBucketLimiter
  pub remaining : List ℕ
  pub rejected : List String

-- The application runs, and its response says the result, if there is one; or a 429 with its
-- Retry-After seconds, and with the security headers or not.
pub data Answer : Type 0 where
  passes : Option RateLimitResult → Answer
  limited : ℕ → RateLimitResult → Bool → Answer

unfoldable pub is_exempt : String → Bool
unfolding starts_with
is_exempt path = any (starts_with path) ("/health" ∷ "/ready" ∷ "/metrics" ∷ [])

unfoldable pub is_oauth_or_admin_api : String → Bool
unfolding starts_with
is_oauth_or_admin_api path = starts_with path "/oauth" || starts_with path "/admin/api"

-- The first two of several segments.
abbrev two_segments : String → List String → Option String
two_segments sep (a ∷ b ∷ rest) = some (append a (append sep b))
two_segments sep _ = none

abbrev or_else : Option String → String → String
or_else (some s) t = s
or_else none t = t

unfoldable pub ip_prefix : String → String
unfolding split_on
ip_prefix key =
    or_else (two_segments "." (split_on b'.' key))
      (or_else (two_segments ":" (split_on b':' key)) key)

abbrev first_forwarded : Option String → Option String
first_forwarded none = none
first_forwarded (some header) = elim (split_on b',' header) [
  | [] ↦ none
  | first ∷ rest ↦ truthy (some (strip first))
]

unfoldable pub rate_limit_key : Request → Bool → String
unfolding split_on strip
rate_limit_key request trust_proxy_headers =
    let peer = or_else request.peer "unknown" in
    if trust_proxy_headers
    then or_else (first_forwarded (truthy request.forwarded_for)) peer
    else peer

abbrev seconds_of : Option ℕ → ℕ
seconds_of (some s) = s
seconds_of none = 1

abbrev answer : String → String → RateLimitResult → State → State × Answer
answer path key result st = if result.allowed then (st, passes (some result)) else (
  record st { rejected = ip_prefix key ∷ st.rejected },
  limited (seconds_of result.retry_after) result (is_oauth_or_admin_api path),
)

unfoldable pub enter : Bool → ℕ → ℕ → Request → State → State × Answer
unfolding is_exempt is_oauth_or_admin_api ip_prefix rate_limit_key check
enter trust_proxy_headers now wall request st =
    let key = rate_limit_key request trust_proxy_headers in
    let (limiter, result) = check st.limiter now wall key in
    if is_exempt request.path
    then (st, passes none)
    else answer request.path key result
        (record st { limiter = limiter; remaining = result.remaining ∷ st.remaining })
