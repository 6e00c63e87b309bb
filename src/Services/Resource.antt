-- ===== src/Services/Resource.antt =====
-- services/resource.py: the `resource` parameter of RFC 8707. `urllib.parse.urlsplit` is a
-- parameter.
use python_oauth2_server.Prelude.{
  ℕ, String, Bool, not, Option, none, some, Result, ok, guard, map_err, require, ◌==◌, ◌&&◌, ◌||◌,
  ◌>>=◌, ◌>>◌,
}
use python_oauth2_server.Errors.{Description, Raised, oauth, uncaught, text, limit}
use python_oauth2_server.Services.Limits.{check_len}

-- What `urlsplit` returns, unless it raises `ValueError`.
pub record SplitResult : Type 0 where
  pub scheme : String
  pub netloc : String
  pub path : String
  pub query : String
  pub fragment : String

abbrev pub max_resource_len : ℕ
max_resource_len = 2048

-- `bool(s)`
abbrev pub filled : String → Bool
filled s = not (s == "")

unfoldable pub names_something : SplitResult → Bool
names_something split = filled split.netloc || filled split.path || filled split.query

abbrev pub invalid_target : Description → Raised
invalid_target description =
    oauth (record { error = "invalid_target"; description = description; status = 400 })

unfoldable pub validate_resource :
    (String → Option SplitResult) → Option String → Result Raised (Option String)
unfolding check_len names_something
validate_resource urlsplit none = ok none
validate_resource urlsplit (some value) = do
  checked ← map_err (λ e. invalid_target (limit e)) (check_len value "resource" max_resource_len)
  split ← require (urlsplit value) uncaught
  guard (filled split.scheme && names_something split && not (filled split.fragment))
      (invalid_target (text "resource must be an absolute URI without a fragment"))
  ok (some value)
