-- ===== src/Errors.antt =====
-- errors.py: the errors of the services and the error responses made of them.
use python_oauth2_server.Prelude.{ℕ, String, if◌then◌else◌, ◌==◌}
use python_oauth2_server.Services.Limits.{LimitError}

-- `error_description`. Texts with computed parts keep those parts.
pub data Description : Type 0 where
  text : String → Description
  -- a text around the value of one parameter, quoted in it
  about : String → String → Description
  limit : LimitError → Description

pub record OAuthError : Type 0 where
  pub error : String
  pub description : Description
  pub status : ℕ

-- An error with the default status.
abbrev pub bad_request : String → String → OAuthError
bad_request error description = record {
  error = error;
  description = text description;
  status = 400;
}

-- The status of the response; `invalid_client` is 401 whatever the caller says.
unfoldable pub oauth_error : OAuthError → OAuthError
oauth_error e = if e.error == "invalid_client" then record e { status = 401 } else e

-- What a service raises: the error that its caller answers with, or one that nothing catches.
pub data Raised : Type 0 where
  oauth : OAuthError → Raised
  uncaught : Raised

abbrev pub invalid_client : String → Raised
invalid_client description = oauth (bad_request "invalid_client" description)
