-- ===== src/Services/AuthorizeResponse.antt =====
-- services/authorize_response.py: the mode of an authorization response and its parameters. The
-- texts of a redirect and of a form are left out.
use python_oauth2_server.Prelude.{
  String, Bool, true, not, Option, none, some, List, [], Result, ok, guard, require, if◌then◌else◌,
  ◌==◌, ◌∷◌, ◌++◌, ◌>>=◌, ◌>>◌,
}
use python_oauth2_server.Errors.{OAuthError, Raised, oauth, uncaught, bad_request}
use python_oauth2_server.Services.Resource.{SplitResult}

pub data ResponseMode : Type 0 where
  query fragment form_post : ResponseMode

abbrev pub default_mode : Bool → ResponseMode
default_mode hybrid = if hybrid then fragment else query

abbrev pub known_mode : String → Option ResponseMode
known_mode s =
    if s == "query"
    then some query
    else if s == "form_post"
    then some form_post
    else if s == "fragment"
    then some fragment
    else none

abbrev pub mode_allowed : ResponseMode → Bool → Bool
mode_allowed query hybrid = not hybrid
mode_allowed _ hybrid = true

unfoldable pub resolve_response_mode : Option String → Bool → Result OAuthError ResponseMode
resolve_response_mode none hybrid = ok (default_mode hybrid)
resolve_response_mode (some requested) hybrid = do
  mode ← require (known_mode requested) (
      bad_request "invalid_request"
        "Unsupported response_mode; supported values: query, form_post, fragment")
  guard (mode_allowed mode hybrid) (
      bad_request "invalid_request"
        "response_mode=query is not allowed for response_type=code id_token")
  ok mode

-- What is sent to the client: the mode, the target and the parameters that are there.
pub record Delivery : Type 0 where
  pub mode : ResponseMode
  pub redirect_uri : String
  pub params : List (String × String)

-- `_present`
unfoldable pub present : List (String × Option String) → List (String × String)
present [] = []
present ((key, none) ∷ pairs) = present pairs
present ((key, some value) ∷ pairs) = (key, value) ∷ present pairs

-- A target with a fragment is refused.
unfoldable pub deliver :
    (String → Option SplitResult)
    → ResponseMode
    → String
    → List (String × Option String)
    → Result Raised Delivery
unfolding present
deliver urlsplit mode redirect_uri pairs = do
  split ← require (urlsplit redirect_uri) uncaught
  guard (split.fragment == "")
      (oauth (bad_request "invalid_request" "redirect_uri must not contain a fragment"))
  ok (record { mode = mode; redirect_uri = redirect_uri; params = present pairs })

-- The parameters after the first ones, in the order of the mode.
abbrev pub closing : ResponseMode → Option String → String → List (String × Option String)
closing query state iss = ("state", state) ∷ ("iss", some iss) ∷ []
closing _ state iss = ("iss", some iss) ∷ ("state", state) ∷ []

unfoldable pub success_response :
    (String → Option SplitResult)
    → ResponseMode
    → String
    → String
    → Option String
    → String
    → Option String
    → Result Raised Delivery
unfolding deliver
success_response urlsplit mode redirect_uri code state iss id_token =
    deliver urlsplit mode redirect_uri
      (("code", some code) ∷ closing mode state iss ++ ("id_token", id_token) ∷ [])

unfoldable pub error_response :
    (String → Option SplitResult)
    → ResponseMode
    → String
    → String
    → Option String
    → Option String
    → String
    → Result Raised Delivery
unfolding deliver
error_response urlsplit mode redirect_uri error description state iss =
    deliver urlsplit mode redirect_uri
      (("error", some error) ∷ ("error_description", description) ∷ closing mode state iss)
