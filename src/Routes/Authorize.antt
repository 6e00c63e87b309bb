-- ===== src/Routes/Authorize.antt =====
-- routes/authorize.py: `GET /oauth/authorize`. The verification of a request object and the ID token
-- of the hybrid flow are parameters.
pub mod Request
pub mod Checks
pub mod Respond
pub mod Facts
pub mod Laws
use python_oauth2_server.Prelude.{ℕ, String, Option, List, Result}
use python_oauth2_server.Json.{Loaded}
use python_oauth2_server.Errors.{Description, text, OAuthError, Raised, oauth, uncaught}
use python_oauth2_server.Models.{Client}
use python_oauth2_server.Storage.{Storage}
use python_oauth2_server.Services.EventsBus.{Event}
use python_oauth2_server.Services.Par.{ParStore}
use python_oauth2_server.Services.Resource.{SplitResult}
use python_oauth2_server.Services.Clients.RedirectUri.{Parsed}
use python_oauth2_server.Services.AuthorizeResponse.{ResponseMode, Delivery}

pub record Session : Type 0 where
  pub user_id : Option String
  pub auth_time : Option ℕ
  pub acr : Option String
  -- where to return after the login, and since when
  pub return_to : Option (String × ℕ)

pub record Library : Type 0 where
  pub json_loads : String → Loaded
  pub loads_texts : String → List String
  pub urlsplit : String → Option SplitResult
  pub urlparse : String → Option Parsed
  -- `process_jar`: the claims of the request object
  pub process_jar : Client → String → Result Raised (List (String × String))
  -- `int(max_age)` for a natural, 0 for a negative number; `none` is `ValueError`
  pub int_of : String → Option ℕ
  -- the text of a description
  pub describe : Description → String
  -- user, scope and code; the error is a `ValueError`
  pub mint_id_token : Client → String → String → Option String → String → Result String String
  -- the path, and the query without what would demand a login again
  pub return_to : List (String × String) → String

pub record Config : Type 0 where
  pub issuer : String
  pub rar_types_supported : List String
  pub authorization_code_ttl_secs : ℕ

pub record State : Type 0 where
  pub storage : Storage
  pub par_store : ParStore
  pub session : Session
  pub codes_issued : ℕ
  pub events : List Event

abbrev pub Params : Type 0
Params = String → Option String

-- Where an error or a code is sent.
pub record Target : Type 0 where
  pub mode : ResponseMode
  pub redirect_uri : String
  pub state : Option String

-- The early answers: an error page, an error that is sent to the client, the login, an exception.
pub data Refusal : Type 0 where
  page : OAuthError → Refusal
  sent : Target → String → Description → Refusal
  login : Refusal
  crash : Refusal

pub data Outcome : Type 0 where
  error_page : OAuthError → Outcome
  delivered : Delivery → Outcome
  to_login : Outcome
  crashed : Outcome

abbrev pub error_of : String → String → ℕ → Refusal
error_of error description status =
    page (record { error = error; description = text description; status = status })

abbrev pub paged : Raised → Refusal
paged (oauth e) = page e
paged uncaught = crash

-- An error of a service that is sent to the client with its own words.
abbrev pub sent_as : Target → Raised → Refusal
sent_as target (oauth e) = sent target e.error e.description
sent_as target uncaught = crash
