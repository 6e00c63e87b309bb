-- ===== src/Routes/Authorize/Respond.antt =====
-- routes/authorize.py: the handler, from the query to what is sent.
use python_oauth2_server.Prelude.{
  elem, ℕ, suc, String, Bool, Option, none, some, List, [], Result, ok, err, if◌then◌else◌, ◌&&◌,
  ◌∷◌, ◌++◌, ◌>>=◌,
}
use python_oauth2_server.Errors.{Raised, oauth, uncaught, text}
use python_oauth2_server.Models.{Client, AuthorizationCode}
use python_oauth2_server.Services.Par
use python_oauth2_server.Services.Par.{ParStore, ParEntry}
use python_oauth2_server.Services.Scope.{split}
use python_oauth2_server.Services.Auth.{Drawn, CodeRequest, issue_code}
use python_oauth2_server.Services.AuthorizeResponse.{Delivery, success_response, error_response}
use python_oauth2_server.Routes.Authorize.{
  Library, Config, State, Params, Target, Refusal, page, sent, login, crash, Outcome, error_page,
  delivered, to_login, crashed, error_of,
}
use python_oauth2_server.Routes.Authorize.Request.{
  value_of, has_duplicate, merge, check_entry, check_client, check_object, check_target, is_hybrid,
  response_type_of,
}
use python_oauth2_server.Routes.Authorize.Checks.{check_grant, check_login}

-- What passed the checks.
pub record Checked : Type 0 where
  pub client : Client
  pub merged : Params
  pub target : Target
  pub request : CodeRequest
  pub user_id : String

-- The checks of a request whose pushed entry, if it refers to one, was taken.
unfoldable pub check_request :
    Library → Config → ℕ → Params → Result Refusal Params → State → Result Refusal Checked
unfolding check_client check_object check_target check_grant check_login
check_request lib config now params resolved st = do
  pushed ← resolved
  client ← check_client now params st.storage
  (merged, jar_mode) ← check_object lib client (params "request") pushed
  target ← check_target lib client params merged jar_mode
  request ← check_grant lib config client params merged target
  user_id ← check_login lib now params merged target st.session
  ok (record {
    client = client;
    merged = merged;
    target = target;
    request = request;
    user_id = user_id;
  })

-- A response that cannot be built is an error page.
abbrev pub outcome_of : Result Raised Delivery → Outcome
outcome_of (ok d) = delivered d
outcome_of (err (oauth e)) = error_page e
outcome_of (err uncaught) = crashed

-- The early returns; the login remembers where to return to.
unfoldable pub refuse :
    Library → Config → ℕ → List (String × String) → State → Refusal → State × Outcome
unfolding error_response
refuse lib config now query st (page e) = (st, error_page e)
refuse lib config now query st crash = (st, crashed)
refuse lib config now query st login =
    let session = st.session in
    (
      record st { session = record session { return_to = some (lib.return_to query, now) } },
      to_login,
    )
refuse lib config now query st (sent target error description) = (
  st,
  outcome_of (
      error_response lib.urlsplit target.mode target.redirect_uri error
        (some (lib.describe description)) target.state config.issuer),
)

abbrev pub id_token_of : Library → Client → Bool → AuthorizationCode → Result String (Option String)
id_token_of lib client hybrid code =
    if hybrid && elem "openid" (split code.scope)
    then (do t ← lib.mint_id_token client code.user_id code.scope code.nonce code.code; ok (some t))
    else ok none

abbrev pub answer :
    Library → Config → Target → AuthorizationCode → Result String (Option String) → Outcome
answer lib config target code (err message) =
    error_page (record { error = "server_error"; description = text message; status = 500 })
answer lib config target code (ok id_token) = outcome_of (
    success_response lib.urlsplit target.mode target.redirect_uri code.code target.state
      config.issuer id_token)

-- The code is stored, counted and told.
unfoldable pub issue : Library → Config → Drawn → ℕ → Params → State → Checked → State × Outcome
unfolding issue_code success_response split
issue lib config drawn now params st c =
    let (storage, code) =
      issue_code drawn config.authorization_code_ttl_secs now c.client c.user_id c.request
        st.storage in
    (
      record st {
        storage = storage;
        codes_issued = suc st.codes_issued;
        events =
            st.events
            ++ (record {
              event_type = "authorization_code_created";
              user_id = some c.user_id;
              client_id = c.client.client_id;
              metadata = ("scope", c.request.scope) ∷ ("redirect_uri", c.request.redirect_uri) ∷ [];
            })
              ∷ [];
      },
      answer lib config c.target code
          (id_token_of lib c.client (is_hybrid (response_type_of params c.merged)) code),
    )

abbrev pub after_checks :
    Library
    → Config
    → Drawn
    → ℕ
    → List (String × String)
    → Params
    → State
    → Result Refusal Checked
    → State × Outcome
after_checks lib config drawn now query params st (err r) = refuse lib config now query st r
after_checks lib config drawn now query params st (ok c) = issue lib config drawn now params st c

-- The pushed request is taken out of its store, whoever asks for it.
abbrev pub resolve : ℕ → Params → Option String → State → State × Result Refusal Params
resolve monotonic params none st = (st, ok (merge params none))
resolve monotonic params (some request_uri) st =
    let (store, found) = Par.take st.par_store monotonic request_uri in
    (
      record st { par_store = store },
      do entry ← check_entry params found; ok (merge params (some entry)),
    )

abbrev pub authorize_with :
    Library → Config → Drawn → ℕ → ℕ → List (String × String) → Params → State → State × Outcome
authorize_with lib config drawn monotonic now query params st =
    let (after, resolved) = resolve monotonic params (params "request_uri") st in
    after_checks lib config drawn now query params after
      (check_request lib config now params resolved after)

unfoldable pub authorize :
    Library → Config → Drawn → ℕ → ℕ → List (String × String) → State → State × Outcome
unfolding has_duplicate value_of merge check_entry check_request refuse issue Par.take
authorize lib config drawn monotonic now query st =
    let answered =
      authorize_with lib config drawn monotonic now query (λ key. value_of key query) st in
    if has_duplicate query
    then refuse lib config now query st (error_of "invalid_request" "duplicate query parameter" 400)
    else answered
