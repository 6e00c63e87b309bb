-- ===== src/Routes/Revoke.antt =====
-- routes/introspect.py: `POST /oauth/revoke`.
pub mod Laws
use python_oauth2_server.Prelude.{
  truthy, ℕ, suc, String, Bool, Option, none, some, Result, ok, err, if◌then◌else◌, ◌==◌,
}
use python_oauth2_server.Errors.{OAuthError, Raised, oauth, uncaught, oauth_error}
use python_oauth2_server.Models.{Client, Token}
use python_oauth2_server.Storage.{Storage, revoke_token, revoke_token_family}
use python_oauth2_server.Services.Clients.Authenticate.{authenticate}
use python_oauth2_server.Routes.Token.{AppState, log}
use python_oauth2_server.Routes.Token.Endpoint.{
  Libraries, Request, Env, service_of, after_service, call_of,
}
use python_oauth2_server.Routes.Introspect.{lookup_token, token_event}

-- The empty body, which tells nothing of the token; an error; or an exception.
pub data Answer : Type 0 where
  done : Answer
  refused : OAuthError → Answer
  crashed : Answer

-- `metrics.oauth_token_revoked_total` beside the state.
pub record Revoked : Type 0 where
  pub state : AppState
  pub revoked_total : ℕ

-- The family of the row, or the token that is named.
abbrev pub revoke_row : Storage → String → Option String → Storage
revoke_row storage value (some family) = (revoke_token_family storage family).0
revoke_row storage value none = revoke_token storage value

abbrev pub revoke_own : String → Token → Revoked → Revoked
revoke_own value row r =
    let st = r.state in
    record {
      state =
          log (token_event "token_revoked" row)
            (record st { storage = revoke_row st.storage value (truthy row.token_family) });
      revoked_total = suc r.revoked_total;
    }

abbrev pub revoke_found : Client → String → Option (Token × Bool) → Revoked → Revoked
revoke_found client value none r = r
revoke_found client value (some (row, via_refresh)) r =
    if row.client_id == client.client_id then revoke_own value row r else r

-- What an authenticated client revokes with the `token` of its form.
unfoldable pub revoke_for : Client → Option String → Revoked → Revoked
unfolding lookup_token revoke_token revoke_token_family
revoke_for client none r = r
revoke_for client (some value) r = revoke_found client value (lookup_token r.state.storage value) r

abbrev pub after_client : Request → Revoked → Result Raised Client → Revoked × Answer
after_client request r (err uncaught) = (r, crashed)
after_client request r (err (oauth e)) = (r, refused (oauth_error e))
after_client request r (ok client) = (revoke_for client (truthy (request.form "token")) r, done)

unfoldable pub revoke : Libraries → Env → Request → Revoked → Revoked × Answer
unfolding authenticate revoke_for oauth_error
revoke libs env request r =
    let (service, client) =
      authenticate libs.clients (call_of env) request.form request.authorization request.mtls
        (service_of env r.state) in
    after_client request (record r { state = after_service service r.state }) client
