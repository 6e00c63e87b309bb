-- ===== src/Routes/Token/Endpoint/Laws.antt =====
-- routes/token.py: who gets tokens.
use Prim.Native.String.{◌++◌ as append}
use python_oauth2_server.Prelude.{
  String, Bool, true, false, not, Option, none, some, Result, ok, err, ◌≡◌,
}
use python_oauth2_server.Models.{Client}
use python_oauth2_server.Json.{Fields}
use python_oauth2_server.Services.Dpop.{DpopValidated, DpopReplayStore, check_and_insert}
use python_oauth2_server.Services.Dpop.Once.{Fresh}
use python_oauth2_server.Services.Dpop.Proof
use python_oauth2_server.Services.DpopNonce
use python_oauth2_server.Services.DpopNonce.{demanded as nonce_demanded, verify, Demand, met}
use python_oauth2_server.Services.Clients.Laws.{Identified}
use python_oauth2_server.Services.Clients.Methods.{Proved}
use python_oauth2_server.Strings.{rstrip_slash}
use python_oauth2_server.Routes.Token.{AppState, Response, granted, exchanged}
use python_oauth2_server.Routes.Token.Endpoint.{
  Libraries, Request, Env, DpopHeader, missing, proof, demanded, service_of, call_of, token,
}
use python_oauth2_server.Routes.Token.Endpoint.Handled.{Binding, Handled}

-- The answers that carry tokens.
abbrev pub issues : Response → Bool
issues (granted r n) = true
issues (exchanged r a n) = true
issues _ = false

abbrev pub is_met : Demand → Bool
is_met met = true
is_met _ = false

-- The nonce of a proof, where it is required, is one of the server that is not stale.
abbrev pub NonceGiven : Env → Bool → Option String → Type 0
NonceGiven env false given = Unit {0}
NonceGiven env true given =
    (n : String) × (given ≡ some n) × (verify env.nonce_issuer env.call.wall n ≡ ok tt)

-- What is known of the DPoP proof of a request: there is none, or it is valid, not seen before and,
-- where the client is registered so, has a nonce of the server.
pub data ProvesKey (lib : Proof.Library) (env : Env) (client : Client) (replay : DpopReplayStore)
    : DpopHeader → Option DpopValidated → Type 0 where
  unbound : ProvesKey lib env client replay missing none
  bound :
      (header jti : String) (v : DpopValidated)
      → Fresh lib env.call.wall header "post"
          (append (rstrip_slash env.config.issuer) "/oauth/token")
          none
          v
          jti
      → (check_and_insert replay env.call.later jti).1 ≡ none
      → NonceGiven env client.dpop_nonce_required v.nonce
      → ProvesKey lib env client replay (proof header) (some v)

-- The grant of a request that is answered with tokens, its client and its proof.
pub record Granted (libs : Libraries) (env : Env) (request : Request) (name : String)
    (st : AppState) : Type 0 where
  pub client : Client
  pub s : Option String
  pub proved : Option DpopValidated
  pub before : AppState
  pub identified :
      Identified libs.clients env.call.wall request.form request.authorization st.storage client s
  pub authenticated :
      Proved libs.clients
        (call_of env)
        request.form
        request.mtls.0
        request.mtls.1
        client
        s
        (service_of env st)
  pub key : ProvesKey libs.dpop env client st.dpop_replay request.dpop proved
  pub same_storage : before.storage ≡ st.storage
  pub same_polls : before.device_poll ≡ st.device_poll
  pub cnf : Option Fields
  pub binding : Binding proved request.mtls.0 cnf
  pub handled : Handled libs env request client proved before name cnf (token libs env request st)

-- An early answer carries no tokens.
abbrev is_silent : Result Response (Option DpopValidated) → Bool
is_silent (err answer) = not (issues answer)
is_silent (ok p) = true
