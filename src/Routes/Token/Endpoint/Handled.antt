-- ===== src/Routes/Token/Endpoint/Handled.antt =====
-- routes/token.py: the handler of each grant, and what its tokens are bound to.
use python_oauth2_server.Prelude.{
  eq_iff, String, refl, ap, Bool, true, false, Option, none, some, if◌then◌else◌, ◌≡◌, ◌∙◌,
}
use python_oauth2_server.Models.{Client}
use python_oauth2_server.Json.{Fields, str, field, end}
use python_oauth2_server.Routes.Token.Code.{redeem_code}
use python_oauth2_server.Routes.Token.Refresh.{refresh}
use python_oauth2_server.Routes.Token.Device.{redeem_device}
use python_oauth2_server.Routes.Token.Credentials.{client_credentials}
use python_oauth2_server.Routes.Token.Exchange.{token_exchange}
use python_oauth2_server.Routes.Token.Bearer.{jwt_bearer}
use python_oauth2_server.Services.Dpop.{DpopValidated}
use python_oauth2_server.Routes.Token.{AppState, Response, cnf_of}
use python_oauth2_server.Routes.Token.Endpoint.{
  Libraries, Request, Env, GrantType, authorization_code, refresh_token, device_code, credentials,
  exchange, bearer, known_grant_type, grant,
}

-- What the tokens of a request are bound to: the key of its proof, or else its certificate.
pub data Binding : Option DpopValidated → Option String → Option Fields → Type 0 where
  to_key :
      (v : DpopValidated) (thumbprint : Option String)
      → Binding (some v) thumbprint (some (field "jkt" (str v.jkt) end))
  to_certificate :
      (thumbprint : String)
      → Binding none (some thumbprint) (some (field "x5t#S256" (str thumbprint) end))
  to_nothing : Binding none none none

-- The handler of the grant of a name, and what it answers.
pub data Handled (libs : Libraries) (env : Env) (request : Request) (client : Client)
    (proved : Option DpopValidated) (st : AppState)
    : String → Option Fields → AppState × Response → Type 0 where
  of_code :
      (cnf : Option Fields)
      → Handled libs env request client proved st "authorization_code" cnf (
          redeem_code libs.tokens env.config env.fresh env.call.wall client request.form proved cnf
            st)
  of_refresh :
      (cnf : Option Fields)
      → Handled libs env request client proved st "refresh_token" cnf
          (refresh libs.tokens env.config env.fresh env.call.wall client request.form proved st)
  of_device :
      (cnf : Option Fields)
      → Handled libs env request client proved st "urn:ietf:params:oauth:grant-type:device_code" cnf
          (redeem_device libs.tokens env.config env.fresh env.call.monotonic env.call.wall client
            request.form proved st)
  of_credentials :
      (cnf : Option Fields)
      → Handled libs env request client proved st "client_credentials" cnf (
          client_credentials libs.tokens env.config env.fresh env.call.monotonic env.call.wall
            client request.form proved cnf st)
  of_exchange :
      (cnf : Option Fields)
      → Handled libs env request client proved st "urn:ietf:params:oauth:grant-type:token-exchange"
          cnf
          (token_exchange libs.tokens env.config env.fresh env.call.monotonic env.call.wall client
            request.form proved cnf st)
  of_bearer :
      (cnf : Option Fields)
      → Handled libs env request client proved st "urn:ietf:params:oauth:grant-type:jwt-bearer" cnf
          (jwt_bearer libs.tokens libs.bearer env.call env.config env.fresh client request.form
            proved cnf st)

pub cnf_of-Binding :
    (proved : Option DpopValidated) (thumbprint : Option String)
    → Binding proved thumbprint (cnf_of proved thumbprint)
unfolding cnf_of
cnf_of-Binding (some v) thumbprint = to_key v thumbprint
cnf_of-Binding none (some t) = to_certificate t
cnf_of-Binding none none = to_nothing

abbrev pub name_of : GrantType → String
name_of authorization_code = "authorization_code"
name_of refresh_token = "refresh_token"
name_of device_code = "urn:ietf:params:oauth:grant-type:device_code"
name_of credentials = "client_credentials"
name_of exchange = "urn:ietf:params:oauth:grant-type:token-exchange"
name_of bearer = "urn:ietf:params:oauth:grant-type:jwt-bearer"

chosen :
    (b : Bool) (g kind : GrantType) (name : String) (rest : Option GrantType)
    → (b ≡ true → name ≡ name_of g)
    → (rest ≡ some kind → name ≡ name_of kind)
    → (if b then some g else rest) ≡ some kind
    → name ≡ name_of kind
chosen true g kind name rest here later h = let same : g ≡ kind = cc in here refl ∙ ap name_of same
chosen false g kind name rest here later h = later h

pub known_grant_type_lem :
    (name : String) (kind : GrantType) → known_grant_type name ≡ some kind → name ≡ name_of kind
unfolding known_grant_type
known_grant_type_lem name kind = chosen _ authorization_code kind name _ (eq_iff _ _).0 (
    chosen _ credentials kind name _ (eq_iff _ _).0 (
      chosen _ refresh_token kind name _ (eq_iff _ _).0 (
        chosen _ device_code kind name _ (eq_iff _ _).0 (
          chosen _ exchange kind name _ (eq_iff _ _).0
            (chosen _ bearer kind name none (eq_iff _ _).0 (λ e. cc))))))

pub grant-Handled :
    (libs : Libraries) (env : Env) (request : Request) (client : Client) (g : GrantType)
    (proved : Option DpopValidated) (st : AppState)
    → Handled libs env request client proved st
        (name_of g)
        (cnf_of proved request.mtls.0)
        (grant libs env request client g proved st)
unfolding grant
grant-Handled libs env request client authorization_code proved st = of_code _
grant-Handled libs env request client refresh_token proved st = of_refresh _
grant-Handled libs env request client device_code proved st = of_device _
grant-Handled libs env request client credentials proved st = of_credentials _
grant-Handled libs env request client exchange proved st = of_exchange _
grant-Handled libs env request client bearer proved st = of_bearer _
