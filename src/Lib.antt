-- ===== src/Lib.antt =====
-- A model of an OAuth 2.0 authorization server in Python: the authorize, token, introspection and
-- revocation endpoints with the rows they read and write, the authentication of clients, the
-- in-process stores and limiters beside them, and the middleware that sheds load.
--
-- The token endpoint (src/oauth2_server/routes/token.py) is one handler with a branch for each
-- grant. Each branch is a module of Routes.Token: Code (authorization_code), Refresh
-- (refresh_token), Device (device_code), Credentials (client_credentials), Exchange (token
-- exchange) and Bearer (jwt-bearer); Endpoint is what comes before: the authentication of the
-- client, the DPoP proof and nonce, and the dispatch on grant_type. A branch is split where it
-- stops to read and starts to write: `check_…` is the guards in their order, which change
-- nothing, as a chain that raises a `Refusal`; `claim_…`, `rotate` and `issue_…` are the
-- statements after them, on the state `AppState` (the store, the device poll tracker, the limiter
-- of failed authentications, two counters and the events that were emitted). `refuse` is what the
-- handler does on an early return. Claiming a code takes the store as it is then, which other
-- requests may have changed since the checks.
--   Routes.Token           the state, the responses, and what the grants share
--   Routes.Token.Issued    the row and the response of an issued token
--   Routes.Authorize       routes/authorize.py: the request (Request), the guards (Checks), the
--                          answer (Respond) and the code that a consented request issues
--   Routes.Introspect, Routes.Revoke
--                          the two handlers of routes/introspect.py
--   Services.Auth          services/auth.py; Services.AuthorizeResponse its response modes
--   Services.Clients       services/clients.py: authenticate, with a module for each method
--   Services.JwksCache     services/jwks_cache.py
--   Services.JwtBearer     services/jwt_bearer_grant.py
--   Services.DpopNonce     services/dpop_nonce.py
--   Services.Jwt           the parts of PyJWT that the services call, as a record of parameters
--   Services.Tokens        services/tokens.py and Claims.new of models.py
--   Services.Resource, Services.Rar, Services.Limits, Services.Scope
--                          the parameters resource, authorization_details and scope
--   Storage                storage/sql.py: tables are lists of rows, UPDATE changes the rows that its
--                          WHERE selects, rowcount is their number
--   Storage.Clients, Storage.Users, Storage.Issuers, Storage.Denylist
--                          the statements on the other tables, and check_subject_denylisted of
--                          middleware.py
--   Keys                   keys.py: the set of signing keys, its rotation and pruning
--   Models, Errors, Json   models.py, errors.py and JSON values
--   Services.Par, Services.DevicePoll, Services.Dpop, Services.ClientAssertion
--                          the stores of pushed requests, of polls and of replayed identifiers, and the
--                          validation of a DPoP proof (Dpop.Proof) and of a client assertion
--                          (ClientAssertion.Verify)
--   Services.RateLimit, Services.Limiter
--                          the fixed window of logins and the token bucket
--   Services.Events        the ring of recent events
--   Services.Resilience    services/resilience.py: the circuit breaker and the concurrency limiter
--   Middleware.Resilience  middleware_ratelimit.py, ResilienceMiddleware: requests enter and leave
--   Middleware.RateLimit   middleware_ratelimit.py, RateLimitMiddleware: requests at the token bucket
--   Dict, Clock, Strings, Prelude
--                          Python's dict with text keys, instants, methods of str, and shared names
--   Tests                  the theorems at concrete inputs
--
-- Paths above are those under src/oauth2_server. Every operation that the source runs without an
-- await is one step here; the store's statements are one step each. Instants are nanoseconds, the
-- monotonic clock and that of the wall are arguments, and so is what `secrets` and `uuid` draw. The
-- token bucket counts in exact fractions of a token where the source has floats, so that what is
-- said of it leaves their rounding out. The loop of
-- check_depth has fuel, one more than the nodes of the value, each of which it visits once.
--
-- Parameters, since their code is not here or is not modelled: PyJWT and the keys of cryptography,
-- base64 and its URL-safe form, sha256 and HMAC, unquote, json.loads, urlsplit and urlparse, the
-- lower and casefold of str, the answer of an HTTP fetch, the processing of a request object, the
-- signing of an access token with the key that the server chooses, and the minting of an ID token.
-- A call that can raise returns what it raises: `uncaught` is an exception that nothing catches, so
-- that the request ends in an internal error.
--
-- Not modelled: client registration and the checks of a registered redirect URI, request objects,
-- claims requests and ID tokens beyond the calls of them, the signed form of an introspection
-- answer, the making and publication of keys, the login, logout, discovery, device verification,
-- social and admin endpoints, the other storage backends and the listing pages, the event bus,
-- metrics, configuration and application wiring; in ResilienceMiddleware, exempt paths.
pub mod Clock
pub mod Dict
pub mod Errors
pub mod Json
pub mod Keys
pub mod Middleware
pub mod Models
pub mod Prelude
pub mod Routes
pub mod Services
pub mod Storage
pub mod Strings
pub mod Tests
