-- ===== src/Services.antt =====
-- src/oauth2_server/services: the in-process stores and the services of the server.
pub mod EventsBus
pub mod JwksCache
pub mod Jwt
pub mod Clients
pub mod Expiry
pub mod Limits
pub mod Resource
pub mod Rar
pub mod Tokens
pub mod Scope
pub mod RateLimit
pub mod Limiter
pub mod Par
pub mod DevicePoll
pub mod Dpop
pub mod DpopNonce
pub mod JwtBearer
pub mod Auth
pub mod AuthorizeResponse
pub mod Events
pub mod ClientAssertion
pub mod Resilience
