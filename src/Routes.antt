-- ===== src/Routes.antt =====
-- routes/: the handlers of the endpoints.
pub mod Token
pub mod Authorize
pub mod Introspect
pub mod Revoke
