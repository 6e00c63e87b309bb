-- ===== src/Tests.antt =====
-- The theorems at concrete inputs.
mod Stores
mod Limiters
mod Server
mod Clients
mod Fixtures
mod Endpoints
mod Access
mod Bearer
mod Grants
mod Keys
