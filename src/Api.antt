-- ===== src/Api.antt =====
-- internal/api: what stands between an HTTP request and the services.
pub mod Idempotency
pub mod Errors
pub mod Access
pub mod Exchange
pub mod Handlers
pub mod Router
