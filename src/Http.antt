-- ===== src/Http.antt =====
-- The HTTP transport of services/dba-mcp/src/index.ts (`startHttp`). Limiter is the rate limit of
-- /mcp, Windows and Retries its theorems, Sessions the handlers of POST, GET and DELETE.
pub mod Limiter
mod Windows
mod Retries
pub mod Sessions
mod Routing
mod Deleted
mod Tests
