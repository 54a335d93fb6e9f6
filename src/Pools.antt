-- ===== src/Pools.antt =====
-- The connection pools of services/dba-mcp/src/connectionManager.ts: Errors reads what the driver
-- throws, Tls is the policy on certificates, Login the identity of a caller and the plan of a
-- connection (the first half of `getPool`), Table the second half, the pools that are kept and
-- the callbacks.
pub mod Errors
pub mod Tls
pub mod Login
pub mod Table
pub mod Obo
mod Keys
mod Identities
mod Sharing
mod Fallbacks
mod Tests
