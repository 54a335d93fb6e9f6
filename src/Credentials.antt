-- ===== src/Credentials.antt =====
-- The process's own credentials: services/dba-mcp/src/credentialPolicy.ts,
-- services/dba-mcp/src/credentialStore.ts (Store) and the part of
-- services/dba-mcp/src/connectionManager.ts that resolves and keeps them (Memo).
pub mod Store
pub mod Memo
mod Sources
mod Firsts
mod Fleet
mod Silence
mod Tests
