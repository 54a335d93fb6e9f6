-- ===== src/Safety.antt =====
-- services/dba-mcp/src/safety.ts: the guards that every user statement passes.
pub mod Lexer
pub mod Patterns
pub mod Guard
