-- ===== src/Worker/Exits.antt =====
-- What the end of a process leaves: `settle` of services/dba-mcp/src/pwshWorker.ts.
use mssql_data_api.Prelude.Text.{Text}
use mssql_data_api.Worker.{Worker}
