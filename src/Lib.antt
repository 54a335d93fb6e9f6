-- ===== src/Lib.antt =====
-- A model of services/dba-mcp, the MCP server that lets an assistant read SQL Server instances,
-- with the theorems that make its guards and its PowerShell worker correct.
--
-- Tool handlers pass user SQL through the guards of services/dba-mcp/src/safety.ts before a
-- connection runs it; tools that need dbatools call a worker that feeds one PowerShell process.
--
-- Safety is services/dba-mcp/src/safety.ts. Safety/Lexer is `stripNoise`: `strip_noise`, with
-- `token` for one round of its loop. The length of the query is fuel enough, since every round
-- takes a character at least (`strip_from_fuel` of Safety/Lexer/Steps). Safety/Patterns has the
-- two pattern lists in their order, as data of Prelude/Regex, which has the part of the JavaScript
-- regular expressions they use: `run` tries the alternatives, and Prelude/Regex/Laws relates it to
-- the matches that a pattern describes. Safety/Guard is `validateQuery` and `validateWriteQuery`,
-- with every early return in order. A text is a list of UTF-16 code units, so that its length is
-- JavaScript's.
--
-- Worker is services/dba-mcp/src/pwshWorker.ts: the record `Worker` has the fields of the class,
-- processes are numbered, and each method gives the new state and the effects in order. Worker/Lines is
-- `onData`, Worker/Histories makes the methods and listeners the events of a history, in any order,
-- and `call` is two of them since it awaits `start`. Worker/Pending is the map of waiting calls.
--
-- Queries is the part of services/dba-mcp/src/connectionManager.ts behind the connection pool:
-- `applyRowLimit`, `capRows`, `finishQuery`, `queryInstance` and the notices that
-- `attachCatalogFallbacks` puts before a tool's output; Queries/Writing is `executeWrite`. What the
-- server and the driver answer is a parameter.
--
-- Primary is `resolveRegionPrimary` of the same file, with `getServerName` and the caches of both.
--
-- Cmdlets is the gate before the worker: `assertReadOnlyCommand` and `callDbatools` of
-- services/dba-mcp/src/dbatools.ts, and services/dba-mcp/src/dbatoolsFirst.ts.
--
-- Scripts is `runPowerShell` of the same file, with the events of its process and its timer in any order;
-- what a write of the script that throws leaves in the file is left out.
--
-- Report is the scoring of the health report of services/dba-mcp/src/dbatools.ts: `toFinding`,
-- `scoreFindings`, and in Report/Coverage `coverageOf` and `isDegraded`.
--
-- Report/Inventory is `inventoryOf` of the same file and Report/Drift the comparison of the Agent jobs of
-- AG partners, `applyReplicaJobDrift`, with `runHealthReport` around it in Report/Drift/Applied; `drifts` of
-- Report/Drift/Verdicts says without the code when two nodes differ in a job.
--
-- Report/Details is some of the words of a report, given by what they interpolate: the suspect pages and
-- the owners of databases of `describe`, and `triageOf`; Report/Html is `esc` and `prose`.
--
-- Settings is the site settings of the same file: the capacity baseline, the core databases, the disk
-- rule and the logins; Settings/Conformance is `parseConformanceBaseline`, Settings/Paths is
-- `parseHostDllWatchlist` and `hostDllProbe`. Prelude/Json has the values of `JSON.parse`, and JavaScript's
-- own functions as the parameter `Runtime`.
--
-- DumpPaths is services/dba-mcp/src/dumpPaths.ts; its theorem rests on Safety/Lexer/Templates, on SQL text
-- that is put together from code and quoted values.
--
-- Http is services/dba-mcp/src/index.ts: Http/Limiter the rate limit of /mcp, Http/Sessions the handlers
-- of POST, GET and DELETE, with the SDK's transport given by what it does.
--
-- Auth is services/dba-mcp/src/auth.ts with the guard that services/dba-mcp/src/index.ts makes of it, up
-- to the context of a request, which Pools reads; `jwtVerify` is a parameter.
--
-- Credentials is services/dba-mcp/src/credentialPolicy.ts, services/dba-mcp/src/credentialStore.ts
-- (Credentials/Store) and the credentials of services/dba-mcp/src/connectionManager.ts with their
-- memo (Credentials/Memo): the getters that `normalize` defines are the functions `user` and
-- `password`, and every access reads the store as it is at that time.
--
-- Pools is `getPool` of the same file: Pools/Login up to the options of the connection, Pools/Table
-- from there on, with the callbacks as events, so that calls overlap in any way; Pools/Errors the
-- reading of the driver's errors, with 7 as fuel for a depth of at most 6; Pools/Tls the posture on
-- certificates; Pools/Obo the tokens of Entra. Prelude/Dict is JavaScript's `Map` with string keys.
--
-- Tools is the tools of services/dba-mcp/src/tools.ts that run the SQL of a caller: `execute_query`,
-- `fan_out_query` and `execute_write`, from the guards of Safety through `queryInstance` of Queries and
-- `executeWrite` of Queries/Writing to the banner of the notices, with the list of what each has an
-- instance run: for a write, the calls on its transaction. The notices of a fan-out come in the order of the targets; when the instances answer
-- in another order, the code's may too. Tools/Checks is the escaping and the checks that tools share.
--
-- ReportCli is services/dba-mcp/src/reportCli.ts: ReportCli/Flags `parseFlags`, ReportCli/Verdicts the
-- verdict and the subject of the mail, and the module itself the choice of instances and the delivery.
--
-- SchemaDocs is services/dba-mcp/src/schemaDocs.ts: `describeDocObject` with the cache of files that
-- it passes on, where a file that could not be read is null for good, and in SchemaDocs/Searching
-- `searchSchemaDocs`, whose hits carry a flag that the limit is reached where the source returns at
-- once.
--
-- ImportDocs is scripts/import-schema-docs.mjs, from the documents that were read to the descriptions.
--
-- Not modelled: the text of the SQL, of the scripts and of messages beyond what they interpolate;
-- `JSON.parse`, which is a parameter; timers, which are events at any time; the tools that send fixed
-- SQL; case folding beyond ASCII letters, which no built-in pattern has.
pub mod Auth
pub mod Cmdlets
pub mod Credentials
pub mod DumpPaths
pub mod Http
pub mod ImportDocs
pub mod Pools
pub mod Prelude
pub mod Primary
pub mod Queries
pub mod Report
pub mod ReportCli
pub mod Safety
pub mod SchemaDocs
pub mod Scripts
pub mod Settings
pub mod Tools
pub mod Worker
