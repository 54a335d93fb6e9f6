-- ===== src/Cmdlets/Tests.antt =====
-- Commands at the gate, and its theorem at one.
use mssql_data_api.Prelude.{◌≡◌, refl, false, none, some}
use mssql_data_api.Prelude.Text.{codes}
use mssql_data_api.Prelude.Regex.{test}
use mssql_data_api.Cmdlets.{
  assert_read_only_command, call_dbatools, dbatools_first, forbidden_principal, writes_backup_copy,
  not_allowed, over_http, refuses, readonly_dba, forbidden_principal_cmd, is_http,
}

gate_tests :
    (assert_read_only_command (codes "Set-DbaLogin") ≡ some forbidden_principal)
    × (assert_read_only_command (codes "remove-dbadbrolemember") ≡ some forbidden_principal)
    × (assert_read_only_command (codes "Test-DbaLastBackup") ≡ some writes_backup_copy)
    × (assert_read_only_command (codes "get-DbaDatabase") ≡ some not_allowed)
    × (assert_read_only_command (codes "Get-DbaDatabase; x") ≡ some not_allowed)
    × (assert_read_only_command (codes "Invoke-DbaDiagnosticQuery") ≡ none)
    × (call_dbatools (some (codes "HTTP")) (codes "Get-DbaDatabase") ≡ refuses over_http)
    × (dbatools_first none (some (codes "false")) ≡ false)
unfolding assert_read_only_command call_dbatools dbatools_first test readonly_dba
    forbidden_principal_cmd is_http
gate_tests = (refl, refl, refl, refl, refl, refl, refl, refl)
