-- ===== src/Cmdlets.antt =====
-- The gate before the PowerShell worker: `assertReadOnlyCommand` and `callDbatools` of
-- services/dba-mcp/src/dbatools.ts, and the choice between dbatools and the DMV queries of
-- services/dba-mcp/src/dbatoolsFirst.ts.
pub mod Names
mod Tests
use mssql_data_api.Prelude.{
  ℕ, ◌+◌, String, ◌==◌, Bool, true, false, not, ◌&&◌, ◌||◌, Option, none, some, List, [], ◌∷◌,
  if◌then◌else◌, map,
}
use mssql_data_api.Prelude.Text.{Text, codes, eq_text, is_upper, is_lower, is_digit}
use mssql_data_api.Prelude.Regex.{
  Regex, empty, one, many, ◌⋆◌, ◌∣∣◌, start, finish, word, one_of, some_of, test,
}

-- A text as it is, without the `i` flag.
unfoldable pub exact : Text → Regex
exact [] = empty
exact (c ∷ s) = one (λ d. d == c) ⋆ exact s

unfoldable pub any_exact : List String → Regex
unfolding exact
any_exact [] = one (λ c. false)
any_exact (k ∷ []) = exact (codes k)
any_exact (k ∷ j ∷ l) = exact (codes k) ∣∣ any_exact (j ∷ l)

abbrev pub is_alnum : ℕ → Bool
is_alnum c = is_upper c || is_lower c || is_digit c

-- `.` matches no line end.
abbrev pub in_line : ℕ → Bool
in_line c = not (c == 10 || c == 13 || c == 0x2028 || c == 0x2029)

abbrev pub read_verbs : List String
read_verbs = "Get" ∷ "Test" ∷ "Measure" ∷ "Find" ∷ []

abbrev pub change_verbs : List String
change_verbs =
    "Set" ∷ "Disable" ∷ "Enable" ∷ "New" ∷ "Remove" ∷ "Add" ∷ "Rename" ∷ "Grant" ∷ "Revoke" ∷ []

unfoldable pub readonly_dba : Regex
unfolding any_exact exact
readonly_dba = start ⋆ any_exact read_verbs ⋆ exact (codes "-Dba") ⋆ some_of is_alnum ⋆ finish

unfoldable pub forbidden_principal_cmd : Regex
unfolding one_of word
forbidden_principal_cmd =
    start
    ⋆ one_of change_verbs
    ⋆ word "-Dba"
    ⋆ (word "Login"
        ∣∣ word "User"
        ∣∣ word "Credential"
        ∣∣ many in_line ⋆ word "Role" ⋆ many in_line
        ∣∣ word "ServerRole" ⋆ many in_line)

abbrev pub extra_allowed : Text
extra_allowed = codes "Invoke-DbaDiagnosticQuery"

abbrev pub denied : Text
denied = codes "Test-DbaLastBackup"

pub data Refusal : Type 0 where
  forbidden_principal : Refusal
  writes_backup_copy : Refusal
  not_allowed : Refusal
  over_http : Refusal

-- `none` where the source returns, and the error it throws otherwise.
unfoldable pub assert_read_only_command : Text → Option Refusal
assert_read_only_command name =
    if test forbidden_principal_cmd name
    then some forbidden_principal
    else if eq_text name denied
    then some writes_backup_copy
    else if not (test readonly_dba name) && not (eq_text name extra_allowed)
    then some not_allowed
    else none

-- `(process.env.MCP_TRANSPORT ?? "stdio").toLowerCase() === "http"`
abbrev lower : ℕ → ℕ
lower c = if is_upper c then c + 32 else c

unfoldable pub is_http : Option Text → Bool
is_http none = false
is_http (some t) = eq_text (map lower t) (codes "http")

-- The command that reaches the worker, or the error.
pub data Dispatch : Type 0 where
  refuses : Refusal → Dispatch
  reaches_worker : Text → Dispatch

abbrev or_refused : Option Refusal → Dispatch → Dispatch
or_refused none d = d
or_refused (some r) d = refuses r

unfoldable pub call_dbatools : Option Text → Text → Dispatch
unfolding assert_read_only_command is_http
call_dbatools transport cmd =
    or_refused (assert_read_only_command cmd)
      (if is_http transport then refuses over_http else reaches_worker cmd)

unfoldable pub dbatools_first : Option Text → Option Text → Bool
unfolding is_http
dbatools_first transport none = false
dbatools_first transport (some flag) = if is_http transport then false else eq_text flag (codes "1")

-- `withFallback` with the outcome of each path, none if it throws; and which paths ran.
unfoldable pub with_fallback : {A : Type 0} → Bool → Option A → Option A → Option A × List Bool
with_fallback false dbatools dmv = (dmv, false ∷ [])
with_fallback true (some a) dmv = (some a, true ∷ [])
with_fallback true none dmv = (dmv, true ∷ false ∷ [])
