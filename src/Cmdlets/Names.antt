-- ===== src/Cmdlets/Names.antt =====
-- Which commands of services/dba-mcp/src/dbatools.ts reach the PowerShell worker.
use mssql_data_api.Prelude.{ℕ, String, ◌≡◌, List, ◌∷◌, ◌++◌}
use mathlib.Core.List.{Memᴰ}
use mssql_data_api.Prelude.Text.{Text, codes}
use mssql_data_api.Prelude.Regex.Inversion.{AllChars}
use mssql_data_api.Cmdlets.{is_alnum, read_verbs}

-- `Verb-Dba`, and letters or digits, one at least.
pub record IsReadOnly (name : Text) : Type 0 where
  pub verb : String
  pub first : ℕ
  pub rest : Text
  pub listed : Memᴰ verb read_verbs
  pub parts : name ≡ codes verb ++ (codes "-Dba" ++ (first ∷ rest))
  pub plain : AllChars is_alnum (first ∷ rest)
