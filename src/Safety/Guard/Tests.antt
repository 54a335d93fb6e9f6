-- ===== src/Safety/Guard/Tests.antt =====
-- Runs of the two guards, and the theorems at concrete statements.
use mssql_data_api.Prelude.{◌≡◌, refl, ◌≤◌, true, false, List, [], ◌∷◌, length}
use mssql_data_api.Prelude.Text.{Text, codes, trim}
use mssql_data_api.Prelude.Regex.{test, keyword}
use mssql_data_api.Prelude.Regex.Words.{IsWordIn}
use mssql_data_api.Safety.Lexer.{strip_noise}
use mssql_data_api.Safety.Patterns.{
  begins_with, read_starts, write_starts, read_blocked, write_blocked, bare_cr, update_set,
  delete_from,
}
use mssql_data_api.Safety.Guard.{
  valid, invalid, blocked, large_scan, unfiltered_delete, clean, first_blocked, is_bounded, touches,
  sensitive_re, sensitive_tables, validate_query, validate_write_query,
}
use mssql_data_api.Safety.Guard.Parts.{HasNone, HasNoBareReturn, BeginsWith, words_of}
use mssql_data_api.Safety.Guard.Reads.{read_groups, validate_query-shape, validate_query-HasNone}
use mssql_data_api.Safety.Guard.Writes.{write_groups, validate_write_query-HasNone}

guards : Unit {0}
unfolding test keyword strip_noise trim validate_query validate_write_query clean first_blocked
    is_bounded touches sensitive_re sensitive_tables bare_cr begins_with read_blocked write_blocked
    update_set delete_from
guards = tt

abbrev tables : List Text
tables = codes "messageLog" ∷ []

read_tests :
    (validate_query tables (codes "SELECT updated_at FROM dbo.T -- DROP TABLE x") false ≡ valid)
    × (validate_query tables (codes "SELECT 'DROP TABLE x'") false ≡ valid)
    × (validate_query tables (codes "SELECT 1; drop table x") false
        ≡ invalid (blocked "CREATE/ALTER/DROP — not a read"))
    × (validate_query tables (codes "DECLARE @x INT EXEC('ALTER y')") false
        ≡ invalid (blocked "EXEC / EXECUTE — not a read; use the built-in tool for that procedure"))
    × (validate_query tables (codes "SELECT COUNT(*) FROM [msg].[MessageLog]") false
        ≡ invalid large_scan)
    × (validate_query tables (codes "SELECT TOP 5 * FROM [msg].[MessageLog]") false ≡ valid)
unfolding guards
read_tests = (refl, refl, refl, refl, refl, refl)

write_tests :
    (validate_write_query (codes "DELETE FROM dbo.T") false ≡ invalid unfiltered_delete)
    × (validate_write_query (codes "DELETE FROM dbo.T WHERE id = 1") false ≡ valid)
    × (validate_write_query (codes "DELETE FROM dbo.T") true ≡ valid)
    × (validate_write_query (codes "EXEC msdb.dbo.p") false
        ≡ invalid (blocked "msdb (backups / SQL Agent jobs) is off-limits to writes"))
unfolding guards
write_tests = (refl, refl, refl, refl)

-- A delimited name hides an UPDATE, a DELETE or a MERGE from the patterns of the read guard, and
-- a double-quoted name hides an unfiltered one from those of the write guard.
delimited_names_pass :
    (validate_query tables (codes "DECLARE @x INT UPDATE [dbo].[T] SET a = 1") false ≡ valid)
    × (validate_query tables (codes "DECLARE @x INT DELETE [dbo].[T]") false ≡ valid)
    × (validate_query tables (codes "WITH c AS (SELECT 1 AS a) MERGE [T] USING c ON 1 = 1") false
        ≡ valid)
    × (validate_write_query (codes "UPDATE \"T\" SET a = 1") false ≡ valid)
    × (validate_write_query (codes "UPDATE [my table] SET a = 1") false ≡ valid)
    × (validate_write_query (codes "DELETE \"T\"") false ≡ valid)
unfolding guards
delimited_names_pass = (refl, refl, refl, refl, refl, refl)

abbrev read : Text
read = codes "SELECT TOP 5 * FROM [msg].[MessageLog]"

abbrev write : Text
write = codes "DELETE FROM dbo.T WHERE id = 1"

read_accepted : validate_query tables read false ≡ valid
unfolding guards
read_accepted = refl

write_accepted : validate_write_query write false ≡ valid
unfolding guards
write_accepted = refl

reads_the_table : IsWordIn (codes "messageLog") (clean read)
unfolding guards
reads_the_table = record {
  before = codes "SELECT TOP 5 * FROM [msg].[";
  mid = codes "MessageLog";
  after = codes "]";
  parts = refl;
  spelled = refl;
  open_left = refl;
  open_right = refl;
}

delete_found : test delete_from (clean write) ≡ true
unfolding guards
delete_found = refl

validate_query-shape_example :
    (length read ≤ 20000) × HasNoBareReturn read × BeginsWith read_starts (clean read)
validate_query-shape_example = validate_query-shape tables read false read_accepted

validate_query-HasNone_example : HasNone (words_of read_groups) (clean read)
validate_query-HasNone_example = validate_query-HasNone tables read false read_accepted

validate_write_query-HasNone_example :
    (length write ≤ 20000)
    × HasNoBareReturn write
    × BeginsWith write_starts (clean write)
    × HasNone (words_of write_groups) (clean write)
validate_write_query-HasNone_example = validate_write_query-HasNone write false write_accepted
