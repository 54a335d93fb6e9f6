-- ===== src/DumpPaths.antt =====
-- services/dba-mcp/src/dumpPaths.ts: the directories of a site as T-SQL literals, and the common table
-- expression that they go into.
mod Literals
mod Tests
use mssql_data_api.Prelude.{
  ℕ, Bool, true, false, not, ◌&&◌, ◌||◌, ◌==◌, leb, Option, none, some, List, [], ◌∷◌, ◌++◌, map,
  if◌then◌else◌, length,
}
use mssql_data_api.Prelude.Text.{Text, codes, trim}
use mssql_data_api.Safety.Guard.{split}
use mssql_data_api.Safety.Lexer.Quoting.{double}

abbrev is_separator : ℕ → Bool
is_separator c = c == b'\\' || c == b'/'

abbrev is_blank : Text → Bool
is_blank [] = true
is_blank (c ∷ s) = false

-- `d.replace(/[\\/]+$/, "")`: a separator goes where only separators are behind it.
unfoldable pub strip_end : Text → Text
strip_end [] = []
strip_end (c ∷ s) =
    let rest = strip_end s in if is_separator c && is_blank rest then [] else c ∷ rest

-- The directories that are taken.
unfoldable pub directories : List Text → List Text
unfolding trim strip_end
directories [] = []
directories (d ∷ l) =
    let rest = directories l in
    if not (is_blank (strip_end (trim d))) && leb (length (strip_end (trim d))) 400
    then strip_end (trim d) ∷ rest
    else rest

unfoldable pub literal : Text → Text
unfolding double
literal d = (b'N' ∷ b'\'' ∷ double b'\'' d) ++ b'\'' ∷ []

abbrev pub or_blank : Option Text → Text
or_blank none = []
or_blank (some s) = s

unfoldable pub extra_dump_dir_literals : Option Text → List Text
unfolding directories literal split
extra_dump_dir_literals raw = map literal (directories (split b';' (or_blank raw)))

abbrev pub union_before : Text
union_before = codes " UNION ALL SELECT "

unfoldable pub extra_unions : List Text → Text
extra_unions [] = []
extra_unions (lit ∷ l) = (union_before ++ lit ++ codes ",3") ++ extra_unions l

-- The candidates that the instance itself has.
unfoldable pub own_candidates : Text
own_candidates =
    codes ";WITH cand(dir,pref) AS ("
    ++ codes "SELECT @errDir,0 "
    ++ codes "UNION ALL SELECT @mssql+N'\\Log',1 "
    ++ codes "UNION ALL SELECT f.full_filesystem_path+N'\\MSSQL\\Log',2 "
    ++ codes "FROM sys.dm_os_enumerate_filesystem(@root,'MSSQL*') f "
    ++ codes "WHERE f.is_directory=1 "
    ++ codes "AND LEN(f.full_filesystem_path)-LEN(REPLACE(f.full_filesystem_path,'\\',''))"
    ++ codes "=LEN(@root)-LEN(REPLACE(@root,'\\',''))+1"

unfoldable pub candidates_end : Text
candidates_end =
    codes "),"
    ++ codes "d AS (SELECT dir,MIN(pref) AS pref FROM cand WHERE dir IS NOT NULL GROUP BY dir) "

unfoldable pub build_dump_dir_cte : List Text → Text
unfolding extra_unions own_candidates candidates_end
build_dump_dir_cte extra = own_candidates ++ extra_unions extra ++ candidates_end
