-- ===== src/DumpPaths/Tests.antt =====
-- A setting with a quote in it, and the theorem on it.
use mssql_data_api.Prelude.{◌≡◌, refl, Option, some, [], ◌∷◌, ◌++◌, map}
use mssql_data_api.Prelude.Text.{Text, codes, trim, trim_start, is_space}
use mssql_data_api.Safety.Guard.{split}
use mssql_data_api.Safety.Lexer.{strip_noise}
use mssql_data_api.Safety.Lexer.Quoting.{double}
use mssql_data_api.DumpPaths.{
  literal, strip_end, directories, or_blank, extra_dump_dir_literals, build_dump_dir_cte,
}
use mssql_data_api.DumpPaths.Literals.{build_dump_dir_cte-literals}

abbrev setting : Option Text
setting = some (codes " E:\\O'Neil\\ ;; D:/Dumps//")

-- The separators at the end and the empty entry are left out, and the quote is doubled.
read_setting : extra_dump_dir_literals setting ≡ codes "N'E:\\O''Neil'" ∷ codes "N'D:/Dumps'" ∷ []
unfolding extra_dump_dir_literals directories strip_end literal double split trim trim_start
    is_space
read_setting = refl

build_dump_dir_cte-literals_example :
    strip_noise (build_dump_dir_cte (extra_dump_dir_literals setting) ++ codes "SELECT 1")
    ≡ strip_noise (
        build_dump_dir_cte (map (λ d. literal []) (directories (split b';' (or_blank setting))))
        ++ codes "SELECT 1")
build_dump_dir_cte-literals_example = build_dump_dir_cte-literals setting (codes "SELECT 1")
