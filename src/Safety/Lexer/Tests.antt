-- ===== src/Safety/Lexer/Tests.antt =====
-- The theorems on `stripNoise` of services/dba-mcp/src/safety.ts at concrete queries.
use mssql_data_api.Prelude.{◌≡◌, refl, some, arith, ◌∷◌, ◌++◌}
use mssql_data_api.Prelude.Text.{codes}
use mssql_data_api.Safety.Lexer.{quote, strip_noise}
use mssql_data_api.Safety.Lexer.Ends.{run_rounds, run_rounds-strip_noise}
use mssql_data_api.Safety.Lexer.Quoting.{double, strip_noise-literal}

strip_tests :
    (strip_noise (codes "SELECT 1 -- don't") ≡ codes "SELECT 1  ")
    × (strip_noise (codes "a /* x /* y */ z */ b") ≡ codes "a   b")
    × (strip_noise (codes "SELECT [it's], 'x''y' FROM t") ≡ codes "SELECT [it's], '' FROM t")
unfolding strip_noise
strip_tests = (refl, refl, refl)

strip_noise-literal_example :
    strip_noise (quote ∷ (double quote (codes "O'Brien") ++ (quote ∷ codes " OR 1")))
    ≡ quote ∷ quote ∷ strip_noise (codes " OR 1")
strip_noise-literal_example = strip_noise-literal (codes "O'Brien") (codes " OR 1") refl

run_rounds-strip_noise_example :
    run_rounds 20 (codes "a /* b */ 'c'") ≡ some (strip_noise (codes "a /* b */ 'c'"))
run_rounds-strip_noise_example = run_rounds-strip_noise 20 (codes "a /* b */ 'c'") (omega arith)
