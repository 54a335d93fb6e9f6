-- ===== src/Queries/Tests.antt =====
-- Small queries and writes, and the theorems on them.
use mssql_data_api.Prelude.{
  ℕ, ◌≡◌, refl, true, false, Option, none, some, List, [], ◌∷◌, take, length, ltb,
}
use mssql_data_api.Prelude.Text.{codes}
use mssql_data_api.Prelude.Regex.{test}
use mssql_data_api.Safety.Lexer.{strip_noise}
use mssql_data_api.Queries.{
  Batch, plain, limited, top_bound, set_rowcount, apply_row_limit, cap_rows, first_set,
  query_instance,
}
use mssql_data_api.Queries.Caps.{cut_sets, query_instance-user}
use mssql_data_api.Queries.Writing.{
  Driver, IsSettled, begin, query, commit, rollback, execute_write, execute_write-IsSettled,
}

abbrev rows : List ℕ
rows = 4 ∷ 5 ∷ 6 ∷ []

-- An instance that answers every batch with the same rows.
abbrev server : Batch → Option (List (List ℕ))
server (plain sql) = some (rows ∷ [])
server (limited n sql) = cut_sets n (some (rows ∷ []))

limit_tests :
    (apply_row_limit (codes "SELECT TOP (5) a FROM t") 2 false
      ≡ plain (codes "SELECT TOP (5) a FROM t"))
    × (apply_row_limit (codes "SELECT TOP (5) a FROM t") 2 true
        ≡ limited 3 (codes "SELECT TOP (5) a FROM t"))
    × (apply_row_limit (codes "SELECT a -- TOP (5)") 2 false
        ≡ limited 3 (codes "SELECT a -- TOP (5)"))
unfolding apply_row_limit test strip_noise top_bound set_rowcount
limit_tests = (refl, refl, refl)

query_instance-user_example :
    (query_instance server none (codes "n1") (codes "SELECT a") 2 true true none).0
    ≡ (take 2 rows, ltb 2 (length rows))
query_instance-user_example =
    query_instance-user server none (codes "n1") (codes "SELECT a") 2 true none refl

is_cut : (cap_rows (first_set (some (rows ∷ []))) 2).1 ≡ true
unfolding cap_rows
is_cut = refl

-- The commit fails, and a rollback follows.
abbrev failing : Driver ℕ
failing = record {
  begins = true;
  statement = λ sql. some (1 ∷ [], []);
  commits = false;
  rolls_back = true;
  rolls_back_again = true;
}

write_test :
    execute_write failing (codes "D") true
    ≡ (none, begin true ∷ query (codes "D") true ∷ commit false ∷ rollback true ∷ [])
unfolding execute_write
write_test = refl

execute_write-IsSettled_example : IsSettled true (execute_write failing (codes "D") true)
execute_write-IsSettled_example = execute_write-IsSettled failing (codes "D") true
