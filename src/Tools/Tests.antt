-- ===== src/Tools/Tests.antt =====
-- The tools at concrete calls, and their theorems there.
use mssql_data_api.Prelude.{
  ◌≡◌, refl, true, false, Option, none, some, List, [], ◌∷◌, All, inl, inr, ◌⊎◌, map, ℕ,
  if◌then◌else◌,
}
use mssql_data_api.Prelude.Text.{Text, codes, eq_text, trim}
use mssql_data_api.Prelude.Regex.{test, keyword}
use mssql_data_api.Safety.Lexer.{strip_noise}
use mssql_data_api.Safety.Patterns.{
  begins_with, read_blocked, write_blocked, update_set, delete_from, bare_cr,
}
use mssql_data_api.Safety.Guard.{
  clean, first_blocked, is_bounded, touches, sensitive_re, validate_query, validate_write_query,
}
use mssql_data_api.Queries.{Content, Batch, apply_row_limit, query_instance, finish_query, cap_rows}
use mssql_data_api.Queries.Writing
use mssql_data_api.Queries.Writing.{Driver, execute_write}
use mssql_data_api.Tools.{
  execute_query, fan_out_query, targets, fan_targets, count_failed, Sent, writes, write_on, Answer,
  failed, answered, threw, returned, Instance, Setting, Call, query_call, write_call, fan_call,
  handle, run_tool, query_each, write_enabled, write_tool, query, finish_answer,
}
use mssql_data_api.Tools.Guarded.{IsGuarded, run_tool-IsGuarded}
use mssql_data_api.Tools.Fans.{result_of}

abbrev fleet : List Instance
fleet = record { name = codes "a"; region = none } ∷ record { name = codes "b"; region = none } ∷ []

abbrev setting : Setting
setting = record { tables = []; toolset = codes "eng"; eng_write = some (codes "1"); fleet = fleet }

-- The first instance is down.
abbrev answer : Text → Batch → Answer ℕ
answer n b =
    if eq_text n (codes "a") then failed (codes "down") else answered (some ((7 ∷ []) ∷ [])) none

abbrev driver : Text → Text ⊎ Driver ℕ
driver n = inl []

abbrev ask : Call → Option (List Content) × List Sent
ask call = run_tool setting answer driver (λ n. n) (λ s. []) (λ s. s) call

-- Writing is not enabled, and a read that is not one is refused: nothing is sent.
abbrev attempts : List Call
attempts =
    write_call (codes "a") (codes "DELETE T WHERE a = 1") true false
    ∷ query_call (codes "a") (codes "SELECT 1 DROP TABLE x") false
    ∷ []

abbrev fan : Call
fan = fan_call (codes "SELECT 1") none [] false

guards : Unit {0}
unfolding run_tool handle write_tool write_enabled execute_query fan_out_query validate_query test
    keyword strip_noise trim clean first_blocked is_bounded touches sensitive_re bare_cr begins_with
    read_blocked targets fan_targets query_each query apply_row_limit count_failed finish_answer
    query_instance finish_query cap_rows
guards = tt

nothing_sent : map (λ c. (ask c).1) attempts ≡ [] ∷ [] ∷ []
unfolding guards
nothing_sent = refl

-- A write without `confirm`, where writing is enabled.
abbrev writing : Setting
writing = record setting { toolset = codes "eng-write" }

abbrev able : Text → Text ⊎ Driver ℕ
able n = inr (record {
  begins = true;
  statement = λ sql. some (1 ∷ [], []);
  commits = true;
  rolls_back = true;
  rolls_back_again = true;
})

abbrev update : Text
update = codes "UPDATE T SET a = 1 WHERE b = 2"

abbrev dry : Call
dry = write_call (codes "a") update false false

abbrev ask_dry : Option (List Content) × List Sent
ask_dry = run_tool writing answer able (λ n. n) (λ s. []) (λ s. s) dry

dry_sent :
    ask_dry.1
    ≡ writes
        (codes "a")
        (Writing.begin true ∷ Writing.query update true ∷ Writing.rollback true ∷ [])
      ∷ []
unfolding guards validate_write_query write_on execute_write write_blocked update_set delete_from
dry_sent = refl

run_tool-IsGuarded_example : All (IsGuarded writing dry) ask_dry.1
run_tool-IsGuarded_example = run_tool-IsGuarded writing answer able (λ n. n) (λ s. []) (λ s. s) dry

-- The instance that is down leaves the other one's rows.
separate :
    map (result_of setting answer (codes "SELECT 1")) fleet
    ≡ (codes "a", threw (codes "down")) ∷ (codes "b", returned (7 ∷ []) false none) ∷ []
unfolding guards
separate = refl
