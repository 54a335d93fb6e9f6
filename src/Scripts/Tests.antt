-- ===== src/Scripts/Tests.antt =====
-- A script that is cut off by its timer, and the theorems on it.
use mssql_data_api.Prelude.{◌≡◌, refl, true, ◌++◌, none, some, List, [], ◌∷◌}
use mssql_data_api.Prelude.Text.{codes}
use mssql_data_api.Scripts.{
  Event, started, spawn_failed, chunk, closed, elapsed, to_out, to_err, timed_out, resolved,
  too_long, run_power_shell, run, step, fail, on_chunk, on_close, on_timer,
}
use mssql_data_api.Scripts.Settled.{IsSettled, Inv, run_power_shell-Inv, run_power_shell-ends}

abbrev late : List Event
late = chunk to_out 3 (codes "abc") ∷ elapsed ∷ closed (some 0) ∷ elapsed ∷ []

cut_off : (run_power_shell 10 started late).outcomes ≡ timed_out ∷ []
unfolding run_power_shell run step on_chunk on_close on_timer fail
cut_off = refl

in_time :
    (run_power_shell 10 started (chunk to_err 2 (codes "no") ∷ closed none ∷ elapsed ∷ [])).outcomes
    ≡ resolved [] (codes "no") 1 ∷ []
unfolding run_power_shell run step on_chunk on_close on_timer fail
in_time = refl

flooded :
    (run_power_shell 10 started
      (chunk to_out 6 (codes "a") ∷ chunk to_err 6 (codes "b") ∷ [])).outcomes
    ≡ too_long ∷ []
unfolding run_power_shell run step on_chunk on_close on_timer fail
flooded = refl

-- The script of a process that cannot be spawned stays listed.
left_behind : (run_power_shell 10 (spawn_failed (codes "E")) []).is_active ≡ true
unfolding run_power_shell run
left_behind = refl

run_power_shell-Inv_example : Inv 10 (run_power_shell 10 started late)
run_power_shell-Inv_example = run_power_shell-Inv 10 started late

run_power_shell-ends_example : IsSettled (
    run_power_shell 10 started
      ((chunk to_out 3 (codes "abc") ∷ []) ++ (elapsed ∷ closed (some 0) ∷ [])))
run_power_shell-ends_example =
    run_power_shell-ends 10 started (chunk to_out 3 (codes "abc") ∷ []) elapsed
      (closed (some 0) ∷ []) tt
