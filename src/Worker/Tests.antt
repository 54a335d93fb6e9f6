-- ===== src/Worker/Tests.antt =====
-- Histories of the worker, and its theorems at concrete ones.
use mssql_data_api.Prelude.{
  ℕ, ◌+◌, ◌≡◌, refl, true, none, some, List, [], ◌∷◌, ◌++◌, ◌==◌, if◌then◌else◌,
}
use mssql_data_api.Prelude.Text.{Text, codes, trim}
use mssql_data_api.Worker.{
  Options, Worker, spawned, sent, resolved, uncaught, init, settle, start, send, timeout, answer,
  reply_to, take_last, stop, boot_dir_removed,
}
use mssql_data_api.Worker.Pending.{count, lookup, delete, owned, disowned}
use mssql_data_api.Worker.Lines.{
  Parsed, malformed, null_value, value, on_data, followed_by, cut, prepend, on_data-append,
  handle_parsed, handle_trimmed, handle_line, handle_lines,
}
use mssql_data_api.Worker.Histories.{
  Event, starts, sends, times_out, receives, exits, step, run, settled, issued,
}
use mssql_data_api.Worker.Invariant.{Inv}
use mssql_data_api.Worker.Runs.{run-Inv, run-settles_once}

abbrev opts : Options
opts = record { max_queue = 2; max_restarts = 1 }

-- The text `r` answers the first request, `n` is `null`.
abbrev parse : Text → Parsed ℕ
parse [] = malformed
parse (c ∷ s) =
    if c == b'r'
    then value (record { id = some 1; ok = true; rows = 7 ∷ []; error = none })
    else if c == b'n'
    then null_value
    else malformed

abbrev one_call : List Event
one_call = starts true ∷ sends true ∷ receives (codes "r" ++ 10 ∷ []) ∷ []

abbrev waiting : Worker
waiting = (run parse (starts true ∷ sends true ∷ []) (init opts)).0

histories : Unit {0}
unfolding start send timeout settle stop reply_to answer take_last trim lookup delete owned disowned
    on_data cut prepend handle_parsed handle_trimmed handle_line handle_lines step run count settled
    issued
histories = tt

run_tests :
    ((run parse one_call (init opts)).1 ≡ spawned 0 ∷ sent 0 1 ∷ resolved 1 (7 ∷ []) ∷ [])
    × ((run parse (receives (codes "n" ++ 10 ∷ []) ∷ []) (init opts)).1 ≡ uncaught ∷ [])
unfolding histories
run_tests = (refl, refl)

-- `start` leaves `buf`: the first reply of a new process is read behind what a dead one left of a
-- line, and is lost.
stale_buffer :
    (run parse
      (starts true
        ∷ receives (codes "x")
        ∷ exits 0
        ∷ starts true
        ∷ sends true
        ∷ receives (codes "r" ++ 10 ∷ [])
        ∷ [])
      (init opts)).1
    ≡ spawned 0 ∷ boot_dir_removed 0 ∷ spawned 1 ∷ sent 1 1 ∷ []
unfolding histories
stale_buffer = refl

on_data-append_example :
    on_data parse (codes "r" ++ 10 ∷ []) waiting
    ≡ followed_by (on_data parse (codes "r") waiting) (on_data parse (10 ∷ []))
on_data-append_example = on_data-append parse (codes "r") (10 ∷ []) waiting

run-Inv_example : Inv opts (run parse one_call (init opts)).0
run-Inv_example = run-Inv parse opts one_call

run-settles_once_example :
    settled 1 (run parse one_call (init opts)).1
      + count 1 (run parse one_call (init opts)).0.pending
    ≡ issued 1 (run parse one_call (init opts)).0.next_id
run-settles_once_example = run-settles_once parse opts one_call 1

-- The call of process 0 timed out, and process 1 has another.
abbrev replaced : Worker
replaced =
    (run parse (starts true ∷ sends true ∷ times_out 1 ∷ starts true ∷ sends true ∷ [])
      (init opts)).0
