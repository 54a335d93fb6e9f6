-- ===== src/Worker/Histories.antt =====
-- The methods and listeners of services/dba-mcp/src/pwshWorker.ts as the events of a history. A
-- `call` is `starts` and then `sends`: other events may come between them, at its `await`.
use mssql_data_api.Prelude.{
  ℕ, ◌+◌, ◌<◌, ◌≡◌, arith, ltb, ◌==◌, if◌then◌else◌, Bool, List, [], ◌∷◌, ◌++◌,
}
use mssql_data_api.Prelude.Text.{Text}
use mssql_data_api.Worker.{
  Worker, Effect, spawned, killed, stdin_ended, boot_dir_removed, sent, refused, resolved, rejected,
  uncaught, Result, start, send, timeout, settle, stderr_data, stop, exited, launch_failed,
}
use mssql_data_api.Worker.Pending.{lookup}
use mssql_data_api.Worker.Lines.{Parsed, on_data, followed_by}

pub data Event : Type 0 where
  starts : Bool → Event
  sends : Bool → Event
  times_out : ℕ → Event
  receives : Text → Event
  exits : ℕ → Event
  fails_to_launch : ℕ → Event
  complains : ℕ → Text → Event
  stops : Event

module _ {Row : Type 0} (parse : Text → Parsed Row) where
  unfoldable pub step : Event → Worker → Result Row
  step (starts boots) w = start w.proc boots w
  step (sends writes) w = send w.proc writes w
  step (times_out id) w = timeout id (lookup id w.pending) w
  step (receives chunk) w = on_data parse chunk w
  step (exits p) w = settle p exited w
  step (fails_to_launch p) w = settle p launch_failed w
  step (complains p chunk) w = stderr_data p chunk w
  step stops w = stop w.proc w

  unfoldable pub run : List Event → Worker → Result Row
  run [] w = (w, [])
  run (e ∷ es) w = followed_by (step e w) (run es)

-- How often the promise of a call is settled.
unfoldable pub settled : {Row : Type 0} → ℕ → List (Effect Row) → ℕ
settled k [] = 0
settled k (resolved id rows ∷ es) = let rest = settled k es in if id == k then 1 + rest else rest
settled k (rejected id e ∷ es) = let rest = settled k es in if id == k then 1 + rest else rest
settled k (spawned p ∷ es) = settled k es
settled k (killed p ∷ es) = settled k es
settled k (stdin_ended p ∷ es) = settled k es
settled k (boot_dir_removed p ∷ es) = settled k es
settled k (sent p id ∷ es) = settled k es
settled k (refused e ∷ es) = settled k es
settled k (uncaught ∷ es) = settled k es

pub settled-append :
    {Row : Type 0} (k : ℕ) (es fs : List (Effect Row))
    → settled k (es ++ fs) ≡ settled k es + settled k fs
unfolding settled
settled-append k [] fs = omega arith
settled-append k (resolved id rows ∷ es) fs = ground (arith, settled-append k es fs)
settled-append k (rejected id e ∷ es) fs = ground (arith, settled-append k es fs)
settled-append k (spawned p ∷ es) fs = settled-append k es fs
settled-append k (killed p ∷ es) fs = settled-append k es fs
settled-append k (stdin_ended p ∷ es) fs = settled-append k es fs
settled-append k (boot_dir_removed p ∷ es) fs = settled-append k es fs
settled-append k (sent p id ∷ es) fs = settled-append k es fs
settled-append k (refused e ∷ es) fs = settled-append k es fs
settled-append k (uncaught ∷ es) fs = settled-append k es fs

-- Whether an id was given out to a call.
unfoldable pub issued : ℕ → ℕ → ℕ
issued k next_id = if k == 0 then 0 else if ltb k next_id then 1 else 0

pub issued-suc : (k n : ℕ) → 0 < n → issued k (n + 1) ≡ issued k n + (if n == k then 1 else 0)
unfolding issued
issued-suc k n h = ground arith
