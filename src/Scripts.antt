-- ===== src/Scripts.antt =====
-- `runPowerShell` of services/dba-mcp/src/dbatools.ts: one process for one script in a temporary file. The
-- file is written and the process spawned at the start, or one of the two throws; what follows are the
-- events of the process and of the timer, in any order. What a write that throws has left in the file stays
-- there and is not modelled. A chunk is its bytes in number and the text that `toString` makes of it.
mod Settled
mod Tests
use mssql_data_api.Prelude.{
  ℕ, ◌+◌, ◌*◌, ltb, Bool, true, false, Option, none, some, List, [], ◌∷◌, ◌++◌, if◌then◌else◌,
}
use mssql_data_api.Prelude.Text.{Text}

-- `DBATOOLS_MAX_OUTPUT_MB` in bytes.
unfoldable pub max_buffer_bytes : Option ℕ → ℕ
max_buffer_bytes none = 64 * 1024 * 1024
max_buffer_bytes (some mb) = mb * 1024 * 1024

pub data Outcome : Type 0 where
  resolved : Text → Text → ℕ → Outcome
  timed_out : Outcome
  too_long : Outcome
  not_launched : Text → Outcome
  not_written : Text → Outcome
  not_spawned : Text → Outcome

-- A run: what was read, whether the promise is settled and the timer is set, whether the script is in
-- `_activeScripts`, how often its file was unlinked, whether the process was killed, and what the promise
-- was settled with.
pub record Run : Type 0 where
  pub out : Text
  pub err : Text
  pub total : ℕ
  pub settled : Bool
  pub timer : Bool
  pub is_active : Bool
  pub unlinked : ℕ
  pub killed : Bool
  pub outcomes : List Outcome

pub data Sink : Type 0 where
  to_out : Sink
  to_err : Sink

pub data Event : Type 0 where
  chunk : Sink → ℕ → Text → Event
  closed : Option ℕ → Event
  errored : Text → Event
  elapsed : Event

abbrev pub spawned : Run
spawned = record {
  out = [];
  err = [];
  total = 0;
  settled = false;
  timer = true;
  is_active = true;
  unlinked = 0;
  killed = false;
  outcomes = [];
}

-- A script that cannot be written: no process is started.
abbrev pub unwritten : Text → Run
unwritten message = record {
  out = [];
  err = [];
  total = 0;
  settled = true;
  timer = false;
  is_active = false;
  unlinked = 0;
  killed = false;
  outcomes = not_written message ∷ [];
}

abbrev cleanup : Run → Run
cleanup r = record r { is_active = false; unlinked = r.unlinked + 1 }

abbrev settle : Outcome → Run → Run
settle o r = record r { settled = true; outcomes = r.outcomes ++ o ∷ [] }

abbrev pub failed : Outcome → Run → Run
failed o r = cleanup (settle o (record r { killed = true }))

unfoldable pub fail : Outcome → Run → Run
fail o r = if r.settled then r else failed o r

abbrev pub append : Sink → Text → Run → Run
append to_out s r = record r { out = r.out ++ s }
append to_err s r = record r { err = r.err ++ s }

-- `code ?? 1`
abbrev pub or_one : Option ℕ → ℕ
or_one none = 1
or_one (some n) = n

abbrev pub ended : Option ℕ → Run → Run
ended code r = cleanup (settle (resolved r.out r.err (or_one code)) (record r { timer = false }))

unfoldable pub on_close : Option ℕ → Run → Run
on_close code r = if r.settled then record r { timer = false } else ended code r

-- A timer that was cleared, or has fired, fires no more.
unfoldable pub on_timer : Run → Run
unfolding fail
on_timer r = if r.timer then fail timed_out (record r { timer = false }) else r

module _ (max_bytes : ℕ) where
  unfoldable pub on_chunk : Sink → ℕ → Text → Run → Run
  unfolding fail
  on_chunk sink n s r =
      if ltb max_bytes (r.total + n)
      then fail too_long (record r { total = r.total + n; timer = false })
      else append sink s (record r { total = r.total + n })

  unfoldable pub step : Event → Run → Run
  unfolding on_chunk on_close fail on_timer
  step (chunk sink n s) r = on_chunk sink n s r
  step (closed code) r = on_close code r
  step (errored message) r = fail (not_launched message) (record r { timer = false })
  step elapsed r = on_timer r

  unfoldable pub run : List Event → Run → Run
  unfolding step
  run [] r = r
  run (e ∷ l) r = run l (step e r)

-- A process that `spawn` refuses with an exception, after the script was written: it rejects the promise,
-- and nothing listens or cleans up.
abbrev pub unspawned : Text → Run
unspawned message = record {
  out = [];
  err = [];
  total = 0;
  settled = true;
  timer = false;
  is_active = true;
  unlinked = 0;
  killed = false;
  outcomes = not_spawned message ∷ [];
}

-- The start of a run: the script was written and the process is there, or an exception with its message.
pub data Start : Type 0 where
  started : Start
  write_failed : Text → Start
  spawn_failed : Text → Start

abbrev pub begin : Start → Run
begin started = spawned
begin (write_failed message) = unwritten message
begin (spawn_failed message) = unspawned message

unfoldable pub run_power_shell : ℕ → Start → List Event → Run
unfolding run
run_power_shell max_bytes start events = run max_bytes events (begin start)
