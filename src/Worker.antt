-- ===== src/Worker.antt =====
-- services/dba-mcp/src/pwshWorker.ts: the supervisor of one PowerShell process at a time. Process
-- objects are numbered as they are made. A method that reads `this.proc`, or the entry of an id,
-- takes what it read as an argument, which Histories gives it. A method returns the new state and
-- what it did, in order: promises settled, processes spawned and killed, requests written.
-- `JSON.parse` of a reply line is the parameter `parse`.
pub mod Pending
pub mod Lines
pub mod Histories
pub mod Invariant
pub mod Accounts
pub mod Runs
pub mod Exits
pub mod Tests
use mssql_data_api.Prelude.{
  ℕ, suc, ◌+◌, ◌-◌, Bool, true, false, Option, none, some, List, [], ◌∷◌, ◌++◌, if◌then◌else◌, ltb,
  leb, ◌==◌, length,
}
use mssql_data_api.Prelude.Text.{Text, trim}
use Pending.{Entries, lookup, delete, owned, disowned, ids}

pub record Options : Type 0 where
  pub max_queue : ℕ
  pub max_restarts : ℕ

-- A reply line as `JSON.parse` and the field accesses see it. `id` is `none` where the field is not
-- a number, or a number that no request carries, such as 1.5.
pub record Reply (Row : Type 0) : Type 0 where
  pub id : Option ℕ
  pub ok : Bool
  pub rows : List Row
  pub error : Option Text

-- The errors that a call can reject with; the text is the stderr suffix.
pub data Failure : Type 0 where
  gave_up : Text → Failure
  exited : Text → Failure
  launch_failed : Text → Failure
  not_booted : Failure
  not_running : Failure
  queue_full : Failure
  stdin_closed : Failure
  timed_out : Text → Failure
  reported : Option Text → Failure

pub data Effect (Row : Type 0) : Type 0 where
  spawned : ℕ → Effect Row
  killed : ℕ → Effect Row
  stdin_ended : ℕ → Effect Row
  boot_dir_removed : ℕ → Effect Row
  sent : ℕ → ℕ → Effect Row
  -- A call that was refused before it had an id.
  refused : Failure → Effect Row
  resolved : ℕ → List Row → Effect Row
  rejected : ℕ → Failure → Effect Row
  -- An exception that nothing catches, which ends the server: what follows it is not described.
  uncaught : Effect Row

pub record Worker : Type 0 where
  pub opts : Options
  pub open opts use *
  pub proc : Option ℕ
  pub next_proc : ℕ
  pub pending : Entries
  pub next_id : ℕ
  pub buf : Text
  pub restarts : ℕ
  -- `stderrTails`, empty for a process that has written nothing.
  pub tails : ℕ → Text

abbrev pub stderr_tail_max : ℕ
stderr_tail_max = 8192

abbrev pub update {ℓ} : {A : Type ℓ} → (ℕ → A) → ℕ → A → ℕ → A
update f k a j = if j == k then a else f j

abbrev pub init : Options → Worker
init opts = record {
  opts = opts;
  proc = none;
  next_proc = 0;
  pending = [];
  next_id = 1;
  buf = [];
  restarts = 0;
  tails = λ p. [];
}

-- `s.slice(-n)`
pub take_last : ℕ → Text → Text
take_last n [] = []
take_last n (c ∷ s) = let rest = take_last n s in if leb (suc (length s)) n then c ∷ s else rest

-- `this.proc === p`
abbrev pub is_active : Option ℕ → ℕ → Bool
is_active none p = false
is_active (some q) p = q == p

-- `formatStderrSuffix`: empty if the trimmed tail is.
abbrev pub suffix : Worker → ℕ → Text
suffix w p = trim (w.tails p)

-- The active process ends: it is disowned and the restart is counted.
abbrev pub disown : Worker → ℕ → Worker
disown w p = if is_active w.proc p then record w { proc = none; restarts = w.restarts + 1 } else w

-- The error of the calls that a process leaves behind.
abbrev pub ending : Worker → Text → Failure → Failure
ending w tail base = if ltb w.max_restarts w.restarts then gave_up tail else base

abbrev pub Result : Type 0 → Type 0
Result Row = Worker × List (Effect Row)

module _ {Row : Type 0} where
  -- `start`. `boots` says whether the boot script could be written and the process object made.
  pub start : Option ℕ → Bool → Worker → Result Row
  start (some p) boots w = (w, [])
  start none boots w =
      if ltb w.max_restarts w.restarts
      then (w, refused (gave_up []) ∷ [])
      else if boots
      then (
        record w {
          proc = some w.next_proc;
          next_proc = w.next_proc + 1;
          tails = update w.tails w.next_proc [];
        },
        spawned w.next_proc ∷ [],
      )
      else (w, refused not_booted ∷ [])

  -- `call` from behind its `await`. `writes` says whether the write to stdin returns; a write that
  -- throws takes the entry back.
  pub send : Option ℕ → Bool → Worker → Result Row
  send none writes w = (w, refused not_running ∷ [])
  send (some p) writes w =
      if leb w.max_queue (length w.pending)
      then (w, refused queue_full ∷ [])
      else if writes
      then (
        record w { next_id = w.next_id + 1; pending = w.pending ++ (w.next_id, p) ∷ [] },
        sent p w.next_id ∷ [],
      )
      else (record w { next_id = w.next_id + 1 }, rejected w.next_id stdin_closed ∷ [])

  -- The timer of a call. It is cleared wherever the entry is deleted, so it fires for entries only.
  pub timeout : ℕ → Option ℕ → Worker → Result Row
  timeout id none w = (w, [])
  timeout id (some p) w = (
    record (disown w p) { pending = delete id w.pending },
    killed p ∷ rejected id (timed_out (suffix w p)) ∷ [],
  )

  reject_all : Failure → List ℕ → List (Effect Row)
  reject_all e [] = []
  reject_all e (id ∷ l) = rejected id e ∷ reject_all e l

  -- `settle`, for a process that ended.
  pub settle : ℕ → (Text → Failure) → Worker → Result Row
  unfolding reject_all
  settle p base w =
      let after = disown w p in
      (
        record after { pending = disowned p w.pending },
        boot_dir_removed p
            ∷ reject_all (ending after (suffix w p) (base (suffix w p))) (ids (owned p w.pending)),
      )

  pub stderr_data : ℕ → Text → Worker → Result Row
  unfolding take_last
  stderr_data p chunk w =
      (record w { tails = update w.tails p (take_last stderr_tail_max (w.tails p ++ chunk)) }, [])

  pub stop : Option ℕ → Worker → Result Row
  stop none w = (w, [])
  stop (some p) w = (record w { proc = none }, stdin_ended p ∷ killed p ∷ [])

  -- One round of `onData` at a reply: the entry is looked up by the id, deleted, and settled.
  pub reply_to : Reply Row → ℕ → Option ℕ → Worker → Result Row
  reply_to r id none w = (w, [])
  reply_to r id (some p) w =
      if r.ok
      then (record w { pending = delete id w.pending; restarts = 0 }, resolved id r.rows ∷ [])
      else (record w { pending = delete id w.pending }, rejected id (reported r.error) ∷ [])

  pub answer : Reply Row → Option ℕ → Worker → Result Row
  answer r none w = (w, [])
  answer r (some id) w = reply_to r id (lookup id w.pending) w
