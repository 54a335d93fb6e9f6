-- ===== src/Worker/Runs.antt =====
-- Whole histories of the worker of services/dba-mcp/src/pwshWorker.ts.
use mssql_data_api.Prelude.{ℕ, ◌+◌, ◌≡◌, refl, List, [], ◌∷◌, ◌++◌, arith}
use mssql_data_api.Prelude.Text.{Text, trim}
use mssql_data_api.Worker.{Options, Worker, Result, exited, launch_failed, init}
use mssql_data_api.Worker.Pending.{count}
use mssql_data_api.Worker.Lines.{
  Parsed, malformed, null_value, value, handle_parsed, handle_trimmed, handle_line, handle_lines,
  on_data, cut, followed_by,
}
use mssql_data_api.Worker.Histories.{
  Event, starts, sends, times_out, receives, exits, fails_to_launch, complains, stops, step, run,
  settled, settled-append, issued,
}
use mssql_data_api.Worker.Invariant.{Inv, buffered}
use mssql_data_api.Worker.Accounts.{
  Sound, quiet, start-Sound, send-Sound, timeout-Sound, settle-Sound, stderr_data-Sound, stop-Sound,
  answer-Sound,
}

module _ {Row : Type 0} {opts : Options} where
  followed_by-Sound :
      {w : Worker} (r : Result Row) (f : Worker → Result Row)
      → Sound {Row = Row} opts w r
      → ((v : Worker) → Inv opts v → Sound {Row = Row} opts v (f v))
      → Sound {Row = Row} opts w (followed_by r f)
  followed_by-Sound r f s t = record {
    inv = (t r.0 s.inv).inv;
    books = λ k. omega (arith, s.books k, (t r.0 s.inv).books k, settled-append k r.1 (f r.0).1);
  }

  module _ (parse : Text → Parsed Row) where
    handle_parsed-Sound :
        {w : Worker} (m : Parsed Row)
        → Inv opts w
        → Sound {Row = Row} opts w (handle_parsed parse m w)
    unfolding handle_parsed settled
    handle_parsed-Sound malformed i = quiet i
    handle_parsed-Sound null_value i = record { inv = i; books = λ k. omega arith }
    handle_parsed-Sound (value r) i = answer-Sound i r r.id

    handle_trimmed-Sound :
        {w : Worker} (s : Text) → Inv opts w → Sound {Row = Row} opts w (handle_trimmed parse s w)
    unfolding handle_trimmed
    handle_trimmed-Sound [] i = quiet i
    handle_trimmed-Sound (c ∷ s) i = handle_parsed-Sound (parse (c ∷ s)) i

    handle_lines-Sound :
        {w : Worker} (l : List Text)
        → Inv opts w
        → Sound {Row = Row} opts w (handle_lines parse l w)
    unfolding handle_lines handle_line
    handle_lines-Sound [] i = quiet i
    handle_lines-Sound {w} (line ∷ l) i =
        followed_by-Sound (handle_line parse line w) (handle_lines parse l)
          (handle_trimmed-Sound (trim line) i) (λ v j. handle_lines-Sound l j)

    on_data-Sound :
        {w : Worker} (chunk : Text) → Inv opts w → Sound {Row = Row} opts w (on_data parse chunk w)
    unfolding on_data
    on_data-Sound {w} chunk i =
        let cuts = cut (w.buf ++ chunk) in
        let s = handle_lines-Sound cuts.0 (buffered i cuts.1) in
        record { inv = s.inv; books = s.books }

    step-Sound : {w : Worker} (e : Event) → Inv opts w → Sound {Row = Row} opts w (step parse e w)
    unfolding step
    step-Sound (starts boots) i = start-Sound i boots
    step-Sound (sends writes) i = send-Sound i writes
    step-Sound (times_out id) i = timeout-Sound i id
    step-Sound (receives chunk) i = on_data-Sound chunk i
    step-Sound (exits p) i = settle-Sound i p exited
    step-Sound (fails_to_launch p) i = settle-Sound i p launch_failed
    step-Sound (complains p s) i = stderr_data-Sound i p s
    step-Sound stops i = stop-Sound i

    pub run-Sound :
        {w : Worker} (es : List Event) → Inv opts w → Sound {Row = Row} opts w (run parse es w)
    unfolding run
    run-Sound [] i = quiet i
    run-Sound {w} (e ∷ es) i =
        followed_by-Sound (step parse e w) (run parse es) (step-Sound e i) (λ v j. run-Sound es j)

init-Inv : (opts : Options) → Inv opts (init opts)
unfolding count
init-Inv opts = record {
  kept = refl;
  known = tt;
  unique = λ k. omega arith;
  bounded = omega arith;
  first = omega arith;
  active = λ p e. cc;
  restarts_bounded = omega arith;
  tails_bounded = λ p. omega arith;
}

-- Whatever the calls, the timers, the chunks of stdout and stderr and the exits, in any order:
-- the worker keeps its invariant. No more than `maxQueue` calls wait, each has an id of its own
-- and a process that was made, a process is active only while `restarts` is at most
-- `maxRestarts`, and a stderr tail has at most 8192 characters.
pub run-Inv :
    {Row : Type 0} (parse : Text → Parsed Row) (opts : Options) (es : List Event)
    → Inv opts (run parse es (init opts)).0
run-Inv parse opts es = (run-Sound parse es (init-Inv opts)).inv

-- In any history, the promise of a call that was given an id is settled once if the call no longer
-- waits, and not at all while it waits; an id that was not given out is never settled.
pub run-settles_once :
    {Row : Type 0} (parse : Text → Parsed Row) (opts : Options) (es : List Event) (k : ℕ)
    → let r = run parse es (init opts) in settled k r.1 + count k r.0.pending ≡ issued k r.0.next_id
unfolding count issued
run-settles_once parse opts es k = ground (arith, (run-Sound parse es (init-Inv opts)).books k)
