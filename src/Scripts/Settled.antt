-- ===== src/Scripts/Settled.antt =====
-- The promise of `runPowerShell` of services/dba-mcp/src/dbatools.ts and its temporary file.
use mssql_data_api.Prelude.{
  ℕ, ◌+◌, ◌≤◌, ◌<◌, ◌≡◌, refl, ap, sym, subst, ◌∙◌, arith, ltb, Bool, true, false, List, [], ◌∷◌,
  ◌++◌, Bool-cases, inl, inr, if◌then◌else◌,
}
use mssql_data_api.Prelude.Text.{Text}
use mssql_data_api.Scripts.{
  Outcome, resolved, timed_out, too_long, not_launched, not_written, not_spawned, Start, started,
  write_failed, spawn_failed, Run, Sink, to_out, to_err, Event, chunk, closed, errored, elapsed,
  fail, failed, ended, or_one, append, on_chunk, on_close, on_timer, step, run, begin,
  run_power_shell,
}

-- What is left behind by an outcome: a script of a process is off the list and was unlinked once, and
-- its process was killed unless it closed; a script whose process could not be spawned is still listed.
abbrev pub Leaves : Outcome → Bool → ℕ → Bool → Type 0
Leaves (resolved out err code) is_active unlinked killed =
    (is_active ≡ false) × (unlinked ≡ 1) × (killed ≡ false)
Leaves timed_out is_active unlinked killed = (is_active ≡ false) × (unlinked ≡ 1) × (killed ≡ true)
Leaves too_long is_active unlinked killed = (is_active ≡ false) × (unlinked ≡ 1) × (killed ≡ true)
Leaves (not_launched message) is_active unlinked killed =
    (is_active ≡ false) × (unlinked ≡ 1) × (killed ≡ true)
Leaves (not_written message) is_active unlinked killed =
    (is_active ≡ false) × (unlinked ≡ 0) × (killed ≡ false)
Leaves (not_spawned message) is_active unlinked killed =
    (is_active ≡ true) × (unlinked ≡ 0) × (killed ≡ false)

abbrev pub IsSettled : Run → Type 0
IsSettled r = (o : Outcome) × (r.outcomes ≡ o ∷ []) × Leaves o r.is_active r.unlinked r.killed

module _ (max_bytes : ℕ) where
  abbrev pub IsWaiting : Run → Type 0
  IsWaiting r =
      (r.outcomes ≡ [])
      × (r.timer ≡ true)
      × (r.is_active ≡ true)
      × (r.unlinked ≡ 0)
      × (r.killed ≡ false)
      × (r.total ≤ max_bytes)

  abbrev pub Inv : Run → Type 0
  Inv r = if r.settled then IsSettled r else IsWaiting r

  Inv-settled : (r : Run) → r.settled ≡ true → IsSettled r → Inv r
  Inv-settled r e h = subst (λ b. if b then IsSettled r else IsWaiting r) (sym e) h

  Inv-waiting : (r : Run) → r.settled ≡ false → IsWaiting r → Inv r
  Inv-waiting r e h = subst (λ b. if b then IsSettled r else IsWaiting r) (sym e) h

  when_settled : (r : Run) → r.settled ≡ true → Inv r → IsSettled r
  when_settled r e h = subst (λ b. if b then IsSettled r else IsWaiting r) e h

  while_open : (r : Run) → r.settled ≡ false → Inv r → IsWaiting r
  while_open r e h = subst (λ b. if b then IsSettled r else IsWaiting r) e h

  -- A change of what a settled run has read leaves the rest.
  fail-Inv :
      (o : Outcome) (r : Run)
      → r.outcomes ≡ []
      → r.unlinked ≡ 0
      → (r.unlinked + 1 ≡ 1 → Leaves o false (r.unlinked + 1) true)
      → IsSettled (failed o r)
  fail-Inv o r e u l = (o, ap (λ l. l ++ o ∷ []) e, l (omega (arith, u)))

  fail-same : (o : Outcome) (r : Run) → r.settled ≡ true → fail o r ≡ r
  unfolding fail
  fail-same o r h = ap (λ b. if b then r else failed o r) h

  fail-failed : (o : Outcome) (r : Run) → r.settled ≡ false → fail o r ≡ failed o r
  unfolding fail
  fail-failed o r h = ap (λ b. if b then r else failed o r) h

  -- A run that is settled stays so, with what it has.
  step-settled :
      (e : Event) (r : Run) → r.settled ≡ true → IsSettled r → IsSettled (step max_bytes e r)
  unfolding step on_chunk on_close on_timer
  step-settled (chunk sink n s) r e h = elim (Bool-cases (ltb max_bytes (r.total + n))) [
    | inl t ↦ rw t (
        subst IsSettled
          (sym (fail-same too_long (record r { total = r.total + n; timer = false }) e)) h)
    | inr t ↦ rw t (read sink)
  ]
    where
      read : (sink : Sink) → IsSettled (append sink s (record r { total = r.total + n }))
      read to_out = h
      read to_err = h
  step-settled (closed code) r e h =
      subst IsSettled (sym (ap (λ b. if b then record r { timer = false } else ended code r) e)) h
  step-settled (errored message) r e h =
      subst IsSettled (sym (fail-same (not_launched message) (record r { timer = false }) e)) h
  step-settled elapsed r e h = elim (Bool-cases r.timer) [
    | inl t ↦
        subst IsSettled
          (sym (
            ap (λ b. if b then fail timed_out (record r { timer = false }) else r) t
            ∙ fail-same timed_out (record r { timer = false }) e))
          h
    | inr t ↦
        subst IsSettled
          (sym (ap (λ b. if b then fail timed_out (record r { timer = false }) else r) t)) h
  ]

  stays : (e : Event) (r : Run) → r.settled ≡ true → (step max_bytes e r).settled ≡ true
  unfolding step on_chunk on_close on_timer fail
  stays (chunk to_out n s) r e = ground arith
  stays (chunk to_err n s) r e = ground arith
  stays (closed code) r e = ground arith
  stays (errored message) r e = ground arith
  stays elapsed r e = ground arith

  append-waiting :
      (sink : Sink) (n : ℕ) (s : Text) (r : Run)
      → ltb max_bytes (r.total + n) ≡ false
      → r.settled ≡ false
      → IsWaiting r
      → Inv (append sink s (record r { total = r.total + n }))
  append-waiting to_out n s r t e (o, m, a, u, k, l) =
      Inv-waiting (append to_out s (record r { total = r.total + n })) e
        (o, m, a, u, k, ground (arith, t))
  append-waiting to_err n s r t e (o, m, a, u, k, l) =
      Inv-waiting (append to_err s (record r { total = r.total + n })) e
        (o, m, a, u, k, ground (arith, t))

  failed_once :
      (o : Outcome) (r : Run)
      → r.settled ≡ false
      → r.outcomes ≡ []
      → r.unlinked ≡ 0
      → (r.unlinked + 1 ≡ 1 → Leaves o false (r.unlinked + 1) true)
      → Inv (fail o r)
  failed_once o r h e u l = subst Inv (sym (fail-failed o r h)) (fail-Inv o r e u l)

  step-waiting : (e : Event) (r : Run) → r.settled ≡ false → IsWaiting r → Inv (step max_bytes e r)
  unfolding step on_chunk on_close on_timer
  step-waiting (chunk sink n s) r e (o, m, a, u, k, l) =
      elim (Bool-cases (ltb max_bytes (r.total + n))) [
        | inl t ↦ rw t (
            failed_once too_long (record r { total = r.total + n; timer = false }) e o u
              (λ q. (refl, q, refl)))
        | inr t ↦ rw t (append-waiting sink n s r t e (o, m, a, u, k, l))
      ]
  step-waiting (closed code) r e (o, m, a, u, k, l) =
      subst Inv (sym (ap (λ b. if b then record r { timer = false } else ended code r) e)) (
        resolved r.out r.err (or_one code),
        ap (λ q. q ++ resolved r.out r.err (or_one code) ∷ []) o,
        (refl, omega (arith, u), k),
      )
  step-waiting (errored message) r e (o, m, a, u, k, l) =
      failed_once (not_launched message) (record r { timer = false }) e o u (λ q. (refl, q, refl))
  step-waiting elapsed r e (o, m, a, u, k, l) =
      subst Inv (sym (ap (λ b. if b then fail timed_out (record r { timer = false }) else r) m))
        (failed_once timed_out (record r { timer = false }) e o u (λ q. (refl, q, refl)))

  step-Inv : (e : Event) (r : Run) → Inv r → Inv (step max_bytes e r)
  step-Inv e r h = elim (Bool-cases r.settled) [
    | inl s ↦
        Inv-settled (step max_bytes e r) (stays e r s) (step-settled e r s (when_settled r s h))
    | inr s ↦ step-waiting e r s (while_open r s h)
  ]

  run-Inv : (l : List Event) (r : Run) → Inv r → Inv (run max_bytes l r)
  unfolding run
  run-Inv [] r h = h
  run-Inv (e ∷ l) r h = run-Inv l (step max_bytes e r) (step-Inv e r h)

  begin-Inv : (start : Start) → Inv (begin start)
  begin-Inv started = (refl, refl, refl, refl, refl, omega arith)
  begin-Inv (write_failed message) = (not_written message, refl, (refl, refl, refl))
  begin-Inv (spawn_failed message) = (not_spawned message, refl, (refl, refl, refl))

  -- In any history the promise waits or is settled once: while it waits the script is listed, the timer
  -- is set and no more was read than the limit; when it is settled by its process, its timer or its
  -- output, the script is off the list and was unlinked once, and the process was killed if it had not
  -- closed. A script that could not be written is not listed and not unlinked; one whose process could not
  -- be spawned, since `spawn` threw, stays on the list and is not unlinked.
  pub run_power_shell-Inv :
      (start : Start) (events : List Event) → Inv (run_power_shell max_bytes start events)
  unfolding run_power_shell
  run_power_shell-Inv start events = run-Inv events (begin start) (begin-Inv start)

  -- The events that end a run that waits.
  abbrev pub IsEnding : Event → Type 0
  IsEnding (chunk sink n s) = max_bytes < n
  IsEnding _ = Unit

  ending_settles : (e : Event) (r : Run) → IsEnding e → Inv r → (step max_bytes e r).settled ≡ true
  unfolding step on_chunk on_close on_timer fail
  ending_settles e r end h = elim (Bool-cases r.settled) [
    | inl s ↦ stays e r s
    | inr s ↦ first e end (while_open r s h).1
  ]
    where
      first : (e : Event) → IsEnding e → r.timer ≡ true → (step max_bytes e r).settled ≡ true
      first (chunk sink n s) end m = ground (arith, end)
      first (closed code) end m = ground arith
      first (errored message) end m = ground arith
      first elapsed end m = ground (arith, m)

  run-stays : (l : List Event) (r : Run) → r.settled ≡ true → (run max_bytes l r).settled ≡ true
  unfolding run
  run-stays [] r h = h
  run-stays (e ∷ l) r h = run-stays l (step max_bytes e r) (stays e r h)

  run-ends :
      (before : List Event) (e : Event) (after : List Event) (r : Run)
      → IsEnding e
      → Inv r
      → (run max_bytes (before ++ e ∷ after) r).settled ≡ true
  unfolding run
  run-ends [] e after r end h = run-stays after (step max_bytes e r) (ending_settles e r end h)
  run-ends (b ∷ before) e after r end h =
      run-ends before e after (step max_bytes b r) end (step-Inv b r h)

  -- A caller gets its answer: the promise is settled once the process closed or could not be launched,
  -- once the time is up, and once a chunk alone is longer than the limit, whatever came before.
  pub run_power_shell-ends :
      (start : Start) (before : List Event) (e : Event) (after : List Event)
      → IsEnding e
      → IsSettled (run_power_shell max_bytes start (before ++ e ∷ after))
  unfolding run_power_shell
  run_power_shell-ends start before e after end =
      when_settled (run max_bytes (before ++ e ∷ after) (begin start))
        (run-ends before e after (begin start) end (begin-Inv start))
        (run-Inv (before ++ e ∷ after) (begin start) (begin-Inv start))
