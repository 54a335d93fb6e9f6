-- ===== src/Worker/Lines.antt =====
-- `onData` of services/dba-mcp/src/pwshWorker.ts: the framing of replies by newlines.
-- No handler of a line reads or writes `buf`, so
-- all the lines of a chunk are cut first.
use mssql_data_api.Prelude.{
  ℕ, ◌≡◌, refl, sym, false, Option, none, some, List, [], ◌∷◌, ◌++◌, ◌==◌, if◌then◌else◌,
  append_assoc, Bool-cases, inl, inr,
}
use mssql_data_api.Prelude.Text.{Text, trim}
use mssql_data_api.Worker.{Worker, Reply, uncaught, Result, answer, reply_to}
use mssql_data_api.Worker.Pending.{lookup}

unfoldable pub prepend : ℕ → List Text × Text → List Text × Text
prepend c ([], rest) = ([], c ∷ rest)
prepend c (line ∷ more, rest) = ((c ∷ line) ∷ more, rest)

-- The lines that end in the text, and what is left of it.
unfoldable pub cut : Text → List Text × Text
cut [] = ([], [])
cut (c ∷ s) = let r = cut s in if c == 10 then ([] ∷ r.0, r.1) else prepend c r

-- One step after another, with what both did.
abbrev pub followed_by : {Row : Type 0} → Result Row → (Worker → Result Row) → Result Row
followed_by r f = ((f r.0).0, r.1 ++ (f r.0).1)

-- What `JSON.parse` makes of a line: it throws, or it is the text `null`, whose `id` cannot be read.
pub data Parsed (Row : Type 0) : Type 0 where
  malformed : Parsed Row
  null_value : Parsed Row
  value : Reply Row → Parsed Row

module _ {Row : Type 0} (parse : Text → Parsed Row) where
  unfoldable pub handle_parsed : Parsed Row → Worker → Result Row
  handle_parsed malformed w = (w, [])
  handle_parsed null_value w = (w, uncaught ∷ [])
  handle_parsed (value r) w = answer r r.id w

  unfoldable pub handle_trimmed : Text → Worker → Result Row
  handle_trimmed [] w = (w, [])
  handle_trimmed (c ∷ s) w = handle_parsed (parse (c ∷ s)) w

  unfoldable pub handle_line : Text → Worker → Result Row
  handle_line line w = handle_trimmed (trim line) w

  unfoldable pub handle_lines : List Text → Worker → Result Row
  handle_lines [] w = (w, [])
  handle_lines (line ∷ lines) w = followed_by (handle_line line w) (handle_lines lines)

  unfoldable pub on_data : Text → Worker → Result Row
  on_data chunk w =
      handle_lines (cut (w.buf ++ chunk)).0 (record w { buf = (cut (w.buf ++ chunk)).1 })

  abbrev set_buf : Text → Worker → Worker
  set_buf b w = record w { buf = b }

  reply_to-set_buf :
      (r : Reply Row) (id : ℕ) (o : Option ℕ) (b : Text) (w : Worker)
      → reply_to r id o (set_buf b w) ≡ (set_buf b (reply_to r id o w).0, (reply_to r id o w).1)
  unfolding reply_to
  reply_to-set_buf r id none b w = refl
  reply_to-set_buf r id (some p) b w = elim (Bool-cases r.ok) [
    | inl k ↦ rw k refl
    | inr k ↦ rw k refl
  ]

  answer-set_buf :
      (r : Reply Row) (o : Option ℕ) (b : Text) (w : Worker)
      → answer r o (set_buf b w) ≡ (set_buf b (answer r o w).0, (answer r o w).1)
  unfolding answer
  answer-set_buf r none b w = refl
  answer-set_buf r (some id) b w = reply_to-set_buf r id (lookup id w.pending) b w

  handle_line-set_buf :
      (line b : Text) (w : Worker)
      → handle_line line (set_buf b w) ≡ (set_buf b (handle_line line w).0, (handle_line line w).1)
  unfolding handle_line handle_parsed handle_trimmed
  handle_line-set_buf line b w = of_line (trim line)
    where
      of_parsed :
          (m : Parsed Row)
          → handle_parsed m (set_buf b w) ≡ (set_buf b (handle_parsed m w).0, (handle_parsed m w).1)
      of_parsed malformed = refl
      of_parsed null_value = refl
      of_parsed (value r) = answer-set_buf r r.id b w

      of_line :
          (s : Text)
          → handle_trimmed s (set_buf b w)
            ≡ (set_buf b (handle_trimmed s w).0, (handle_trimmed s w).1)
      of_line [] = refl
      of_line (c ∷ s) = of_parsed (parse (c ∷ s))

  handle_lines-set_buf :
      (lines : List Text) (b : Text) (w : Worker)
      → handle_lines lines (set_buf b w)
        ≡ (set_buf b (handle_lines lines w).0, (handle_lines lines w).1)
  unfolding handle_lines
  handle_lines-set_buf [] b w = refl
  handle_lines-set_buf (line ∷ lines) b w =
      rw (handle_line-set_buf line b w, handle_lines-set_buf lines b (handle_line line w).0) refl

  handle_lines-append :
      (l m : List Text) (w : Worker)
      → handle_lines (l ++ m) w ≡ followed_by (handle_lines l w) (handle_lines m)
  unfolding handle_lines
  handle_lines-append [] m w = refl
  handle_lines-append (line ∷ l) m w =
      rw
        (
          handle_lines-append l m (handle_line line w).0,
          append_assoc (handle_line line w).1 (handle_lines l (handle_line line w).0).1
              (handle_lines m (handle_lines l (handle_line line w).0).0).1,
        )
        refl

-- The lines of a text that goes on: those that end in the first part, then those that end in what
-- the first part left with the second.
cut-append :
    (x b : Text) → cut (x ++ b) ≡ ((cut x).0 ++ (cut ((cut x).1 ++ b)).0, (cut ((cut x).1 ++ b)).1)
unfolding cut prepend
cut-append [] b = refl
cut-append (c ∷ s) b = elim (Bool-cases (c == 10)) [
  | inl e ↦ rw (e, cut-append s b) refl
  | inr e ↦ rw (e, cut-append s b) (goes_on (cut s).0 (cut s).1 e)
]
  where
    goes_on :
        (l : List Text) (rest : Text)
        → (c == 10) ≡ false
        → prepend c (l ++ (cut (rest ++ b)).0, (cut (rest ++ b)).1) ≡ (
          (prepend c (l, rest)).0 ++ (cut ((prepend c (l, rest)).1 ++ b)).0,
          (cut ((prepend c (l, rest)).1 ++ b)).1,
        )
    goes_on [] rest e = rw e refl
    goes_on (line ∷ l) rest e = refl

-- How the chunks of stdout are cut does not matter: a chunk in two parts, each handled when it
-- comes, does what the whole chunk does, and leaves the same worker.
pub on_data-append :
    {Row : Type 0} (parse : Text → Parsed Row) (a b : Text) (w : Worker)
    → on_data parse (a ++ b) w ≡ followed_by (on_data parse a w) (on_data parse b)
unfolding on_data
on_data-append parse a b w =
    let l = (cut (w.buf ++ a)).0 in
    let rest = (cut (w.buf ++ a)).1 in
    let m = cut (rest ++ b) in
    rw
      (
        sym (append_assoc w.buf a b),
        cut-append (w.buf ++ a) b,
        handle_lines-append parse l m.0 (record w { buf = m.1 }),
        handle_lines-set_buf parse l m.1 w,
        handle_lines-set_buf parse l rest w,
      )
      refl
