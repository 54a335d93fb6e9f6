-- ===== src/Queries/Writing.antt =====
-- `executeWrite` of services/dba-mcp/src/connectionManager.ts from the pool on: one transaction, and
-- what becomes of it on each path. The catalog warning, which rides on the result and on the error, is
-- left to Queries.
use mssql_data_api.Prelude.{
  ℕ, ◌+◌, ◌≡◌, refl, inl, inr, ◌⊎◌, Bool, true, false, Option, none, some, List, [], ◌∷◌,
  if◌then◌else◌, Bool-cases, ◌&&◌, All,
}
use mssql_data_api.Prelude.Text.{Text}

-- How the driver answers: whether the transaction begins, what a statement gives, none if it
-- fails, and whether a commit and each rollback succeed.
pub record Driver (Row : Type 0) : Type 0 where
  pub begins : Bool
  pub statement : Text → Option (List ℕ × List Row)
  pub commits : Bool
  pub rolls_back : Bool
  pub rolls_back_again : Bool

-- The calls on the transaction, with the SQL of a query and whether they succeed.
pub data Call : Type 0 where
  begin : Bool → Call
  query : Text → Bool → Call
  commit : Bool → Call
  rollback : Bool → Call

pub record Written (Row : Type 0) : Type 0 where
  pub rows_affected : ℕ
  pub committed : Bool
  pub recordset : List Row

unfoldable pub sum_rows : List ℕ → ℕ
sum_rows [] = 0
sum_rows (n ∷ l) = n + sum_rows l

module _ {Row : Type 0} (d : Driver Row) (sql : Text) where
  -- The `catch`: a rollback whose failure is ignored, and the error is thrown.
  unfoldable pub give_up : Bool → Option (Written Row) × List Call
  give_up ok = (none, rollback ok ∷ [])

  abbrev pub then_call : Call → Option (Written Row) × List Call → Option (Written Row) × List Call
  then_call c r = (r.0, c ∷ r.1)

  -- The end of the `try` block.
  unfoldable pub finish : Bool → Written Row → Option (Written Row) × List Call
  unfolding give_up
  finish true w =
      if d.commits
      then (some w, commit true ∷ [])
      else then_call (commit false) (give_up d.rolls_back)
  finish false w =
      if d.rolls_back
      then (some w, rollback true ∷ [])
      else then_call (rollback false) (give_up d.rolls_back_again)

  unfoldable pub run_statement :
      Bool → Option (List ℕ × List Row) → Option (Written Row) × List Call
  unfolding finish sum_rows
  run_statement commits none = then_call (query sql false) (give_up d.rolls_back)
  run_statement commits (some (affected, rows)) = then_call (query sql true) (
      finish commits
        (record { rows_affected = sum_rows affected; committed = commits; recordset = rows }))

  unfoldable pub execute_write : Bool → Option (Written Row) × List Call
  unfolding run_statement
  execute_write commits =
      if d.begins
      then then_call (begin true) (run_statement commits (d.statement sql))
      else (none, begin false ∷ [])

abbrev pub commits_in : List Call → Bool
commits_in [] = false
commits_in (commit true ∷ l) = true
commits_in (_ ∷ l) = commits_in l

abbrev pub last_call : List Call → Option Call
last_call [] = none
last_call (c ∷ []) = some c
last_call (c ∷ d ∷ l) = last_call (d ∷ l)

abbrev pub is_returned : {Row : Type 0} → Option (Written Row) → Bool
is_returned none = false
is_returned (some w) = true

-- How the calls end, with a result and where an error is thrown.
abbrev pub Ends : {Row : Type 0} → Bool → Option (Written Row) → Option Call → Type 0
Ends commits (some w) last =
    (w.committed ≡ commits) × (last ≡ some (if commits then commit true else rollback true))
Ends commits none last = (last ≡ some (begin false)) ⊎ ((ok : Bool) × (last ≡ some (rollback ok)))

abbrev pub IsSettled : {Row : Type 0} → Bool → Option (Written Row) × List Call → Type 0
IsSettled commits r =
    Ends commits r.0 (last_call r.1) × (commits_in r.1 ≡ (is_returned r.0 && commits))

-- A call that a write of the statement may make: no other statement, and a commit only if it is wanted.
abbrev pub IsAllowed : Text → Bool → Call → Type 0
IsAllowed sql commits (query q ok) = q ≡ sql
IsAllowed sql commits (commit ok) = commits ≡ true
IsAllowed sql commits (begin ok) = Unit
IsAllowed sql commits (rollback ok) = Unit

module _ {Row : Type 0} (d : Driver Row) (sql : Text) where
  finish-IsSettled :
      (commits : Bool) (w : Written Row)
      → w.committed ≡ commits
      → let r = finish d sql commits w in IsSettled commits (r.0, begin true ∷ query sql true ∷ r.1)
  unfolding finish give_up
  finish-IsSettled true w h = elim (Bool-cases d.commits) [
    | inl e ↦ rw e ((h, refl), refl)
    | inr e ↦ rw e (inr (d.rolls_back, refl), refl)
  ]
  finish-IsSettled false w h = elim (Bool-cases d.rolls_back) [
    | inl e ↦ rw e ((h, refl), refl)
    | inr e ↦ rw e (inr (d.rolls_back_again, refl), refl)
  ]

  statement-IsSettled :
      (commits : Bool) (o : Option (List ℕ × List Row))
      → let r = run_statement d sql commits o in IsSettled commits (r.0, begin true ∷ r.1)
  unfolding run_statement give_up
  statement-IsSettled commits none = (inr (d.rolls_back, refl), refl)
  statement-IsSettled commits (some (affected, rows)) =
      finish-IsSettled commits
        (record { rows_affected = sum_rows affected; committed = commits; recordset = rows }) refl

  finish-All :
      (commits : Bool) (w : Written Row) → All (IsAllowed sql commits) (finish d sql commits w).1
  unfolding finish give_up
  finish-All true w = elim (Bool-cases d.commits) [
    | inl e ↦ rw e (refl, tt)
    | inr e ↦ rw e (refl, (tt, tt))
  ]
  finish-All false w = elim (Bool-cases d.rolls_back) [
    | inl e ↦ rw e (tt, tt)
    | inr e ↦ rw e (tt, (tt, tt))
  ]

  statement-All :
      (commits : Bool) (o : Option (List ℕ × List Row))
      → All (IsAllowed sql commits) (run_statement d sql commits o).1
  unfolding run_statement give_up
  statement-All commits none = (refl, (tt, tt))
  statement-All commits (some (affected, rows)) = (
    refl,
    finish-All commits
        (record { rows_affected = sum_rows affected; committed = commits; recordset = rows }),
  )

  -- A write runs its own statement and no other, and commits only where that is wanted.
  pub execute_write-All :
      (commits : Bool) → All (IsAllowed sql commits) (execute_write d sql commits).1
  unfolding execute_write
  execute_write-All commits = elim (Bool-cases d.begins) [
    | inl e ↦ rw e (tt, statement-All commits (d.statement sql))
    | inr e ↦ rw e (tt, tt)
  ]

  -- Whatever the driver answers to the calls of `executeWrite`. Where a result is returned, the last
  -- call is the commit or the rollback that was asked for, it succeeded, and the result says which of the two
  -- it was. Where an error is thrown, the last call is a begin that failed, or a rollback, which may have
  -- failed as well, and no call of commit succeeded. What the text of the statement itself commits is
  -- the server's and is not among the calls.
  pub execute_write-IsSettled : (commits : Bool) → IsSettled commits (execute_write d sql commits)
  unfolding execute_write
  execute_write-IsSettled commits = elim (Bool-cases d.begins) [
    | inl e ↦ rw e (statement-IsSettled commits (d.statement sql))
    | inr e ↦ rw e (inl refl, refl)
  ]
