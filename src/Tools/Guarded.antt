-- ===== src/Tools/Guarded.antt =====
-- What the tools of services/dba-mcp/src/tools.ts let reach an instance.
use mssql_data_api.Prelude.{
  ℕ, ◌≤◌, ◌≡◌, refl, Bool, true, some, List, [], ◌∷◌, ◌++◌, All, Bool-cases, inl, inr, ◌⊎◌, length,
}
use mssql_data_api.Prelude.Text.{Text}
use mssql_data_api.Safety.Guard.{
  Verdict, valid, invalid, clean, validate_query, validate_write_query,
}
use mssql_data_api.Safety.Guard.Parts.{words_of, HasNone, HasNoBareReturn, BeginsWith}
use mssql_data_api.Safety.Guard.Reads.{read_groups, validate_query-HasNone}
use mssql_data_api.Safety.Guard.Writes.{write_groups, validate_write_query-HasNone}
use mssql_data_api.Safety.Patterns.{write_starts}
use mssql_data_api.Queries.{Batch, Scope, apply_row_limit}
use mssql_data_api.Queries.Writing
use mssql_data_api.Queries.Writing.{Driver, IsAllowed, execute_write, execute_write-All}
use mssql_data_api.Tools.{
  Sent, reads, writes, Answer, Shown, Instance, Setting, write_enabled, Call, query_call,
  write_call, fan_call, query, queried, checked, execute_query, query_each, fan_targets, targets,
  fan_out_query, write_on, write_tool, handle, run_tool,
}

-- The statement that a call carries.
abbrev pub sql_of : Call → Text
sql_of (query_call name sql allow) = sql
sql_of (write_call name sql confirm allow) = sql
sql_of (fan_call sql region subset allow) = sql

abbrev pub IsRead : Text → Sent → Type 0
IsRead sql (reads name batch) =
    (max_rows : ℕ) × (batch ≡ apply_row_limit sql max_rows true)
    × HasNone (words_of read_groups) (clean sql)
IsRead sql (writes name calls) = ⊥

abbrev pub IsWrite : Setting → Call → Text → List Writing.Call → Type 0
IsWrite setting call name calls =
    (write_enabled setting ≡ true)
    × (sql : Text) × (confirm : Bool) × (allow : Bool) × (call ≡ write_call name sql confirm allow)
    × All (IsAllowed sql confirm) calls
    × (length sql ≤ 20000)
    × HasNoBareReturn sql
    × BeginsWith write_starts (clean sql)
    × HasNone (words_of write_groups) (clean sql)

-- A read is the capped batch of the call's statement, which has none of the words that are not for
-- reads. The calls of a write run the statement of the call alone, and commit only if the call wants it,
-- where writing is enabled.
abbrev pub IsGuarded : Setting → Call → Sent → Type 0
IsGuarded setting call (reads name batch) = IsRead (sql_of call) (reads name batch)
IsGuarded setting call (writes name calls) = IsWrite setting call name calls

All-append : {A : Type 0} (P : A → Type 0) (l m : List A) → All P l → All P m → All P (l ++ m)
All-append P [] m h k = k
All-append P (x ∷ l) m (h, hs) k = (h, All-append P l m hs k)

All-weaken :
    {A : Type 0} (P Q : A → Type 0) (l : List A) → ((x : A) → P x → Q x) → All P l → All Q l
All-weaken P Q [] f h = tt
All-weaken P Q (x ∷ l) f (h, hs) = (f x h, All-weaken P Q l f hs)

guarded :
    (setting : Setting) (call : Call) (l : List Sent)
    → All (IsRead (sql_of call)) l
    → All (IsGuarded setting call) l
guarded setting call l h = All-weaken (IsRead (sql_of call)) (IsGuarded setting call) l one h
  where
    one : (s : Sent) → IsRead (sql_of call) s → IsGuarded setting call s
    one (reads name b) k = k
    one (writes name calls) k = elim k [ ]

module _ {Row : Type 0} (setting : Setting) (answer : Text → Batch → Answer Row) where
  query-All :
      (name sql : Text) (max_rows : ℕ) (scope : Scope)
      → HasNone (words_of read_groups) (clean sql)
      → All (IsRead sql) (query setting answer name sql max_rows scope).1
  unfolding query
  query-All name sql max_rows scope h = ((max_rows, refl, h), tt)

  checked-All :
      (sql : Text) (v : Verdict) (scope : Scope) (r : (Shown Row × Scope) × List Sent)
      (P : Sent → Type 0)
      → (v ≡ valid → All P r.1)
      → All P (checked setting answer v scope r).1
  checked-All sql valid scope r P h = h refl
  checked-All sql (invalid reason) scope r P h = tt

  each-All :
      (sql : Text) (l : List Instance) (scope : Scope)
      → HasNone (words_of read_groups) (clean sql)
      → All (IsRead sql) (query_each setting answer sql l scope).1
  unfolding query_each
  each-All sql [] scope h = tt
  each-All sql (i ∷ l) scope h =
      let r = query setting answer i.name sql 200 scope in
      All-append (IsRead sql) r.1 (query_each setting answer sql l r.0.1).1
        (query-All i.name sql 200 scope h) (each-All sql l r.0.1 h)

  fan-All :
      (sql : Text) (l : List Instance) (scope : Scope)
      → HasNone (words_of read_groups) (clean sql)
      → All (IsRead sql) (fan_targets setting answer sql l scope).1
  unfolding fan_targets
  fan-All sql [] scope h = tt
  fan-All sql (i ∷ l) scope h = each-All sql (i ∷ l) scope h

  module _ (driver : Text → Text ⊎ Driver Row) (failure : Text → Text) where
    write-All :
        (o : Text ⊎ Driver Row) (name sql : Text) (confirm : Bool) (P : Sent → Type 0)
        → ((d : Driver Row) → P (writes name (execute_write d sql confirm).1))
        → All P (write_on setting answer driver failure o name sql confirm).1
    unfolding write_on
    write-All (inl m) name sql confirm P h = tt
    write-All (inr d) name sql confirm P h = (h d, tt)

    tool-All :
        (name sql : Text) (confirm allow : Bool) (scope : Scope)
        → All
            (IsGuarded setting (write_call name sql confirm allow))
            (write_tool setting answer driver failure name sql confirm allow scope).1
    unfolding write_tool
    tool-All name sql confirm allow scope = elim (Bool-cases (write_enabled setting)) [
      | inl e ↦ rw e (
          checked-All sql (validate_write_query sql allow) scope
            (
              ((write_on setting answer driver failure (driver name) name sql confirm).0, scope),
              (write_on setting answer driver failure (driver name) name sql confirm).1,
            )
            (IsGuarded setting (write_call name sql confirm allow))
            (λ v.
              let w = validate_write_query-HasNone sql allow v in
              write-All (driver name) name sql confirm
                (IsGuarded setting (write_call name sql confirm allow))
                (λ d. (
                  e,
                  sql,
                  confirm,
                  allow,
                  refl,
                  execute_write-All d sql confirm,
                  w.0,
                  w.1,
                  w.2,
                  w.3,
                ))))
      | inr e ↦ rw e tt
    ]

    -- For any call of the three tools that run the SQL of a caller, and whatever the instances answer:
    -- a read that reaches an instance is the capped batch of the call's statement, which has none of the
    -- listed words outside comments and literals; a transaction on a write connection is that of a call
    -- of `execute_write` where writing is enabled, runs the statement of the call and no other, which
    -- passed the write guard, and calls commit only where the call asks for it.
    pub run_tool-IsGuarded :
        (print : Shown Row → Text) (lower : Text → Text) (call : Call)
        → All (IsGuarded setting call) (run_tool setting answer driver failure print lower call).1
    unfolding run_tool handle execute_query fan_out_query
    run_tool-IsGuarded print lower (query_call name sql allow) =
        checked-All sql (validate_query setting.tables sql allow) (some [])
          (queried setting answer (query setting answer name sql 500 (some [])))
          (IsGuarded setting (query_call name sql allow))
          (λ v.
            guarded setting (query_call name sql allow)
              (query setting answer name sql 500 (some [])).1
              (query-All name sql 500 (some [])
                (validate_query-HasNone setting.tables sql allow v)))
    run_tool-IsGuarded print lower (write_call name sql confirm allow) =
        tool-All name sql confirm allow (some [])
    run_tool-IsGuarded print lower (fan_call sql region subset allow) =
        checked-All sql (validate_query setting.tables sql allow) (some [])
          (fan_targets setting answer sql (targets setting answer lower region subset setting.fleet)
            (some []))
          (IsGuarded setting (fan_call sql region subset allow))
          (λ v.
            guarded setting (fan_call sql region subset allow)
              (fan_targets setting answer sql
                (targets setting answer lower region subset setting.fleet) (some [])).1
              (fan-All sql (targets setting answer lower region subset setting.fleet) (some [])
                (validate_query-HasNone setting.tables sql allow v)))
