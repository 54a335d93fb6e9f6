-- ===== src/Tools.antt =====
-- The tools of services/dba-mcp/src/tools.ts that run the SQL of a caller: `execute_query`,
-- `execute_write` and `fan_out_query`, with the small checks of the same file in Tools/Checks. What an
-- instance answers to a batch, the pool included, is given, and so is how a result is printed.
pub mod Checks
mod Guarded
mod Fans
mod Tests
use mssql_data_api.Prelude.{
  ℕ, ◌+◌, Bool, true, false, not, ◌&&◌, ◌||◌, Option, none, some, List, [], ◌∷◌, ◌++◌,
  if◌then◌else◌, any, take, length, ◌⊎◌, inl, inr,
}
use mssql_data_api.Prelude.Text.{Text, codes, eq_text}
use mssql_data_api.Safety.Guard.{
  Verdict, valid, invalid, Reason, validate_query, validate_write_query,
}
use mssql_data_api.Queries.{
  Batch, Scope, Content, text, banner, apply_row_limit, query_instance, attach_catalog_fallbacks,
  note_catalog_fallback,
}
use mssql_data_api.Queries.Writing
use mssql_data_api.Queries.Writing.{Driver, Written, execute_write}

-- What a tool has an instance run: a batch on a read connection, or the calls on the transaction of a
-- write connection.
pub data Sent : Type 0 where
  reads : Text → Batch → Sent
  writes : Text → List Writing.Call → Sent

-- What `queryInstance` gets from an instance: the message of an exception, or the record sets and
-- the warning of the catalog.
pub data Answer (Row : Type 0) : Type 0 where
  failed : Text → Answer Row
  answered : Option (List (List Row)) → Option Text → Answer Row

-- A result of `queryInstance`, none with the message where it throws.
pub data Queried (Row : Type 0) : Type 0 where
  threw : Text → Queried Row
  returned : List Row → Bool → Option Text → Queried Row

-- The content of a tool result, before it is printed.
pub data Shown (Row : Type 0) : Type 0 where
  refused : Reason → Shown Row
  error : Text → Shown Row
  no_instances : Shown Row
  table : Option Text → List Row → Option ℕ → Shown Row
  applied : Text → ℕ → List Row → Shown Row
  dry_run : Text → ℕ → List Row → Shown Row
  fanned : ℕ → ℕ → List (Text × Queried Row) → Shown Row

pub record Instance : Type 0 where
  pub name : Text
  pub region : Option Text

-- The settings: the tables of `validateQuery`, and TOOLSET, in lower case, and ENG_WRITE_ENABLED.
pub record Setting : Type 0 where
  pub tables : List Text
  pub toolset : Text
  pub eng_write : Option Text
  pub fleet : List Instance

abbrev pub is_one : Option Text → Bool
is_one none = false
is_one (some s) = eq_text s (codes "1")

-- `WRITE_ENABLED`
unfoldable pub write_enabled : Setting → Bool
write_enabled t = eq_text t.toolset (codes "eng-write") && is_one t.eng_write

pub data Call : Type 0 where
  query_call : Text → Text → Bool → Call
  write_call : Text → Text → Bool → Bool → Call
  fan_call : Text → Option Text → List Text → Bool → Call

abbrev pub or_empty : Option Text → Text
or_empty none = []
or_empty (some s) = s

-- A region that is missing and one that is empty filter nothing.
abbrev pub in_region : (Text → Text) → Option Text → Instance → Bool
in_region lower none i = true
in_region lower (some []) i = true
in_region lower (some (c ∷ s)) i = eq_text (lower (or_empty i.region)) (lower (c ∷ s))

module _ {Row : Type 0} (setting : Setting) (answer : Text → Batch → Answer Row) where
  unfoldable pub finish_answer : Text → Text → ℕ → Answer Row → Scope → Queried Row × Scope
  unfolding query_instance
  finish_answer name sql max_rows (failed message) scope = (threw message, scope)
  finish_answer name sql max_rows (answered sets catalog) scope =
      let r = query_instance (λ b. sets) catalog name sql max_rows false true scope in
      (returned r.0.0 r.0.1 catalog, r.1)

  -- `queryInstance(name, sql, maxRows, { noteTruncation: false, userSql: true })`
  unfoldable pub query : Text → Text → ℕ → Scope → (Queried Row × Scope) × List Sent
  unfolding finish_answer apply_row_limit
  query name sql max_rows scope =
      let batch = apply_row_limit sql max_rows true in
      (finish_answer name sql max_rows (answer name batch) scope, reads name batch ∷ [])

  abbrev pub shown_query : Queried Row → Shown Row
  shown_query (threw message) = error message
  shown_query (returned rows truncated catalog) =
      table catalog rows (if truncated then some 500 else none)

  abbrev pub queried : (Queried Row × Scope) × List Sent → (Shown Row × Scope) × List Sent
  queried r = ((shown_query r.0.0, r.0.1), r.1)

  abbrev pub checked :
      Verdict → Scope → (Shown Row × Scope) × List Sent → (Shown Row × Scope) × List Sent
  checked (invalid reason) scope r = ((refused reason, scope), [])
  checked valid scope r = r

  unfoldable pub execute_query : Text → Text → Bool → Scope → (Shown Row × Scope) × List Sent
  unfolding query validate_query
  execute_query name sql allow_large_scan scope =
      checked (validate_query setting.tables sql allow_large_scan) scope
        (queried (query name sql 500 scope))

  abbrev pub targeted : (Text → Text) → Option Text → List Text → Instance → Bool
  targeted lower region [] i = in_region lower region i
  targeted lower region (n ∷ l) i = in_region lower region i && any (λ m. eq_text m i.name) (n ∷ l)

  unfoldable pub targets : (Text → Text) → Option Text → List Text → List Instance → List Instance
  targets lower region subset [] = []
  targets lower region subset (i ∷ l) =
      let rest = targets lower region subset l in
      if targeted lower region subset i then i ∷ rest else rest

  -- The queries of all targets; the scope passes through them in the order of the targets.
  unfoldable pub query_each :
      Text → List Instance → Scope → (List (Text × Queried Row) × Scope) × List Sent
  unfolding query
  query_each sql [] scope = (([], scope), [])
  query_each sql (i ∷ l) scope =
      let r = query i.name sql 200 scope in
      let rest = query_each sql l r.0.1 in (((i.name, r.0.0) ∷ rest.0.0, rest.0.1), r.1 ++ rest.1)

  abbrev pub has_failed : Queried Row → Bool
  has_failed (threw message) = true
  has_failed (returned rows truncated catalog) = false

  unfoldable pub count_failed : List (Text × Queried Row) → ℕ
  count_failed [] = 0
  count_failed ((n, r) ∷ l) = let rest = count_failed l in if has_failed r then rest + 1 else rest

  unfoldable pub fan_targets : Text → List Instance → Scope → (Shown Row × Scope) × List Sent
  unfolding query_each count_failed
  fan_targets sql [] scope = ((no_instances, scope), [])
  fan_targets sql (i ∷ l) scope =
      let r = query_each sql (i ∷ l) scope in
      ((fanned (length (i ∷ l)) (count_failed r.0.0) r.0.0, r.0.1), r.1)

  unfoldable pub fan_out_query :
      (Text → Text)
      → Text
      → Option Text
      → List Text
      → Bool
      → Scope
      → (Shown Row × Scope) × List Sent
  unfolding fan_targets targets validate_query
  fan_out_query lower sql region subset allow_large_scan scope =
      checked (validate_query setting.tables sql allow_large_scan) scope
        (fan_targets sql (targets lower region subset setting.fleet) scope)

  module _ (driver : Text → Text ⊎ Driver Row) (failure : Text → Text) where
    abbrev pub shown_write : Bool → Text → Option (Written Row) → Shown Row
    shown_write commits name none = error (failure name)
    shown_write true name (some w) = applied name w.rows_affected (take 50 w.recordset)
    shown_write false name (some w) = dry_run name w.rows_affected (take 20 w.recordset)

    -- `executeWrite`, whose `getPool` may throw.
    unfoldable pub write_on : Text ⊎ Driver Row → Text → Text → Bool → Shown Row × List Sent
    unfolding execute_write
    write_on (inl message) name sql confirm = (error message, [])
    write_on (inr d) name sql confirm =
        let r = execute_write d sql confirm in (shown_write confirm name r.0, writes name r.1 ∷ [])

    -- The tool is there only where writing is enabled; `error []` stands for the answer of the SDK to
    -- the name of a tool that it does not know.
    unfoldable pub write_tool : Text → Text → Bool → Bool → Scope → (Shown Row × Scope) × List Sent
    unfolding write_on validate_write_query write_enabled
    write_tool name sql confirm allow_unfiltered scope =
        let r = write_on (driver name) name sql confirm in
        if write_enabled setting
        then checked (validate_write_query sql allow_unfiltered) scope ((r.0, scope), r.1)
        else ((error [], scope), [])

    unfoldable pub handle : (Text → Text) → Call → Scope → (Shown Row × Scope) × List Sent
    unfolding execute_query write_tool fan_out_query
    handle lower (query_call name sql allow) scope = execute_query name sql allow scope
    handle lower (write_call name sql confirm allow) scope = write_tool name sql confirm allow scope
    handle lower (fan_call sql region subset allow) scope =
        fan_out_query lower sql region subset allow scope

    -- `roTool` and the wrapper of `execute_write`: the handler in a scope of its own, whose notices
    -- are put before its result.
    unfoldable pub run_tool :
        (Shown Row → Text) → (Text → Text) → Call → Option (List Content) × List Sent
    unfolding handle attach_catalog_fallbacks
    run_tool print lower call =
        let r = handle lower call (some []) in
        (attach_catalog_fallbacks r.0.1 (some (text (print r.0.0) ∷ [])), r.1)
