-- ===== src/Tools/Fans.antt =====
-- What `fan_out_query` of services/dba-mcp/src/tools.ts makes of the answers of its targets.
use mssql_data_api.Prelude.{ℕ, ◌≡◌, refl, true, none, List, [], ◌∷◌, map}
use mssql_data_api.Prelude.Text.{Text}
use mssql_data_api.Queries.{Batch, Scope, apply_row_limit, query_instance, finish_query}
use mssql_data_api.Tools.{
  Sent, reads, Answer, failed, answered, Queried, Instance, Setting, query, finish_answer,
  query_each,
}

module _ {Row : Type 0} (setting : Setting) (answer : Text → Batch → Answer Row) where
  -- The result of an instance alone.
  abbrev pub result_of : Text → Instance → Text × Queried Row
  result_of sql i = (
    i.name,
    (finish_answer setting answer i.name sql 200 (answer i.name (apply_row_limit sql 200 true))
        none).0,
  )

  abbrev pub sent_to : Text → Instance → Sent
  sent_to sql i = reads i.name (apply_row_limit sql 200 true)

  finish_answer-same :
      (name sql : Text) (max_rows : ℕ) (a : Answer Row) (scope other : Scope)
      → (finish_answer setting answer name sql max_rows a scope).0
        ≡ (finish_answer setting answer name sql max_rows a other).0
  unfolding finish_answer query_instance finish_query
  finish_answer-same name sql max_rows (failed m) scope other = refl
  finish_answer-same name sql max_rows (answered sets catalog) scope other = refl

  -- Every target gets the batch once, in the order of the fleet, and has the result that it would
  -- have alone: one that fails changes nothing for the others.
  pub query_each-separate :
      (sql : Text) (l : List Instance) (scope : Scope)
      → ((query_each setting answer sql l scope).0.0 ≡ map (result_of sql) l)
        × ((query_each setting answer sql l scope).1 ≡ map (sent_to sql) l)
  unfolding query_each query
  query_each-separate sql [] scope = (refl, refl)
  query_each-separate sql (i ∷ l) scope =
      let r = query setting answer i.name sql 200 scope in
      let rest = query_each-separate sql l r.0.1 in
      let same =
        finish_answer-same i.name sql 200 (answer i.name (apply_row_limit sql 200 true)) scope
          none in
      (cc (same, rest.0), cc rest.1)
