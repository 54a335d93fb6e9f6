-- ===== src/Queries.antt =====
-- The query path of services/dba-mcp/src/connectionManager.ts behind the pool: the row cap, the
-- notices of a tool call, and the write transaction. The names of instances have no `|`, so that the
-- keys of the notices are told apart by their kind.
pub mod Caps
pub mod Notices
pub mod Writing
mod Tests
use mssql_data_api.Prelude.{
  ℕ, suc, ◌+◌, ◌==◌, ltb, Bool, true, false, not, ◌&&◌, ◌||◌, Option, none, some, List, [], ◌∷◌,
  if◌then◌else◌, length, take, map,
}
use mssql_data_api.Prelude.Text.{Text, eq_text, is_space}
use mssql_data_api.Prelude.Regex.{Regex, one, ◌⋆◌, boundary, word, test}
use mssql_data_api.Safety.Lexer.{strip_noise}
use mssql_data_api.Safety.Patterns.{maybe_spaces, two_words}

-- The text that is sent: as it is, or between `SET ROWCOUNT n` and `SET ROWCOUNT 0`.
pub data Batch : Type 0 where
  plain : Text → Batch
  limited : ℕ → Text → Batch

-- `\bTOP\s*\(` and `\bSET\s+ROWCOUNT\b`
unfoldable pub top_bound : Regex
unfolding word is_space
top_bound = boundary ⋆ word "TOP" ⋆ maybe_spaces ⋆ one (λ c. c == b'(')

unfoldable pub set_rowcount : Regex
unfolding word is_space
set_rowcount = two_words "SET" ("ROWCOUNT" ∷ [])

unfoldable pub apply_row_limit : Text → ℕ → Bool → Batch
apply_row_limit sql max_rows user_sql =
    let code = strip_noise sql in
    if not user_sql && (test top_bound code || test set_rowcount code)
    then plain sql
    else limited (max_rows + 1) sql

-- The keys and the notices of the scope of a tool call, oldest first. A key that is set again keeps
-- its place.
pub data Key : Type 0 where
  fallback : Text → Key
  row_cap : Text → ℕ → Key
  result_sets : Text → Key

abbrev pub same_key : Key → Key → Bool
same_key (fallback a) (fallback b) = eq_text a b
same_key (row_cap a m) (row_cap b n) = eq_text a b && (m == n)
same_key (result_sets a) (result_sets b) = eq_text a b
same_key _ _ = false

pub data Notice : Type 0 where
  on_catalog : Text → Notice
  cut_at : ℕ → Text → Notice
  first_of : ℕ → Text → Notice

abbrev pub Notices : Type 0
Notices = List (Key × Notice)

-- `getStore()`: `none` outside a scope.
abbrev pub Scope : Type 0
Scope = Option Notices

unfoldable pub set_notice : Key → Notice → Notices → Notices
set_notice k n [] = (k, n) ∷ []
set_notice k n ((j, m) ∷ l) =
    let rest = set_notice k n l in if same_key j k then (j, n) ∷ l else (j, m) ∷ rest

abbrev pub note : Key → Notice → Scope → Scope
note k n none = none
note k n (some l) = some (set_notice k n l)

unfoldable pub note_row_cap : Text → ℕ → Scope → Scope
note_row_cap name max_rows scope = note (row_cap name max_rows) (cut_at max_rows name) scope

unfoldable pub note_result_sets : Text → ℕ → Scope → Scope
note_result_sets name count scope = note (result_sets name) (first_of count name) scope

unfoldable pub note_catalog_fallback : Text → Text → Scope → Scope
note_catalog_fallback name warning scope = note (fallback name) (on_catalog warning) scope

-- The notice of `catalogFallback`, if it has a warning.
abbrev pub note_fallback : Text → Option Text → Scope → Scope
note_fallback name none scope = scope
note_fallback name (some warning) scope = note_catalog_fallback name warning scope

-- A part of a tool result: a text of the tool, or the banner that joins the notices.
pub data Content : Type 0 where
  text : Text → Content
  banner : List Notice → Content

abbrev pub notices : Notices → List Notice
notices l = map (λ e. e.1) l

-- `content` is `none` if it is not an array.
unfoldable pub attach_catalog_fallbacks : Scope → Option (List Content) → Option (List Content)
attach_catalog_fallbacks none content = content
attach_catalog_fallbacks (some []) content = content
attach_catalog_fallbacks (some (e ∷ l)) none = none
attach_catalog_fallbacks (some (e ∷ l)) (some content) = some (banner (notices (e ∷ l)) ∷ content)

module _ {Row : Type 0} where
  unfoldable pub cap_rows : List Row → ℕ → List Row × Bool
  cap_rows rows max_rows =
      let truncated = ltb max_rows (length rows) in
      (if truncated then take max_rows rows else rows, truncated)

  -- `recordsets?.[0] ?? []`
  abbrev pub first_set : Option (List (List Row)) → List Row
  first_set none = []
  first_set (some []) = []
  first_set (some (rows ∷ sets)) = rows

  abbrev pub set_count : Option (List (List Row)) → ℕ
  set_count none = 0
  set_count (some sets) = length sets

  unfoldable pub finish_query :
      Text → Option (List (List Row)) → ℕ → Bool → Bool → Scope → (List Row × Bool) × Scope
  unfolding cap_rows note_row_cap note_result_sets
  finish_query name recordsets max_rows note_truncation user_sql scope =
      let capped = cap_rows (first_set recordsets) max_rows in
      let noted = if capped.1 && note_truncation then note_row_cap name max_rows scope else scope in
      let sets = set_count recordsets in
      (capped, if user_sql && ltb 1 sets then note_result_sets name sets noted else noted)

  -- `queryInstance` from the pool on; `server` is what the instance answers to a batch, `catalog`
  -- the warning of `catalogFallback`, which is also returned as it is.
  unfoldable pub query_instance :
      (Batch → Option (List (List Row)))
      → Option Text
      → Text
      → Text
      → ℕ
      → Bool
      → Bool
      → Scope
      → (List Row × Bool) × Scope
  unfolding apply_row_limit finish_query note_catalog_fallback
  query_instance server catalog name sql max_rows note_truncation user_sql scope =
      let answer = server (apply_row_limit sql max_rows user_sql) in
      let finished = finish_query name answer max_rows note_truncation user_sql scope in
      (finished.0, note_fallback name catalog finished.1)
