-- ===== src/Pools/Errors.antt =====
-- `sqlErrorNumbers` and `isCatalogUnavailable` of services/dba-mcp/src/connectionManager.ts. The
-- error objects are a heap: `heap` gives the fields of an object, numbered, so that they can be
-- shared or cyclic; a field that is not an object is none.
use mssql_data_api.Prelude.{
  ℕ, zero, suc, ◌==◌, Bool, ◌||◌, Option, none, some, List, [], ◌∷◌, ◌++◌, any, if◌then◌else◌,
}
use mssql_data_api.Prelude.Text.{Text}
use mssql_data_api.Prelude.Regex.{Regex, one_of, test}

pub record Node : Type 0 where
  pub number : Option ℕ
  pub info : Option ℕ
  pub original_error : Option ℕ
  pub errors : List ℕ

-- The numbers found and the objects seen.
abbrev pub Found : Type 0
Found = List ℕ × List ℕ

abbrev pub each : (ℕ → Found → Found) → List ℕ → Found → Found
each f [] s = s
each f (x ∷ l) s = each f l (f x s)

abbrev pub optionally : (ℕ → Found → Found) → Option ℕ → Found → Found
optionally f none s = s
optionally f (some x) s = f x s

abbrev pub noted : Option ℕ → ℕ → Found → Found
noted none x s = (s.0, x ∷ s.1)
noted (some n) x s = (s.0 ++ n ∷ [], x ∷ s.1)

-- `walk`; the fuel is what is left of the depth, which may not exceed 6.
unfoldable pub walk : (ℕ → Node) → ℕ → ℕ → Found → Found
walk heap zero x s = s
walk heap (suc depth) x s =
    let below = walk heap depth in
    let o = heap x in
    if any (λ y. y == x) s.1
    then s
    else each below o.errors
        (optionally below o.original_error (optionally below o.info (noted o.number x s)))

unfoldable pub sql_error_numbers : (ℕ → Node) → Option ℕ → List ℕ
unfolding walk
sql_error_numbers heap none = []
sql_error_numbers heap (some e) = (walk heap 7 e ([], [])).0

abbrev pub catalog_unavailable_errors : List ℕ
catalog_unavailable_errors = 905 ∷ 911 ∷ 926 ∷ 927 ∷ 942 ∷ 945 ∷ 4060 ∷ 18456 ∷ []

-- What is thrown: its object, if it is one, and its message.
pub record Thrown : Type 0 where
  pub heap : ℕ → Node
  pub object : Option ℕ
  pub message : Text

unfoldable pub catalog_text : Regex
unfolding one_of
catalog_text = one_of (
    "cannot open database" ∷ "marked suspect" ∷ "is offline" ∷ "not available"
    ∷ "login failed for user" ∷ [])

unfoldable pub is_catalog_unavailable : Thrown → Bool
unfolding sql_error_numbers test catalog_text
is_catalog_unavailable e =
    any (λ n. any (λ m. m == n) catalog_unavailable_errors) (sql_error_numbers e.heap e.object)
    || test catalog_text e.message
