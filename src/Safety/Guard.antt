-- ===== src/Safety/Guard.antt =====
-- `validateQuery` and `validateWriteQuery` of services/dba-mcp/src/safety.ts. The reasons carry
-- what the messages interpolate, but for the table's name in the scan message.
pub mod Parts
pub mod Reads
pub mod Writes
mod Tests
use mssql_data_api.Prelude.{
  ℕ, String, Bool, true, false, not, ◌&&◌, ◌||◌, Option, none, some, List, [], ◌∷◌, if◌then◌else◌,
  ltb, ◌==◌, length, take,
}
use mssql_data_api.Prelude.Text.{Text, codes, trim}
use mssql_data_api.Prelude.Regex.{Regex, one, ◌⋆◌, ◌∣∣◌, boundary, letters, test, keyword}
use mssql_data_api.Safety.Lexer.{strip_noise}
use mssql_data_api.Safety.Patterns.{
  begins_with, read_starts, write_starts, read_blocked, write_blocked, bare_cr, update_set,
  delete_from,
}

pub data Reason : Type 0 where
  too_long : ℕ → Reason
  carriage_return : Reason
  bad_start : Text → Reason
  blocked : String → Reason
  large_scan : Reason
  unfiltered_update : Reason
  unfiltered_delete : Reason

pub data Verdict : Type 0 where
  valid : Verdict
  invalid : Reason → Verdict

abbrev pub max_query_length : ℕ
max_query_length = 20000

-- `s.split(sep)` at one character.
unfoldable pub split : ℕ → Text → List Text
split sep [] = [] ∷ []
split sep (c ∷ s) =
    let rest = split sep s in
    if c == sep
    then [] ∷ rest
    else elim rest [ [] ↦ (c ∷ []) ∷ [] | part ∷ more ↦ (c ∷ part) ∷ more ]

abbrev is_empty : Text → Bool
is_empty [] = true
is_empty (c ∷ s) = false

-- `.map((s) => s.trim()).filter(Boolean)`
unfoldable pub trim_all : List Text → List Text
trim_all [] = []
trim_all (s ∷ l) = let rest = trim_all l in if is_empty (trim s) then rest else trim s ∷ rest

-- `SENSITIVE_TABLES`, from the environment variable of that name.
unfoldable pub sensitive_tables : Option Text → List Text
unfolding split trim_all trim
sensitive_tables none = trim_all (split b',' (codes "messageLog"))
sensitive_tables (some raw) = trim_all (split b',' raw)

unfoldable pub any_table : List Text → Regex
unfolding letters
any_table [] = one (λ c. false)
any_table (t ∷ []) = letters t
any_table (t ∷ u ∷ l) = letters t ∣∣ any_table (u ∷ l)

-- `SENSITIVE_RE`: null if there are no tables. The case folding is that of ASCII letters.
unfoldable pub sensitive_re : List Text → Option Regex
unfolding any_table
sensitive_re [] = none
sensitive_re (t ∷ l) = some (boundary ⋆ any_table (t ∷ l) ⋆ boundary)

-- The loop over a pattern list: the label of the first pattern that is found.
unfoldable pub first_blocked : List (Regex × String) → Text → Option String
first_blocked [] s = none
first_blocked ((pattern, label) ∷ l) s =
    let rest = first_blocked l s in if test pattern s then some label else rest

unfoldable pub is_bounded : Text → Bool
is_bounded s =
    test (keyword ("WHERE" ∷ [])) s
    || test (keyword ("TOP" ∷ [])) s
    || test (keyword ("OFFSET" ∷ [])) s

-- `SENSITIVE_RE` is there and found.
unfoldable pub touches : Option Regex → Text → Bool
touches none s = false
touches (some r) s = test r s

-- The text that the patterns are run on.
unfoldable pub clean : Text → Text
clean query = trim (strip_noise query)

abbrev pub or_blocked : Option String → Verdict → Verdict
or_blocked none v = v
or_blocked (some label) v = invalid (blocked label)

module _ (tables : List Text) where
  unfoldable pub validate_query : Text → Bool → Verdict
  validate_query query allow_large_scan =
      if ltb max_query_length (length query)
      then invalid (too_long (length query))
      else if test bare_cr query
      then invalid carriage_return
      else if not (test (begins_with read_starts) (clean query))
      then invalid (bad_start (take 60 (clean query)))
      else or_blocked (first_blocked read_blocked (clean query)) (
          if not allow_large_scan
            && touches (sensitive_re tables) (clean query)
            && not (is_bounded (clean query))
          then invalid large_scan
          else valid)

abbrev where_word : Regex
where_word = keyword ("WHERE" ∷ [])

unfoldable pub validate_write_query : Text → Bool → Verdict
validate_write_query query allow_unfiltered =
    if ltb max_query_length (length query)
    then invalid (too_long (length query))
    else if test bare_cr query
    then invalid carriage_return
    else if not (test (begins_with write_starts) (clean query))
    then invalid (bad_start (take 60 (clean query)))
    else or_blocked (first_blocked write_blocked (clean query)) (
        if not allow_unfiltered
          && test update_set (clean query)
          && not (test where_word (clean query))
        then invalid unfiltered_update
        else if not allow_unfiltered
            && test delete_from (clean query)
            && not (test where_word (clean query))
        then invalid unfiltered_delete
        else valid)
