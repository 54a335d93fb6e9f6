-- ===== src/Safety/Guard/Writes.antt =====
-- What `validateWriteQuery` of services/dba-mcp/src/safety.ts lets through.
use mssql_data_api.Prelude.{
  All-Mem, ◌≤◌, ◌≡◌, refl, Bool, true, false, not, ◌&&◌, none, [], ◌∷◌, arith, length, All, ◌⊎◌,
  inl, inr,
}
use mssql_data_api.Prelude.Text.{Text, codes, is_word}
use mssql_data_api.Prelude.Regex.{test}
use mssql_data_api.Prelude.Regex.Words.{IsWordIn, IsWordText}
use mssql_data_api.Prelude.Regex.Inversion.{word_sound}
use mssql_data_api.Safety.Patterns.{
  begins_with, write_starts, write_blocked, bare_cr, update_set, delete_from,
}
use mssql_data_api.Safety.Guard.{
  valid, max_query_length, first_blocked, clean, validate_write_query, where_word,
}
use mssql_data_api.Safety.Guard.Parts.{
  Groups, words_of, HasNone, Places-HasNone, HasNoBareReturn, bare_cr_missed, BeginsWith,
  BeginsWith-of_found,
}

-- The words that no accepted write has, with the places of their patterns.
abbrev pub write_groups : Groups
write_groups =
    (0, "CREATE" ∷ "ALTER" ∷ "DROP" ∷ [])
    ∷ (3, "GRANT" ∷ "REVOKE" ∷ "DENY" ∷ [])
    ∷ (7, "SP_PASSWORD" ∷ [])
    ∷ (9, "RECONFIGURE" ∷ [])
    ∷ (10, "SP_CONFIGURE" ∷ [])
    ∷ (11, "SHUTDOWN" ∷ [])
    ∷ (13, "DBCC" ∷ [])
    ∷ (14, "WAITFOR" ∷ [])
    ∷ (16, "RESTORE" ∷ [])
    ∷ (17, "MSDB" ∷ [])
    ∷ (20, "SP_ADD_OPERATOR" ∷ [])
    ∷ (21, "SP_EXECUTESQL" ∷ [])
    ∷ (26, "OPENROWSET" ∷ [])
    ∷ (27, "OPENDATASOURCE" ∷ [])
    ∷ (28, "OPENQUERY" ∷ [])
    ∷ []

write_groups-words : All (λ g. All (λ k. IsWordText (codes k)) g.1) write_groups
unfolding is_word
write_groups-words = assumption refl

write_starts-All : All (λ k. IsWordText (codes k)) write_starts
unfolding is_word
write_starts-All = assumption refl

module _ (query : Text) (allow : Bool) where
  -- The tests that an accepted write has passed.
  valid_parts :
      validate_write_query query allow ≡ valid
      → (length query ≤ max_query_length)
        × (test bare_cr query ≡ false)
        × (test (begins_with write_starts) (clean query) ≡ true)
        × (first_blocked write_blocked (clean query) ≡ none)
        × ((not allow && test update_set (clean query) && not (test where_word (clean query)))
            ≡ false)
        × ((not allow && test delete_from (clean query) && not (test where_word (clean query)))
            ≡ false)
  unfolding validate_write_query
  valid_parts h = ground arith

-- An accepted write has at most 20000 characters, a line feed after every carriage return, one
-- of the nine allowed first words, and none of the listed words as a whole word outside its
-- comments and string literals.
pub validate_write_query-HasNone :
    (query : Text) (allow : Bool)
    → validate_write_query query allow ≡ valid
    → (length query ≤ 20000)
      × HasNoBareReturn query
      × BeginsWith write_starts (clean query)
      × HasNone (words_of write_groups) (clean query)
unfolding write_blocked
validate_write_query-HasNone query allow h =
    let (short, returns, begins, missed, _, _) = valid_parts query allow h in
    (
      short,
      bare_cr_missed query returns,
      BeginsWith-of_found write_starts (clean query)
          (λ k. All-Mem (λ j. IsWordText (codes j)) write_starts k write_starts-All) begins,
      Places-HasNone write_blocked write_groups (clean query) (assumption refl) write_groups-words
          missed,
    )

where_of : (a b : Bool) → (not false && a && not b) ≡ false → a ≡ true → b ≡ true
where_of a b h k = ground arith

-- An accepted write in which the pattern of an UPDATE or the pattern of a DELETE is found has
-- WHERE as a whole word, unless unfiltered writes were allowed.
pub validate_write_query-filtered :
    (query : Text)
    → validate_write_query query false ≡ valid
    → (test update_set (clean query) ≡ true) ⊎ (test delete_from (clean query) ≡ true)
    → IsWordIn (codes "WHERE") (clean query)
unfolding is_word
validate_write_query-filtered query h found =
    let (_, _, _, _, update, delete) = valid_parts query false h in
    word_sound "WHERE" (clean query) (refl, refl)
      (elim found [
        | inl u ↦ where_of (test update_set (clean query)) _ update u
        | inr d ↦ where_of (test delete_from (clean query)) _ delete d
      ])
