-- ===== src/Safety/Guard/Reads.antt =====
-- What `validateQuery` of services/dba-mcp/src/safety.ts lets through.
use mssql_data_api.Prelude.{
  ℕ, ◌≤◌, ◌≡◌, refl, ap, ◌∙◌, Bool, true, false, not, ◌&&◌, Option, none, some, String, List, [],
  ◌∷◌, ◌++◌, map, arith, length, All, Bool-cases, inl, inr,
}
use mathlib.Core.List.{Memᴰ}
use mssql_data_api.Prelude.Text.{Text, codes, is_word, fold}
use mssql_data_api.Prelude.Regex.{test, keyword}
use mssql_data_api.Prelude.Regex.Laws.{Matches, left, right, before_end}
use mssql_data_api.Prelude.Regex.Words.{
  Spells, IsWordIn, IsWordText, letters-Matches, bounded_complete,
}
use mssql_data_api.Prelude.Regex.Inversion.{word_sound}
use mssql_data_api.Safety.Patterns.{begins_with, read_starts, read_blocked, bare_cr}
use mssql_data_api.Safety.Guard.{
  valid, max_query_length, any_table, sensitive_re, first_blocked, is_bounded, touches, clean,
  validate_query, or_blocked, Verdict,
}
use mssql_data_api.Safety.Guard.Parts.{
  Groups, words_of, HasNone, Places-HasNone, HasNoBareReturn, bare_cr_missed, BeginsWith,
  BeginsWith-of_found,
}

-- The words that no accepted read has, with the places of their patterns.
abbrev pub read_groups : Groups
read_groups =
    (0, "INSERT" ∷ [])
    ∷ (7, "CREATE" ∷ "ALTER" ∷ "DROP" ∷ [])
    ∷ (9, "GRANT" ∷ "REVOKE" ∷ "DENY" ∷ [])
    ∷ (12, "RECONFIGURE" ∷ [])
    ∷ (13, "SP_CONFIGURE" ∷ [])
    ∷ (14, "SHUTDOWN" ∷ [])
    ∷ (15, "KILL" ∷ [])
    ∷ (16, "CHECKPOINT" ∷ [])
    ∷ (17, "RAISERROR" ∷ [])
    ∷ (23, "DBCC" ∷ [])
    ∷ (24, "WAITFOR" ∷ [])
    ∷ (25, "RESTORE" ∷ [])
    ∷ (26, "XP_CMDSHELL" ∷ [])
    ∷ (30, "SP_EXECUTESQL" ∷ [])
    ∷ (31, "OPENROWSET" ∷ [])
    ∷ (32, "OPENDATASOURCE" ∷ [])
    ∷ (33, "OPENQUERY" ∷ [])
    ∷ (35, "EXEC" ∷ "EXECUTE" ∷ [])
    ∷ []

or_blocked-valid :
    (o : Option String) (v : Verdict) → or_blocked o v ≡ valid → (o ≡ none) × (v ≡ valid)
or_blocked-valid none v h = (refl, h)
or_blocked-valid (some label) v h = cc

module _ (tables : List Text) (query : Text) (allow : Bool) where
  abbrev is_unbounded_scan : Bool
  is_unbounded_scan =
      not allow && touches (sensitive_re tables) (clean query) && not (is_bounded (clean query))

  -- The tests that an accepted query has passed.
  valid_parts :
      validate_query tables query allow ≡ valid
      → (length query ≤ max_query_length)
        × (test bare_cr query ≡ false)
        × (test (begins_with read_starts) (clean query) ≡ true)
        × (first_blocked read_blocked (clean query) ≡ none)
        × (is_unbounded_scan ≡ false)
  unfolding validate_query
  valid_parts h = ground arith

read_starts-words : (k : String) → Memᴰ k read_starts → IsWordText (codes k)
unfolding is_word
read_starts-words k (Memᴰ.head e) = rw e (refl, refl)
read_starts-words k (Memᴰ.tail (Memᴰ.head e)) = rw e (refl, refl)
read_starts-words k (Memᴰ.tail (Memᴰ.tail (Memᴰ.head e))) = rw e (refl, refl)
read_starts-words k (Memᴰ.tail (Memᴰ.tail (Memᴰ.tail m))) = elim m [ ]

read_groups-words : All (λ g. All (λ k. IsWordText (codes k)) g.1) read_groups
unfolding is_word
read_groups-words = assumption refl

-- An accepted query has at most 20000 characters, a line feed after every carriage return, and,
-- without its comments and with its string literals emptied, SELECT, WITH or DECLARE as its
-- first word.
pub validate_query-shape :
    (tables : List Text) (query : Text) (allow : Bool)
    → validate_query tables query allow ≡ valid
    → (length query ≤ 20000) × HasNoBareReturn query × BeginsWith read_starts (clean query)
validate_query-shape tables query allow h =
    let (short, returns, begins, _, _) = valid_parts tables query allow h in
    (
      short,
      bare_cr_missed query returns,
      BeginsWith-of_found read_starts (clean query) read_starts-words begins,
    )

-- No accepted query has one of the listed words, in any case, as a whole word outside its
-- comments and string literals.
pub validate_query-HasNone :
    (tables : List Text) (query : Text) (allow : Bool)
    → validate_query tables query allow ≡ valid
    → HasNone (words_of read_groups) (clean query)
unfolding read_blocked
validate_query-HasNone tables query allow h =
    let (_, _, _, missed, _) = valid_parts tables query allow h in
    Places-HasNone read_blocked read_groups (clean query) (assumption refl) read_groups-words missed

any_table-Matches :
    (l : List Text) {t : Text} (mid : Text) (b : Option ℕ) (after : Text)
    → Memᴰ t l
    → Spells t mid
    → Matches (any_table l) b (mid ++ after) (before_end b mid) after
unfolding any_table
any_table-Matches [] mid b after m h = elim m [ ]
any_table-Matches (s ∷ []) mid b after (Memᴰ.tail m) h = elim m [ ]
any_table-Matches (s ∷ []) mid b after (Memᴰ.head e) h =
    letters-Matches s mid b after (h ∙ ap (map fold) e)
any_table-Matches (s ∷ t ∷ l) mid b after (Memᴰ.head e) h =
    left (letters-Matches s mid b after (h ∙ ap (map fold) e))
any_table-Matches (s ∷ t ∷ l) mid b after (Memᴰ.tail m) h =
    right (any_table-Matches (t ∷ l) mid b after m h)

-- A sensitive table's name as a whole word is noticed.
touches_complete :
    (tables : List Text) {t : Text} (s : Text)
    → Memᴰ t tables
    → IsWordText t
    → IsWordIn t s
    → touches (sensitive_re tables) s ≡ true
unfolding sensitive_re touches
touches_complete [] s m words o = elim m [ ]
touches_complete (u ∷ tables) {t} s m words o =
    bounded_complete (any_table (u ∷ tables)) t s
      (λ mid b after e. any_table-Matches (u ∷ tables) mid b after m e) words o

-- The words that bound a scan.
abbrev pub scan_bounds : List String
scan_bounds = "WHERE" ∷ "TOP" ∷ "OFFSET" ∷ []

is_bounded_sound :
    (s : Text) → is_bounded s ≡ true → (k : String) × Memᴰ k scan_bounds × IsWordIn (codes k) s
unfolding is_bounded is_word
is_bounded_sound s h = elim (Bool-cases (test (keyword ("WHERE" ∷ [])) s)) [
  | inl a ↦ ("WHERE", Memᴰ.head refl, word_sound "WHERE" s (refl, refl) a)
  | inr a ↦ elim (Bool-cases (test (keyword ("TOP" ∷ [])) s)) [
    | inl b ↦ ("TOP", Memᴰ.tail (Memᴰ.head refl), word_sound "TOP" s (refl, refl) b)
    | inr b ↦ (
      "OFFSET",
      Memᴰ.tail (Memᴰ.tail (Memᴰ.head refl)),
      word_sound "OFFSET" s (refl, refl) (rw (a, b) at h),
    )
  ]
]

bounded_of : (a b : Bool) → (not false && a && not b) ≡ false → a ≡ true → b ≡ true
bounded_of a b h k = ground arith

-- An accepted query that names a sensitive table as a whole word has WHERE, TOP or OFFSET as a
-- whole word, unless large scans were allowed.
pub validate_query-bounded :
    (tables : List Text) (query : Text) {t : Text}
    → validate_query tables query false ≡ valid
    → Memᴰ t tables
    → IsWordText t
    → IsWordIn t (clean query)
    → (k : String) × Memᴰ k scan_bounds × IsWordIn (codes k) (clean query)
validate_query-bounded tables query h m words o =
    let (_, _, _, _, scan) = valid_parts tables query false h in
    is_bounded_sound (clean query) (
      bounded_of (touches (sensitive_re tables) (clean query)) (is_bounded (clean query)) scan
        (touches_complete tables (clean query) m words o))
