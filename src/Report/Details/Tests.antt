-- ===== src/Report/Details/Tests.antt =====
-- Rows of checks, and the theorems on their words.
use mssql_data_api.Prelude.{◌≡◌, refl, ◌+◌, true, false, none, List, [], ◌∷◌, length}
use mssql_data_api.Prelude.Text.{Text, codes, trim, trim_start, is_space, fold, is_word}
use mssql_data_api.Prelude.Regex.{run_many, run, search_from, test, letters, word, one_of}
use mssql_data_api.Prelude.Dict.{get}
use mssql_data_api.Prelude.Json.{string, fraction, Runtime, join}
use mssql_data_api.Report.{Row}
use mssql_data_api.Report.Inventory.{pick, id_of}
use mssql_data_api.Report.Details.{
  list_of, names_of, each_once, rows_with, ev_class, class_of_text, dbs_of, historical,
  suspect_pages, is_personal_owner, owners_of,
}
use mssql_data_api.Report.Details.Verdicts.{total, owners_of-counted}

abbrev plain : Runtime
plain = record {
  parse = λ s. none;
  text_of = λ v. [];
  number_of = λ v. fraction;
  upper = λ s. s;
  lower = λ s. s;
}

abbrev page : Text → Text → Row
page database event = (codes "Database", string database) ∷ (codes "EventType", string event) ∷ []

-- A page whose event is not recognised goes unmentioned beside one that is repaired.
unknown_page_unmentioned :
    suspect_pages plain (page (codes "A") (codes "5") ∷ page (codes "B") (codes "9") ∷ [])
    ≡ historical (codes "A") (page (codes "A") (codes "5") ∷ [])
unfolding suspect_pages rows_with ev_class pick get trim trim_start is_space dbs_of list_of
    each_once names_of id_of join class_of_text
unknown_page_unmentioned = refl

abbrev owned : Text → Row
owned o = (codes "Database", string (codes "A")) ∷ (codes "CurrentOwner", string o) ∷ []

abbrev databases : List Row
databases =
    owned (codes "sa")
    ∷ owned (codes "CORP\\ann")
    ∷ owned (codes "NT Service\\x")
    ∷ owned []
    ∷ ((codes "Fixable", string (codes "0")) ∷ [])
    ∷ []

people :
    (is_personal_owner (codes "CORP\\ann") ≡ true)
    × (is_personal_owner (codes "CORP\\svc-x") ≡ false)
    × (is_personal_owner (codes "NT Service\\x") ≡ false)
unfolding is_personal_owner test search_from run run_many one_of word letters fold is_word
people = (refl, refl, refl)

owners_of-counted_example :
    total (owners_of plain databases).accounts
      + length (owners_of plain databases).personal
      + length (owners_of plain databases).orphaned
    ≡ length (owners_of plain databases).graded
owners_of-counted_example = owners_of-counted plain databases
