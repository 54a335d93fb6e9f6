-- ===== src/Report/Details.antt =====
-- How services/dba-mcp/src/dbatools.ts puts the rows of a check into words: `listOf`, `named`, the suspect
-- pages of `describe`, `isPersonalOwner`, the owners of databases and `triageOf`. Where the words are fixed,
-- what they interpolate stands for them.
mod Verdicts
mod Tests
use mssql_data_api.Prelude.{
  ℕ, suc, ◌+◌, ◌-◌, ◌*◌, Bool, true, false, not, ◌&&◌, ◌||◌, ◌==◌, leb, ltb, Option, none, some,
  List, [], ◌∷◌, ◌++◌, map, if◌then◌else◌, length, any, take,
}
use mssql_data_api.Prelude.Text.{Text, codes, eq_text, trim, is_digit}
use mssql_data_api.Prelude.Regex.{test, start, one, one_of, word, ◌⋆◌, ◌∣∣◌}
use mssql_data_api.Prelude.Dict.{Dict, get, set}
use mssql_data_api.Prelude.Json.{Runtime, decimal, join}
use mssql_data_api.Settings.{is_blank, every}
use mssql_data_api.Report.{Row, Finding, DisplayStatus, pass, attention, fail, info}
use mssql_data_api.Report.Inventory.{pick, id_of, text_or_blank}

-- `listOf`
unfoldable pub list_of : ℕ → List Text → Text
unfolding join decimal
list_of max l =
    if leb (length l) max
    then join (codes ", ") l
    else join (codes ", ") (take max l)
      ++ (codes " +" ++ (decimal (length l - max) ++ codes " more"))

abbrev and_id : Option Text → List Text → List Text
and_id none l = l
and_id (some n) l = n ∷ l

-- `named(rows, keys, (n) => n)`
unfoldable pub names_of : Runtime → List Text → List Row → List Text
unfolding id_of
names_of rt keys [] = []
names_of rt keys (r ∷ rs) = and_id (id_of rt r keys) (names_of rt keys rs)

-- `[...new Set(l)]`
unfoldable pub each_once : List Text → List Text → List Text
each_once seen [] = []
each_once seen (s ∷ l) =
    let skip = each_once seen l in
    let keep = s ∷ each_once (s ∷ seen) l in if any (λ t. eq_text t s) seen then skip else keep

unfoldable pub rows_with : (Row → Bool) → List Row → List Row
rows_with p [] = []
rows_with p (r ∷ rs) = let rest = rows_with p rs in if p r then r ∷ rest else rest

pub data EventClass : Type 0 where
  unresolved : EventClass
  resolved : EventClass
  unknown : EventClass

-- `Number(raw)` of digits.
abbrev read_digits : ℕ → Text → ℕ
read_digits n [] = n
read_digits n (c ∷ s) = read_digits (n * 10 + (c - b'0')) s

abbrev class_of_number : ℕ → EventClass
class_of_number n =
    if n == 1 || n == 2 || n == 3
    then unresolved
    else if n == 4 || n == 5 || n == 7
    then resolved
    else unknown

unfoldable pub class_of_text : Text → EventClass
unfolding test one_of
class_of_text raw =
    if test (one_of ("checksum" ∷ "torn" ∷ "823" ∷ "crc" ∷ "IO error" ∷ [])) raw
    then unresolved
    else if test (one_of ("restor" ∷ "repair" ∷ "dealloc" ∷ [])) raw
    then resolved
    else unknown

unfoldable pub ev_class : Runtime → Row → EventClass
unfolding pick trim class_of_text
ev_class rt r =
    let raw = trim (text_or_blank rt (pick r (codes "EventType" ∷ codes "event_type" ∷ []))) in
    if not (is_blank raw) && every is_digit raw
    then class_of_number (read_digits 0 raw)
    else class_of_text raw

abbrev pub is_unresolved : EventClass → Bool
is_unresolved unresolved = true
is_unresolved _ = false

abbrev pub is_resolved : EventClass → Bool
is_resolved resolved = true
is_resolved _ = false

-- What is said of the suspect pages: nothing; that pages are damaged, in which databases, and how many
-- rows are repaired; that no row was recognised; or that there is no active corruption, with the
-- databases and the repaired rows.
pub data SuspectPages : Type 0 where
  nothing : SuspectPages
  active : Text → ℕ → SuspectPages
  unrecognised : ℕ → SuspectPages
  historical : Text → List Row → SuspectPages

unfoldable pub dbs_of : Runtime → List Row → Text
unfolding list_of each_once names_of
dbs_of rt rs =
    list_of 6 (each_once [] (names_of rt (codes "Database" ∷ codes "DatabaseName" ∷ []) rs))

abbrev pub judged : Runtime → List Row → List Row → List Row → SuspectPages
judged rt (r ∷ rs) repaired rows = active (dbs_of rt (r ∷ rs)) (length repaired)
judged rt [] [] rows = unrecognised (length rows)
judged rt [] (r ∷ rs) rows = historical (dbs_of rt (r ∷ rs)) (r ∷ rs)

unfoldable pub suspect_pages : Runtime → List Row → SuspectPages
unfolding rows_with ev_class dbs_of
suspect_pages rt [] = nothing
suspect_pages rt (r ∷ rs) =
    judged rt (rows_with (λ q. is_unresolved (ev_class rt q)) (r ∷ rs))
      (rows_with (λ q. is_resolved (ev_class rt q)) (r ∷ rs)) (r ∷ rs)

-- `isPersonalOwner`
unfoldable pub is_personal_owner : Text → Bool
unfolding test one_of word
is_personal_owner owner =
    any (λ c. c == b'\\') owner
    && not (
        test
          (start
            ⋆ (one_of ("NT SERVICE" ∷ "NT AUTHORITY" ∷ "BUILTIN" ∷ []) ⋆ one (λ c. c == b'\\')))
          owner)
    && not (test (one (λ c. c == b'\\') ⋆ one_of ("svc" ∷ "app" ∷ "sql" ∷ [])) owner)

unfoldable pub owner_of : Runtime → Row → Text
unfolding pick trim
owner_of rt r = trim (text_or_blank rt (pick r (codes "CurrentOwner" ∷ [])))

abbrev pub or_zero : Option ℕ → ℕ
or_zero none = 0
or_zero (some n) = n

abbrev pub tally_one : Text → Dict ℕ → Dict ℕ
tally_one o d =
    if not (is_blank o) && not (is_personal_owner o) then set o (or_zero (get o d) + 1) d else d

-- How many databases each service account owns.
unfoldable pub tally : Runtime → List Row → Dict ℕ → Dict ℕ
unfolding owner_of get set is_personal_owner
tally rt [] d = d
tally rt (r ∷ rs) d = tally rt rs (tally_one (owner_of rt r) d)

-- A row whose database cannot be altered here.
unfoldable pub is_read_only : Runtime → Row → Bool
unfolding pick
is_read_only rt r = eq_text (text_or_blank rt (pick r (codes "Fixable" ∷ []))) (codes "0")

pub record Owners : Type 0 where
  pub graded : List Row
  pub personal : List Row
  pub orphaned : List Row
  pub accounts : Dict ℕ

unfoldable pub owners_of : Runtime → List Row → Owners
unfolding rows_with is_read_only owner_of tally is_personal_owner
owners_of rt rows =
    let writable = rows_with (λ r. not (is_read_only rt r)) rows in
    record {
      graded = writable;
      personal = rows_with (λ r. is_personal_owner (owner_of rt r)) writable;
      orphaned = rows_with (λ r. is_blank (owner_of rt r)) writable;
      accounts = tally rt writable [];
    }

pub data Triage : Type 0 where
  act_now : Triage
  this_week : Triage
  review : Triage

abbrev pub act_now_labels : List Text
act_now_labels =
    codes "Agent alert coverage"
    ∷ codes "Databases & state"
    ∷ codes "Last backups"
    ∷ codes "Last good CHECKDB"
    ∷ codes "Suspect pages"
    ∷ codes "AG data movement"
    ∷ codes "AG policy conformance (HA settings)"
    ∷ codes "AG failover capacity symmetry"
    ∷ codes "Disk space"
    ∷ codes "ERRORLOG / stack-dump volume free space"
    ∷ codes "Secrets in Agent job step text"
    ∷ codes "Access violations / stack dumps (24h)"
    ∷ []

-- `s.startsWith(p)`
abbrev starts_with : Text → Text → Bool
starts_with [] s = true
starts_with (c ∷ p) [] = false
starts_with (c ∷ p) (d ∷ s) = c == d && starts_with p s

unfoldable pub is_ongoing_storm : Finding → Bool
unfolding test one_of
is_ongoing_storm f =
    starts_with (codes "Stack-dump storm rate") f.label
    && test (one_of ("ONGOING" ∷ "live incident" ∷ [])) f.details

unfoldable pub triage_failed : Finding → Triage
unfolding is_ongoing_storm
triage_failed f =
    if any (λ l. eq_text l f.label) act_now_labels || is_ongoing_storm f then act_now else this_week

unfoldable pub triage_of : Finding → Triage
unfolding triage_failed
triage_of f = elim f.status [
  | pass ↦ review
  | attention ↦ review
  | fail ↦ triage_failed f
  | info ↦ review
]
