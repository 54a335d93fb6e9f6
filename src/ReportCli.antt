-- ===== src/ReportCli.antt =====
-- services/dba-mcp/src/reportCli.ts: Flags is `parseFlags`; here is `runReportCli`, which health
-- report it asks for, and what becomes of it. The report itself is given, as what `runHealthReport`
-- makes of the targets (none is an exception); dates, file names and the HTML stay out. `lower` is
-- `toLowerCase`.
pub mod Flags
pub mod Verdicts
mod RoundTrip
mod Tests
use mssql_data_api.Prelude.{
  ℕ, ◌+◌, ◌*◌, ltb, leb, Bool, true, false, not, ◌&&◌, ◌||◌, Option, none, some, List, [], ◌∷◌,
  ◌++◌, if◌then◌else◌, any, map,
}
use mssql_data_api.Prelude.Text.{Text, codes, eq_text}
use mssql_data_api.Prelude.Dict.{Dict, get}
use mssql_data_api.Safety.Guard.{split}
use Flags.{parse_flags}
use Verdicts.{Report, Subject, subject_of, critical}

pub record Instance : Type 0 where
  pub name : Text
  pub region : Option Text
  pub is_witness : Bool

pub data Outcome : Type 0 where
  no_recipients : Outcome
  no_instances : Outcome
  run_failed : Outcome
  no_results : Outcome
  wrote : Option Text → Subject → Outcome
  mailed : Text → Text → Text → Subject → Bool → Outcome

-- A flag that is missing and one that is empty are alike where the code tests it for truth.
abbrev pub truthy : Option Text → Option Text
truthy none = none
truthy (some []) = none
truthy (some (c ∷ s)) = some (c ∷ s)

abbrev pub or_text : Option Text → Text → Text
or_text none t = t
or_text (some s) t = s

abbrev pub is_one_of : Option Text → Bool
is_one_of none = false
is_one_of (some s) = eq_text s (codes "true") || eq_text s (codes "1")

abbrev pub in_region : (Text → Text) → Option Text → Instance → Bool
in_region lower none i = true
in_region lower (some r) i = eq_text (lower (or_text i.region [])) (lower r)

abbrev pub is_listed : Option Text → Instance → Bool
is_listed none i = true
is_listed (some names) i = any (λ n. eq_text n i.name) (split b',' names)

unfoldable pub targets : (Text → Text) → Dict Text → List Instance → List Instance
unfolding get split
targets lower f [] = []
targets lower f (i ∷ l) =
    let rest = targets lower f l in
    if not i.is_witness
      && in_region lower (truthy (get (codes "region") f)) i
      && is_listed (truthy (get (codes "instances") f)) i
    then i ∷ rest
    else rest

-- `(f.auth ?? (… ? "sql" : "windows")) === "sql"`; `has_login` is whether SQL_USER and SQL_PASSWORD
-- are set.
unfoldable pub use_sql : Dict Text → Bool → Bool
unfolding get
use_sql f has_login =
    eq_text (or_text (get (codes "auth") f) (if has_login then codes "sql" else codes "windows"))
      (codes "sql")

abbrev pub first_name : List Instance → Text
first_name [] = []
first_name (i ∷ l) = i.name

abbrev pub mail_instance : Dict Text → List Instance → Option Text → Text
mail_instance f l none = or_text (get (codes "mail-instance") f) (first_name l)
mail_instance f l (some r) = or_text (get (codes "mail-instance") f) (r ++ codes "-primary")

unfoldable pub deliver : Dict Text → Bool → List Instance → Text → Subject → Outcome
unfolding get
deliver f dry_run l recipients s =
    if dry_run
    then wrote (get (codes "out") f) s
    else mailed (mail_instance f l (truthy (get (codes "region") f)))
        (or_text (get (codes "profile") f) (codes "DBA Mail Profile")) recipients s
        (critical s.worst)

unfoldable pub reported : Dict Text → Bool → List Instance → Option (List Report) → Outcome
unfolding deliver subject_of
reported f dry_run l none = run_failed
reported f dry_run l (some []) = no_results
reported f dry_run l (some (r ∷ rs)) =
    deliver f dry_run l (or_text (get (codes "recipients") f) []) (subject_of (r ∷ rs))

unfoldable pub run_targets :
    (List Instance → Bool → Option (List Report))
    → Dict Text
    → Bool
    → Bool
    → List Instance
    → Outcome
unfolding reported use_sql
run_targets health f has_login dry_run [] = no_instances
run_targets health f has_login dry_run (i ∷ l) =
    reported f dry_run (i ∷ l) (health (i ∷ l) (use_sql f has_login))

abbrev pub is_none : Option Text → Bool
is_none none = true
is_none (some s) = false

unfoldable pub run_report_cli :
    (Text → Text)
    → (List Instance → Bool → Option (List Report))
    → List Instance
    → Bool
    → List Text
    → Outcome
unfolding run_targets targets parse_flags
run_report_cli lower health fleet has_login argv =
    let f = parse_flags argv in
    let dry_run = is_one_of (get (codes "dry-run") f) in
    if is_none (truthy (get (codes "recipients") f)) && not dry_run
    then no_recipients
    else run_targets health f has_login dry_run (targets lower f fleet)
