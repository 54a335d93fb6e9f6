-- ===== src/Report/Tests.antt =====
-- A small report, and the theorems on reports at it.
use mssql_data_api.Prelude.{◌≡◌, refl, false, Option, none, some, List, [], ◌∷◌, All}
use mssql_data_api.Prelude.Text.{Text, codes}
use mssql_data_api.Report.{
  DisplayStatus, raw_pass, raw_attention, error, RawStatus, RawCheck, Finding, Priority, high, low,
  to_finding, score_findings,
}
use mssql_data_api.Report.Coverage.{findings_of}

abbrev no_details : RawCheck → DisplayStatus → Text
no_details c s = []

abbrev check : RawStatus → Option Priority → RawCheck
check s p = record {
  category = codes "Disks";
  label = codes "Disk space";
  priority = p;
  status = s;
  rows = 1;
  shown = some 1;
  capped = false;
  data_rows = [];
}

abbrev some_checks : List RawCheck
some_checks = check raw_pass (some high) ∷ check raw_attention none ∷ check error none ∷ []

abbrev blind_checks : List RawCheck
blind_checks = check error none ∷ check error (some low) ∷ []

abbrev found : List Finding
found = findings_of no_details some_checks

-- (3 * 100 + 2 * 60) / 5 is 84.
scored : (score_findings found).overall ≡ some 84
unfolding score_findings to_finding
scored = refl

no_check_looked : All (λ d. d.status ≡ error) blind_checks
no_check_looked = (refl, (refl, tt))
